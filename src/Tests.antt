-- ===== src/Tests.antt =====
-- Tests: the theorems at concrete inputs, and models of what the code relies on.
mod Mongo
mod Cache
mod Odm
mod State
mod Storage
mod Signed
mod Local
mod Services
mod Database
mod Loading
mod Terminal
mod Codec
mod Pagination
mod Validator
