-- ===== src/Odm.antt =====
-- The odm package: a MongoDB object-document mapper.
pub mod Value
pub mod Mongo
pub mod Filter
pub mod Errors
pub mod Relation
pub mod Query
pub mod Cursor
pub mod Pagination
pub mod State
pub mod Terminal
pub mod Loading
pub mod Aggregation
pub mod Bulk
pub mod Collection
pub mod Index
pub mod Observer
