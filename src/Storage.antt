-- ===== src/Storage.antt =====
-- storage: the disks.
pub mod Local
pub mod S3
