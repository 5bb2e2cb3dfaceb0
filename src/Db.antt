-- ===== src/Db.antt =====
-- The database layer (src/db): ids as big-endian bytes, the keys of the trees, the interface of a tree, which
-- sled or sqlite fills, the backend for sqlite, and the migrations.
pub mod Ids
pub mod Keys
pub mod KeySchema
pub mod Tree
pub mod Sqlite
pub mod Migration
