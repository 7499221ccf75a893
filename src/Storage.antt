-- ===== src/Storage.antt =====
-- internal/storage: the Bloom filter, hashes, the chunk store and the manager over them.
pub mod Bloom
pub mod Hash
pub mod Disk
pub mod Chunk
pub mod Manager
