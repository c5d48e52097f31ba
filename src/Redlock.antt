-- ===== src/Redlock.antt =====
-- internal/driver/redlock: the quorum lock over independent Redis servers.
pub mod Quorum
pub mod Script
pub mod Mutex
pub mod Crc
pub mod Shards
pub mod Votes
pub mod Store
pub mod Commands
pub mod Rueidis
