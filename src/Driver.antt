-- ===== src/Driver.antt =====
-- internal/driver: the key-value driver over the quorum lock.
pub mod Health
pub mod Modes
pub mod AgentState
pub mod Store
pub mod Holders
pub mod Start
