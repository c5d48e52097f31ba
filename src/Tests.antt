-- ===== src/Tests.antt =====
-- The theorems at concrete inputs.
mod Fixtures
mod Clients
mod Commands
mod Pods
mod Registers
mod Holders
mod Coordinators
mod Encoding
mod Retries
mod Connections
mod Simulations
mod Stores
mod Locking
mod Replies
mod Reads
mod Leases
mod Agents
mod Zones
mod Api
