-- ===== src/Examples.antt =====
-- Concrete runs of the server, its client and the agent.
pub mod Data
pub mod Sessions
pub mod Process
pub mod Remote
pub mod Agents
pub mod Names
pub mod Shared
pub mod Masked
pub mod Locked
pub mod Packets
pub mod Files
pub mod Lines
pub mod Overlong
pub mod Specs
pub mod Endings
pub mod Crowd
pub mod Lives
