-- ===== src/Agent.antt =====
-- agent: the configuration of an agent, the collection of a report and its delivery.
pub mod Settings
pub mod Reporter
pub mod Collect
pub mod TokenCache
pub mod License
pub mod Cycle
pub mod Config
pub mod Run
pub mod Logger
pub mod Runners
