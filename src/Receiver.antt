-- ===== src/Receiver.antt =====
-- core/receiver: the reports that arrive, their store, and the judgement that a server is silent.
pub mod AgentId
pub mod State
pub mod Disk
pub mod ReportFile
pub mod Store
pub mod Notify
pub mod Liveness
pub mod Source
pub mod Handler
pub mod Dashboard
