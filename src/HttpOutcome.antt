-- ===== src/HttpOutcome.antt =====
-- httpoutcome: receipts of the HTTP calls that a producer makes on purpose, the file that keeps
-- them, and the collector that ships them.
pub mod Receipt
pub mod Paths
pub mod Transport
pub mod Shipping
