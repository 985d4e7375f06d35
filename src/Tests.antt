-- ===== src/Tests.antt =====
-- Runs of the model on small inputs, and the theorems applied to them.
mod Data
mod Liveness
mod Handler
mod Agent
mod Delivery
mod Monitor
mod Dashboard
mod License
mod Logs
mod Receipts
mod Runner
mod Honeypot
mod Pot
mod Logger
