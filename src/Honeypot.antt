-- ===== src/Honeypot.antt =====
-- honeypotserver/: the server that answers every request 403 and logs what it asked for.
pub mod Mask
pub mod Trigger
pub mod Server
