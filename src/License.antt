-- ===== src/License.antt =====
-- agentlicense: license keys, tokens and offline files.
pub mod Base64
pub mod Jwt
pub mod PublicKeys
pub mod Key
pub mod Offline
pub mod Heartbeat
