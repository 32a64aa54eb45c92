-- ===== src/Protocol.antt =====
-- libraries/protocol: blocks, authorities and the checking of signatures, and assets.
pub mod Block
pub mod Authority
pub mod SignState
pub mod VerifyAuthority
pub mod Asset
