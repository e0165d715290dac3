-- ===== src/Security.antt =====
-- src/mac/frame/security: the security control octet, the auxiliary security header, the context and
-- the lookups, the nonce, and the securing and unsecuring of a frame.
pub mod Control
pub mod AuxHeader
pub mod Context
pub mod Error
pub mod Nonce
pub mod Ccm
pub mod Secure
pub mod Device
pub mod Unsecure
