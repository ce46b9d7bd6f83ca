-- ===== src/Crypto.antt =====
-- packages/crypto/src
pub mod Wire
pub mod Der
pub mod OpenSsh
pub mod KdfParams
pub mod Sodium
pub mod Toy
pub mod Envelope
pub mod TeamKey
