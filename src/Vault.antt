-- ===== src/Vault.antt =====
-- apps/client/src/features/vault and features/teams/rotate-record.ts: the encrypted records.
pub mod Records
pub mod PrivateKey
pub mod Rotation
pub mod Ids
