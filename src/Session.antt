-- ===== src/Session.antt =====
-- apps/client/src/stores/vault.ts, features/teams/store.ts and lib/session-teardown.ts: the secrets
-- that a signed-in session holds in memory.
pub mod TeamScope
pub mod VaultStore
pub mod Auth
pub mod Terminal
pub mod Transfers
pub mod Tunnels
pub mod Teardown
