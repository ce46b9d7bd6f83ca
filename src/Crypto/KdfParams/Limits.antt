-- ===== src/Crypto/KdfParams/Limits.antt =====
-- `KDF_LIMITS` of packages/crypto/src/kdf-params.ts.
use trominal.Shared.{ℕ, ◌*◌}

abbrev pub memlimit_min : ℕ
memlimit_min = 64 * 1024 * 1024

abbrev pub memlimit_max : ℕ
memlimit_max = 256 * 1024 * 1024

abbrev pub opslimit_min : ℕ
opslimit_min = 3

abbrev pub opslimit_max : ℕ
opslimit_max = 10

abbrev pub salt_len : ℕ
salt_len = 16

abbrev pub out_len : ℕ
out_len = 32
