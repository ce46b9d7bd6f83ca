-- ===== src/Crypto/KdfParams/Derivation.antt =====
-- `deriveVaultKey` of packages/crypto/src/kdf.ts: what reaches Argon2id.
use mathlib.Core.Bool.{◌&&◌}
use trominal.Shared.{
  Bool, ℕ, ◌≤◌, ◌*◌, true, Text, Bytes, text_eq, length, ==_iff, ◌≡◌, refl, arith, ap, sym, ◌∙◌,
}
use trominal.Shared.Results.{Result, ok, ◌>>◌, require, require-eq-ok}
use trominal.Json.{Number, nat, negative, fraction, object, Fields}
use trominal.Crypto.KdfParams.Limits
use trominal.Crypto.KdfParams.{
  argon2id, KdfParams, Argon2id, Error, unsupported_params, unsupported_alg, salt_length, number_is,
  is_number_between, within_limits, is_kdf_params, assert_kdf_resource_limits, derive_vault_key,
  as_kdf_params,
}
use trominal.Crypto.KdfParams.Policy.{IsSupported, is_kdf_params-IsSupported}

number_is-eq : (n : Number) (k : ℕ) → number_is n k ≡ true → n ≡ nat k
number_is-eq (nat n) k h = ap nat ((==_iff n k).0 h)
number_is-eq (negative n) k h = cc
number_is-eq fraction k h = cc

Between : Number → ℕ → ℕ → Type 0
Between n lo hi = (k : ℕ) × (n ≡ nat k) × (lo ≤ k) × (k ≤ hi)

nat_injective : {n k : ℕ} → nat n ≡ nat k → n ≡ k
nat_injective h = cc h

is_number_between-Between :
    (n : Number) (lo hi : ℕ) → is_number_between n lo hi ≡ true → Between n lo hi
unfolding Between
is_number_between-Between (nat n) lo hi h = (n, refl, ground arith, ground arith)
is_number_between-Between (negative n) lo hi h = cc
is_number_between-Between fraction lo hi h = cc

all_true :
    (a b c d e : Bool)
    → (a && b && c && d && e) ≡ true
    → (b ≡ true) × (c ≡ true) × (d ≡ true) × (e ≡ true)
all_true a b c d e h = ground arith

module _ (pwhash : Argon2id) (password : Text) (salt : Bytes) where
  -- What Argon2id is run with: never more memory or operations than the ceiling, a salt of 16
  -- bytes and an output of 32.
  pub record IsBounded (params : KdfParams) (key : Bytes) : Type 0 where
    pub memory : ℕ
    pub operations : ℕ
    pub memory_ge : 1 ≤ memory
    pub memory_le : memory ≤ 256 * 1024 * 1024
    pub operations_ge : 1 ≤ operations
    pub operations_le : operations ≤ 10
    pub salt_length : length salt ≡ 16
    pub params_memory : params.memlimit ≡ nat memory
    pub params_operations : params.opslimit ≡ nat operations
    pub derived : key ≡ pwhash (nat 32) password salt (nat operations) (nat memory)

  -- A key is derived only within the resource limits.
  pub derive_vault_key-IsBounded :
      (params : KdfParams) (key : Bytes)
      → derive_vault_key pwhash password salt params ≡ ok key
      → IsBounded params key
  unfolding derive_vault_key Between
  derive_vault_key-IsBounded params key h =
      let done : Result Error Bytes =
        ok (pwhash params.out_len password salt params.opslimit params.memlimit) in
      let salted = require (number_is params.salt_len (length salt)) salt_length >> done in
      let (_, h) =
        require-eq-ok (text_eq params.alg argon2id) unsupported_alg
          (assert_kdf_resource_limits params >> salted) h in
      let (limits, h) = require-eq-ok (within_limits params) unsupported_params salted h in
      let (salt_len, h) =
        require-eq-ok (number_is params.salt_len (length salt)) salt_length done h in
      let (sixteen, out, mem, ops) =
        all_true (text_eq params.alg argon2id) (number_is params.salt_len 16)
          (number_is params.out_len 32) (is_number_between params.memlimit 1 Limits.memlimit_max)
          (is_number_between params.opslimit 1 Limits.opslimit_max) limits in
      let (m, is_m, m_ge, m_le) =
        is_number_between-Between params.memlimit 1 Limits.memlimit_max mem in
      let (o, is_o, o_ge, o_le) =
        is_number_between-Between params.opslimit 1 Limits.opslimit_max ops in
      record {
        memory = m;
        operations = o;
        memory_ge = m_ge;
        memory_le = m_le;
        operations_ge = o_ge;
        operations_le = o_le;
        salt_length = nat_injective (
            sym (number_is-eq params.salt_len (length salt) salt_len)
            ∙ number_is-eq params.salt_len 16 sixteen);
        params_memory = is_m;
        params_operations = is_o;
        derived = cc (number_is-eq params.out_len 32 out);
      }

  derive_of_IsSupported :
      (v : Fields) (s : IsSupported v)
      → length salt ≡ 16
      → derive_vault_key pwhash password salt (as_kdf_params v)
        ≡ ok (pwhash (nat 32) password salt (nat s.opslimit) (nat s.memlimit))
  unfolding derive_vault_key as_kdf_params text_eq
  derive_of_IsSupported v s size =
      rw (s.alg, s.has_memlimit, s.has_opslimit, s.salt_len, s.out_len) (ground arith)

  -- Parameters that the guard accepts are never refused later, given the salt of 16 bytes.
  pub derive_vault_key-supported :
      (v : Fields)
      → is_kdf_params (object v) ≡ true
      → length salt ≡ 16
      → (key : Bytes) × (derive_vault_key pwhash password salt (as_kdf_params v) ≡ ok key)
  derive_vault_key-supported v h size =
      (_, derive_of_IsSupported v (is_kdf_params-IsSupported v h) size)
