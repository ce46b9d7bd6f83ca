-- ===== src/Crypto/KdfParams/Tests.antt =====
-- Runs of the KDF policy of packages/crypto/src/kdf-params.ts.
use trominal.Shared.{◌*◌, ◌≡◌, ◌↔◌, refl, true, false, Bytes, codes, text_eq, replicate}
use trominal.Shared.Results.{ok, err}
use trominal.Json.{
  Number, nat, fraction, number, string, object, null, Fields, field, end, keys, get,
}
use trominal.Json.Order.{sort}
use trominal.Crypto.KdfParams.{
  Argon2id, is_kdf_params, derive_vault_key, as_kdf_params, default_kdf_params, salt_length,
}
use trominal.Crypto.KdfParams.Policy.{IsSupported, is_kdf_params_iff}
use trominal.Crypto.KdfParams.Derivation.{
  IsBounded, derive_vault_key-IsBounded, derive_vault_key-supported,
}

-- The keys out of order, as a server may send them.
abbrev stored : Number → Fields
stored opslimit = field (codes "version") (number (nat 1)) (
    field (codes "alg") (string (codes "argon2id")) (
      field (codes "memlimit") (number (nat (64 * 1024 * 1024))) (
        field (codes "opslimit") (number opslimit) (
          field (codes "salt_len") (number (nat 16))
            (field (codes "out_len") (number (nat 32)) end)))))

abbrev pwhash : Argon2id
pwhash out password salt ops mem = salt

accepted : is_kdf_params (object (stored (nat 3))) ≡ true
unfolding is_kdf_params sort keys get text_eq
accepted = refl

too_weak : is_kdf_params (object (stored (nat 2))) ≡ false
unfolding is_kdf_params sort keys get text_eq
too_weak = refl

not_whole : is_kdf_params (object (stored fraction)) ≡ false
unfolding is_kdf_params sort keys get text_eq
not_whole = refl

derived :
    derive_vault_key pwhash (codes "pw") (replicate 16 7) default_kdf_params ≡ ok (replicate 16 7)
unfolding derive_vault_key text_eq
derived = refl

short_salt :
    derive_vault_key pwhash (codes "pw") (replicate 8 7) default_kdf_params ≡ err salt_length
unfolding derive_vault_key text_eq
short_salt = refl

is_kdf_params_iff_example :
    (is_kdf_params null ≡ true) ↔ ((v : Fields) × (null ≡ object v) × IsSupported v)
is_kdf_params_iff_example = is_kdf_params_iff null

derive_vault_key-IsBounded_run :
    IsBounded pwhash (codes "pw") (replicate 16 7) default_kdf_params (replicate 16 7)
derive_vault_key-IsBounded_run =
    derive_vault_key-IsBounded pwhash (codes "pw") (replicate 16 7) default_kdf_params
      (replicate 16 7) derived

derive_vault_key-supported_run :
    (key : Bytes) × (derive_vault_key pwhash
        (codes "pw")
        (replicate 16 7)
        (as_kdf_params (stored (nat 3)))
      ≡ ok key)
derive_vault_key-supported_run =
    derive_vault_key-supported pwhash (codes "pw") (replicate 16 7) (stored (nat 3)) accepted refl
