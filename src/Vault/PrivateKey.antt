-- ===== src/Vault/PrivateKey.antt =====
-- apps/client/src/features/vault/private-key.ts and the part of apps/client/src/stores/vault.ts that
-- derives and verifies a key. Ids are the texts that `String` gives; base64, the AEAD and Argon2id
-- are parameters.
pub mod Unlocking
mod Tests
use trominal.Shared.{
  Bool, true, false, List, [], ◌∷◌, Option, none, some, Text, Bytes, codes, text_eq, if◌then◌else◌,
}
use mathlib.Core.Bool.{not}
use trominal.Shared.Results.{Result, ok, err, ◌>>=◌, ◌>>◌, require, or_throw}
use trominal.Json.{Value, string, object, get, as_object}
use trominal.Crypto.Sodium.{Sodium}
use trominal.Crypto.KdfParams.{Argon2id, is_kdf_params, derive_vault_key, as_kdf_params}
use trominal.Crypto.Envelope
use trominal.Crypto.Envelope.{Envelope, make_ad, encrypt, decrypt}
use trominal.Session.VaultStore.{UserVaultMaterial}

pub record PrivateKeyOwner : Type 0 where
  pub id : Text
  pub email : Text

pub record OpenedPrivateKey : Type 0 where
  pub private_key : Bytes
  pub legacy : Bool

unfoldable pub user_private_key_ad : Text → Result Envelope.Error Text
user_private_key_ad user_id = make_ad (codes "user_private_key") user_id

unfoldable pub legacy_user_private_key_ad : Text → Result Envelope.Error Text
legacy_user_private_key_ad email = make_ad (codes "user_private_key") email

abbrev pub stored_envelope : UserVaultMaterial → Envelope
stored_envelope material = record {
  v = 1;
  ct = material.private_key_ciphertext;
  n = material.private_key_nonce;
}

module _ (sodium : Sodium) where
  abbrev pub open_under :
      UserVaultMaterial → Bytes → Result Envelope.Error Text → Result Envelope.Error Bytes
  open_under material vault_key made = do
    ad ← made
    decrypt sodium (stored_envelope material) vault_key ad

  -- The error of the first attempt is thrown when both fail.
  unfoldable pub open_user_private_key :
      UserVaultMaterial → Bytes → PrivateKeyOwner → Result Envelope.Error OpenedPrivateKey
  open_user_private_key material vault_key owner =
      elim (open_under material vault_key (user_private_key_ad owner.id)) [
        | ok private_key ↦ ok (record { private_key = private_key; legacy = false })
        | err id_error ↦
            elim (open_under material vault_key (legacy_user_private_key_ad owner.email)) [
              | ok private_key ↦ ok (record { private_key = private_key; legacy = true })
              | err _ ↦ err id_error
            ]
      ]

  -- `fresh` is the nonce that `encrypt` generates.
  unfoldable pub seal_user_private_key :
      Bytes → Bytes → Bytes → Text → Result Envelope.Error Envelope
  seal_user_private_key fresh private_key vault_key user_id = do
    ad ← user_private_key_ad user_id
    encrypt sodium private_key vault_key ad fresh

pub data UnlockError : Type 0 where
  no_material bootstrap_account unsupported_params invalid_salt derivation_failed
        incorrect_password :
      UnlockError

-- What `unlock` has in hand when the key is verified: the key, and the envelope to upload again.
pub record Unlocked : Type 0 where
  pub key : Bytes
  pub rebound : Option Envelope

-- The buffers that `unlock` zeroes come back beside its result.
pub record Attempt : Type 0 where
  pub result : Result UnlockError Unlocked
  pub wiped : List Bytes

abbrev pub is_bootstrap : Option Value → Bool
is_bootstrap (some (string alg)) = text_eq alg (codes "temporary-filament-bootstrap")
is_bootstrap _ = false

abbrev pub is_bootstrapped : Value → Bool
is_bootstrapped (object v) = is_bootstrap (get (codes "alg") v)
is_bootstrapped _ = false

module _ (sodium : Sodium) (pwhash : Argon2id) where
  -- The key derived from the password, before anything is decrypted with it.
  unfoldable pub derived_key :
      Text → Option UserVaultMaterial → Result UnlockError (UserVaultMaterial × Bytes)
  derived_key password none = err no_material
  derived_key password (some material) = do
    require (not (is_bootstrapped material.kdf_params)) bootstrap_account
    require (is_kdf_params material.kdf_params) unsupported_params
    params ← or_throw (as_object material.kdf_params) unsupported_params
    salt ← or_throw (sodium.from_base64 material.kdf_salt) invalid_salt
    elim (derive_vault_key pwhash password salt (as_kdf_params params)) [
      | ok key ↦ ok (material, key)
      | err e ↦ err derivation_failed
    ]

  -- A legacy envelope is sealed again for the user id; a failure there counts as a wrong password.
  abbrev pub verified : Bytes → PrivateKeyOwner → Bytes → OpenedPrivateKey → Attempt
  verified fresh owner key opened =
      if opened.legacy
      then elim (seal_user_private_key sodium fresh opened.private_key key owner.id) [
        | ok envelope ↦ record {
          result = ok (record { key = key; rebound = some envelope });
          wiped = opened.private_key ∷ [];
        }
        | err _ ↦ record { result = err incorrect_password; wiped = opened.private_key ∷ key ∷ [] }
      ]
      else record {
        result = ok (record { key = key; rebound = none });
        wiped = opened.private_key ∷ [];
      }

  unfoldable pub unlock : Bytes → Text → PrivateKeyOwner → Option UserVaultMaterial → Attempt
  unlock fresh password owner material = elim (derived_key password material) [
    | err e ↦ record { result = err e; wiped = [] }
    | ok (m, key) ↦ elim (open_user_private_key sodium m key owner) [
      | err _ ↦ record { result = err incorrect_password; wiped = key ∷ [] }
      | ok opened ↦ verified fresh owner key opened
    ]
  ]
