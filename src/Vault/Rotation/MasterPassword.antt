-- ===== src/Vault/Rotation/MasterPassword.antt =====
-- apps/client/src/features/vault/rotation.ts: `rotateMasterPassword`. The calls to the server and the
-- random bytes are parameters; the buffers that the `finally` block zeroes come back with the result.
pub mod Settling
pub mod Unlocking
pub mod Records
mod Tests
use trominal.Shared.{
  ℕ, ◌&&◌, List, [], ◌∷◌, ◌++◌, Option, none, some, Text, Bytes, length, if◌then◌else◌,
}
use trominal.Shared.Results.{Result, ok, err, ◌>>=◌, or_throw}
use trominal.Json.{object, Fields, as_object}
use trominal.Crypto.Sodium.{Sodium}
use trominal.Crypto.KdfParams
use trominal.Crypto.KdfParams.{Argon2id, is_kdf_params, derive_vault_key, as_kdf_params}
use trominal.Crypto.Envelope.{Envelope}
use trominal.Session.VaultStore.{UserVaultMaterial}
use trominal.Vault.Records.{
  Resource, groups, hosts, host_credentials, snippets, identities, tunnels, ai_settings,
  VaultRecord, RecordResult,
}
use trominal.Vault.PrivateKey.{
  PrivateKeyOwner, OpenedPrivateKey, open_user_private_key, seal_user_private_key,
}
use trominal.Vault.Rotation.{RotationError, MasterPasswordChangeItem, thrown, re_encrypt_record}

abbrev pub rotated_resource_types : List Resource
rotated_resource_types =
    groups ∷ hosts ∷ host_credentials ∷ snippets ∷ identities ∷ tunnels ∷ ai_settings ∷ []

pub record MasterPasswordChangeRequest : Type 0 where
  pub vault_version : ℕ
  pub current_password : Text
  pub two_factor_code : Option Text
  pub current_refresh_token : Text
  pub new_kdf_salt : Text
  pub new_kdf_params : Fields
  pub private_key_ciphertext : Text
  pub private_key_nonce : Text
  pub items : List MasterPasswordChangeItem

pub record MasterPasswordChangeResponse : Type 0 where
  pub vault : UserVaultMaterial
  pub vault_version : ℕ

-- `none` where the request throws.
pub record RotationApi : Type 0 where
  pub list_vault_records : Resource → Option (List VaultRecord)
  pub change_master_password : MasterPasswordChangeRequest → Option MasterPasswordChangeResponse

-- The random bytes: the salt, and the nonces of the private key and of each field of each record.
pub record Fresh : Type 0 where
  pub salt : Bytes
  pub private_key_nonce : Bytes
  pub field_nonce : Resource → Text → Text → Bytes

-- `params` is the caller's object, or the default one.
pub record RotateMasterPasswordInput : Type 0 where
  pub owner : PrivateKeyOwner
  pub material : UserVaultMaterial
  pub vault_version : ℕ
  pub current_master_password : Text
  pub new_master_password : Text
  pub current_password : Text
  pub two_factor_code : Option Text
  pub refresh_token : Text
  pub params : Fields

pub data RotateError : Type 0 where
  unsupported_params invalid_salt incorrect_password api_failed : RotateError
  derivation_failed : KdfParams.Error → RotateError
  refused : RotationError → RotateError

pub record RotationResult : Type 0 where
  pub key : Bytes
  pub material : UserVaultMaterial
  pub vault_version : ℕ
  pub item_count : ℕ

pub record Rotation : Type 0 where
  pub result : Result RotateError RotationResult
  pub request : Option MasterPasswordChangeRequest
  pub wiped : List Bytes

abbrev pub derived : Result KdfParams.Error Bytes → Result RotateError Bytes
derived (ok key) = ok key
derived (err e) = err (derivation_failed e)

abbrev pub refusing : {A : Type 0} → Result RotationError A → Result RotateError A
refusing (ok a) = ok a
refusing (err e) = err (refused e)

-- A falsy code is left out.
abbrev pub given_code : Option Text → Option Text
given_code (some (c ∷ code)) = some (c ∷ code)
given_code _ = none

-- The result, and the `finally` block: the new key is zeroed unless it was handed over.
abbrev pub finished :
    (private_key current_key new_key : Bytes)
    → Option MasterPasswordChangeRequest
    → Result RotateError RotationResult
    → Rotation
finished private_key current_key new_key request (ok result) = record {
  result = ok result;
  request = request;
  wiped = private_key ∷ current_key ∷ [];
}
finished private_key current_key new_key request (err e) = record {
  result = err e;
  request = request;
  wiped = private_key ∷ current_key ∷ new_key ∷ [];
}

abbrev pub answered :
    Bytes
    → MasterPasswordChangeRequest
    → Option MasterPasswordChangeResponse
    → Result RotateError RotationResult
answered new_key request none = err api_failed
answered new_key request (some response) = ok (record {
  key = new_key;
  material = response.vault;
  vault_version = response.vault_version;
  item_count = length request.items;
})

module _ (sodium : Sodium) (pwhash : Argon2id) (api : RotationApi) (fresh : Fresh)
    (input : RotateMasterPasswordInput) where
  unfoldable pub re_encrypt_list :
      Resource
      → (current_key new_key : Bytes) → List VaultRecord
      → Result RotateError (List MasterPasswordChangeItem)
  re_encrypt_list resource current_key new_key [] = ok []
  re_encrypt_list resource current_key new_key (row ∷ rows) = do
    item ← refusing (
        re_encrypt_record sodium resource row current_key new_key
          (fresh.field_nonce resource row.id))
    items ← re_encrypt_list resource current_key new_key rows
    ok (item ∷ items)

  unfoldable pub re_encrypt_all :
      (current_key new_key : Bytes)
      → List Resource
      → Result RotateError (List MasterPasswordChangeItem)
  unfolding re_encrypt_list
  re_encrypt_all current_key new_key [] = ok []
  re_encrypt_all current_key new_key (resource ∷ resources) = do
    rows ← or_throw (api.list_vault_records resource) api_failed
    items ← re_encrypt_list resource current_key new_key rows
    rest ← re_encrypt_all current_key new_key resources
    ok (items ++ rest)

  abbrev pub request_of : Envelope → List MasterPasswordChangeItem → MasterPasswordChangeRequest
  request_of canary items = record {
    vault_version = input.vault_version;
    current_password = input.current_password;
    two_factor_code = given_code input.two_factor_code;
    current_refresh_token = input.refresh_token;
    new_kdf_salt = sodium.to_base64 fresh.salt;
    new_kdf_params = input.params;
    private_key_ciphertext = canary.ct;
    private_key_nonce = canary.n;
    items = items;
  }

  abbrev pub prepared :
      (private_key current_key new_key : Bytes) → Result RotateError MasterPasswordChangeRequest
  prepared private_key current_key new_key = do
    items ← re_encrypt_all current_key new_key rotated_resource_types
    canary ← refusing (
        thrown
          (seal_user_private_key sodium fresh.private_key_nonce private_key new_key input.owner.id))
    ok (request_of canary items)

  abbrev pub submitted :
      (private_key current_key new_key : Bytes)
      → Result RotateError MasterPasswordChangeRequest
      → Rotation
  submitted private_key current_key new_key (err e) =
      finished private_key current_key new_key none (err e)
  submitted private_key current_key new_key (ok request) =
      finished private_key current_key new_key (some request)
        (answered new_key request (api.change_master_password request))

  abbrev pub with_new_key : (private_key current_key : Bytes) → Result RotateError Bytes → Rotation
  with_new_key private_key current_key (err e) = record {
    result = err e;
    request = none;
    wiped = private_key ∷ current_key ∷ [];
  }
  with_new_key private_key current_key (ok new_key) =
      submitted private_key current_key new_key (prepared private_key current_key new_key)

  abbrev pub new_key : Result RotateError Bytes
  new_key =
      derived
        (derive_vault_key pwhash input.new_master_password fresh.salt (as_kdf_params input.params))

  abbrev pub with_private_key : Bytes → RecordResult OpenedPrivateKey → Rotation
  with_private_key current_key (err e) = record {
    result = err incorrect_password;
    request = none;
    wiped = current_key ∷ [];
  }
  with_private_key current_key (ok opened) = with_new_key opened.private_key current_key new_key

  abbrev pub with_current_key : Result RotateError Bytes → Rotation
  with_current_key (err e) = record { result = err e; request = none; wiped = [] }
  with_current_key (ok current_key) =
      with_private_key current_key
        (open_user_private_key sodium input.material current_key input.owner)

  abbrev pub current_key : Result RotateError Bytes
  current_key = do
    params ← or_throw (as_object input.material.kdf_params) unsupported_params
    salt ← or_throw (sodium.from_base64 input.material.kdf_salt) invalid_salt
    derived (derive_vault_key pwhash input.current_master_password salt (as_kdf_params params))

  unfoldable pub rotate_master_password : Rotation
  rotate_master_password =
      if is_kdf_params input.material.kdf_params && is_kdf_params (object input.params)
      then with_current_key current_key
      else record { result = err unsupported_params; request = none; wiped = [] }
