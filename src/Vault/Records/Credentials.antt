-- ===== src/Vault/Records/Credentials.antt =====
-- Host credentials and identities of apps/client/src/features/vault/model.ts: the inputs of the
-- forms as payloads, and the records as items. `fresh` gives the nonce of each field.
pub mod RoundTrip
use trominal.Shared.{true, false, ◌∷◌, Option, none, some, Text, Bytes, codes, get_or_else}
use trominal.Shared.Results.{ok, ◌>>=◌, ◌>>◌}
use trominal.Json.{Value, null, string, Fields, field, end}
use trominal.Crypto.Sodium.{Sodium}
use trominal.Vault.Records.{
  host_credentials, identities, VaultRecord, RecordResult, relation_field, string_field,
  encrypt_text, decrypt_text,
}

pub record HostCredentialInput : Type 0 where
  pub host_id : Option Text
  pub identity_id : Option Text
  pub label : Text
  pub username : Text
  pub password : Text
  pub private_key_passphrase : Text

pub record HostCredentialItem : Type 0 where
  pub id : Text
  pub team_id : Option Text
  pub host_id : Option Text
  pub identity_id : Option Text
  pub label : Text
  pub username : Text
  pub password : Text
  pub private_key_passphrase : Text
  pub updated_at : Option Text

pub record IdentityInput : Type 0 where
  pub name : Text
  pub key_type : Text
  pub public_key : Text
  pub private_key : Text

pub record IdentityItem : Type 0 where
  pub id : Text
  pub team_id : Option Text
  pub name : Text
  pub key_type : Text
  pub public_key : Text
  pub private_key : Text
  pub updated_at : Option Text

abbrev pub nullable_string : Option Text → Value
nullable_string none = null
nullable_string (some s) = string s

-- `...(teamId ? { team_id: teamId } : {})`
abbrev pub team_field : Option Text → Fields
team_field (some (c ∷ team_id)) = field (codes "team_id") (string (c ∷ team_id)) end
team_field _ = end

abbrev pub credential_start : Text → HostCredentialInput → Option Text → Fields
credential_start id input team_id = field (codes "id") (string id) (
    field (codes "host_id") (nullable_string input.host_id)
      (field (codes "identity_id") (nullable_string input.identity_id) (team_field team_id)))

abbrev pub identity_start : Text → IdentityInput → Option Text → Fields
identity_start id input team_id =
    field (codes "id") (string id)
      (field (codes "key_type") (string input.key_type) (team_field team_id))

module _ (sodium : Sodium) where
  unfoldable pub encrypt_host_credential_input :
      (Text → Bytes) → Text → Bytes → HostCredentialInput → Option Text → RecordResult Fields
  encrypt_host_credential_input fresh id key input team_id = do
    with_label ←
        encrypt_text sodium (fresh (codes "label")) (credential_start id input team_id) key
          host_credentials id (codes "label") input.label false
    with_username ←
        encrypt_text sodium (fresh (codes "username")) with_label key host_credentials id
          (codes "username") input.username true
    with_password ←
        encrypt_text sodium (fresh (codes "password")) with_username key host_credentials id
          (codes "password") input.password true
    encrypt_text sodium (fresh (codes "private_key_passphrase")) with_password key host_credentials
        id (codes "private_key_passphrase") input.private_key_passphrase true

  unfoldable pub decrypt_host_credential : VaultRecord → Bytes → RecordResult HostCredentialItem
  decrypt_host_credential row key = do
    label ← decrypt_text sodium row key host_credentials (codes "label")
    username ← decrypt_text sodium row key host_credentials (codes "username")
    password ← decrypt_text sodium row key host_credentials (codes "password")
    passphrase ← decrypt_text sodium row key host_credentials (codes "private_key_passphrase")
    ok (record {
      id = row.id;
      team_id = relation_field row (codes "team_id");
      host_id = relation_field row (codes "host_id");
      identity_id = relation_field row (codes "identity_id");
      label = label;
      username = username;
      password = password;
      private_key_passphrase = passphrase;
      updated_at = row.updated_at;
    })

  unfoldable pub encrypt_identity_input :
      (Text → Bytes) → Text → Bytes → IdentityInput → Option Text → RecordResult Fields
  encrypt_identity_input fresh id key input team_id = do
    with_name ←
        encrypt_text sodium (fresh (codes "name")) (identity_start id input team_id) key identities
          id (codes "name") input.name false
    with_public_key ←
        encrypt_text sodium (fresh (codes "public_key")) with_name key identities id
          (codes "public_key") input.public_key true
    encrypt_text sodium (fresh (codes "private_key")) with_public_key key identities id
        (codes "private_key") input.private_key false

  unfoldable pub decrypt_identity : VaultRecord → Bytes → RecordResult IdentityItem
  decrypt_identity row key = do
    name ← decrypt_text sodium row key identities (codes "name")
    public_key ← decrypt_text sodium row key identities (codes "public_key")
    private_key ← decrypt_text sodium row key identities (codes "private_key")
    ok (record {
      id = row.id;
      team_id = relation_field row (codes "team_id");
      name = name;
      key_type = get_or_else (string_field row (codes "key_type")) (codes "ed25519");
      public_key = public_key;
      private_key = private_key;
      updated_at = row.updated_at;
    })
