-- ===== src/Vault/Records.antt =====
-- apps/client/src/features/vault/model.ts: the encrypted fields of a vault record. A record is its id
-- and its update time, with the other properties in `columns`; a payload is an object that is built.
pub mod Binding
pub mod RoundTrip
pub mod Credentials
mod Tests
use trominal.Shared.{
  Bool, false, ◌&&◌, [], ◌∷◌, ◌++◌, Option, none, some, Text, Bytes, codes, text_eq, trim,
  if◌then◌else◌,
}
use trominal.Shared.Results.{Result, ok, ◌>>=◌, ◌>>◌}
use trominal.Json.{Number, nat, Value, null, boolean, number, string, Fields, get, put}
use trominal.Crypto.Sodium.{Sodium}
use trominal.Crypto.Envelope
use trominal.Crypto.Envelope.{Envelope, make_ad, encrypt, decrypt_to_string}

pub data Resource : Type 0 where
  groups hosts host_credentials snippets identities tunnels ai_settings : Resource

abbrev pub ad_resource : Resource → Text
ad_resource groups = codes "group"
ad_resource hosts = codes "host"
ad_resource host_credentials = codes "host_credential"
ad_resource snippets = codes "snippet"
ad_resource identities = codes "identity"
ad_resource tunnels = codes "tunnel"
ad_resource ai_settings = codes "ai_setting"

pub record VaultRecord : Type 0 where
  pub id : Text
  pub updated_at : Option Text
  pub columns : Fields

abbrev pub string_of : Option Value → Option Text
string_of (some (string s)) = some s
string_of _ = none

unfoldable pub string_field : VaultRecord → Text → Option Text
string_field row name = string_of (get name row.columns)

abbrev boolean_of : Option Value → Bool
boolean_of (some (boolean b)) = b
boolean_of _ = false

unfoldable pub boolean_field : VaultRecord → Text → Bool
boolean_field row name = boolean_of (get name row.columns)

abbrev number_of : Option Value → Number
number_of (some (number n)) = n
number_of _ = nat 0

unfoldable pub number_field : VaultRecord → Text → Number
number_field row name = number_of (get name row.columns)

abbrev pub relation_of : Option Value → Option Text
relation_of (some (string (c ∷ s))) = some (c ∷ s)
relation_of _ = none

unfoldable pub relation_field : VaultRecord → Text → Option Text
relation_field row name = relation_of (get name row.columns)

abbrev pub RecordResult : Type 0 → Type 0
RecordResult = Result Envelope.Error

unfoldable pub personal_record_ad : Resource → Text → RecordResult Text
personal_record_ad resource id = make_ad (ad_resource resource) id

-- `team_${…}` and `${id}:${teamId}`
unfoldable pub team_record_ad : Resource → Text → Text → RecordResult Text
team_record_ad resource id team_id =
    make_ad (codes "team_" ++ ad_resource resource) (id ++ (b':' ∷ team_id))

abbrev pub scoped_ad : Resource → Text → Option Text → RecordResult Text
scoped_ad resource id none = personal_record_ad resource id
scoped_ad resource id (some team_id) = team_record_ad resource id team_id

unfoldable pub record_ad : VaultRecord → Resource → RecordResult Text
unfolding relation_field
record_ad row resource = scoped_ad resource row.id (relation_field row (codes "team_id"))

abbrev pub ciphertext_of : Text → Text
ciphertext_of name = name ++ codes "_ciphertext"

abbrev pub nonce_of : Text → Text
nonce_of name = name ++ codes "_nonce"

abbrev pub is_blank : Text → Bool
is_blank value = text_eq (trim value) []

abbrev pub put_envelope : Text → Value → Value → Fields → Fields
put_envelope name ct n payload = put (nonce_of name) n (put (ciphertext_of name) ct payload)

module _ (sodium : Sodium) where
  abbrev pub open_text :
      VaultRecord → Bytes → Resource → Option Text → Option Text → RecordResult Text
  open_text row key resource (some ct) (some nonce) = do
    ad ← record_ad row resource
    decrypt_to_string sodium (record { v = 1; ct = ct; n = nonce }) key ad
  open_text row key resource _ _ = ok []

  unfoldable pub decrypt_text : VaultRecord → Bytes → Resource → Text → RecordResult Text
  unfolding string_field
  decrypt_text row key resource name =
      open_text row key resource (string_field row (ciphertext_of name))
        (string_field row (nonce_of name))

  -- `fresh` is the nonce that `encrypt` generates.
  abbrev pub seal_text :
      Bytes → Fields → Bytes → Resource → Text → Text → Text → RecordResult Fields
  seal_text fresh payload key resource id name value = do
    ad ← scoped_ad resource id (string_of (get (codes "team_id") payload))
    envelope ← encrypt sodium (sodium.utf8_encode value) key ad fresh
    ok (put_envelope name (string envelope.ct) (string envelope.n) payload)

  unfoldable pub encrypt_text :
      Bytes → Fields → Bytes → Resource → Text → Text → Text → Bool → RecordResult Fields
  encrypt_text fresh payload key resource id name value nullable =
      if nullable && is_blank value
      then ok (put_envelope name null null payload)
      else seal_text fresh payload key resource id name value
