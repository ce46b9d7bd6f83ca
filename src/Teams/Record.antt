-- ===== src/Teams/Record.antt =====
-- apps/client/src/features/teams/rotate-record.ts: a shared record under a new team key. The record's
-- type is an argument; the plaintext buffers, which are zeroed, do not leave it.
pub mod Reading
use trominal.Shared.{
  Bool, true, false, Option, none, some, Text, Bytes, codes, text_eq, is_some, if◌then◌else◌, not,
}
use trominal.Shared.Results.{Result, ok, err, ◌>>=◌, ◌>>◌, require}
use trominal.Json.{Value, null, string, Fields, end, get}
use trominal.Json.Entries.{for_entries}
use trominal.Crypto.Sodium.{Sodium}
use trominal.Crypto.Envelope
use trominal.Vault.Records.{Resource, ai_settings, VaultRecord, record_ad, nonce_of, put_envelope}
use trominal.Vault.Rotation.{RotationError, thrown, re_encrypt_pair, strip_suffix}

pub data TeamRecordError : Type 0 where
  unexpected_record incomplete_record : TeamRecordError
  not_rotated : RotationError → TeamRecordError

abbrev pub failing : {A : Type 0} → Result RotationError A → Result TeamRecordError A
failing (ok a) = ok a
failing (err e) = err (not_rotated e)

abbrev pub is_ai_settings : Resource → Bool
is_ai_settings ai_settings = true
is_ai_settings _ = false

abbrev pub is_team : Option Value → Text → Bool
is_team (some (string id)) team_id = text_eq id team_id
is_team _ team_id = false

-- Nothing to do if both are `null` or missing; otherwise both must be strings.
abbrev pub pair_of : Value → Option Value → Result TeamRecordError (Option (Text × Text))
pair_of (string ct) (some (string n)) = ok (some (ct, n))
pair_of null none = ok none
pair_of null (some null) = ok none
pair_of _ _ = err incomplete_record

pub record Rotated : Type 0 where
  pub fields : Fields
  pub original_fields : Fields

pub record TeamReencryptedResource : Type 0 where
  pub resource : Resource
  pub id : Text
  pub original_fields : Fields
  pub fields : Fields

abbrev pub is_nullish : Value → Bool
is_nullish null = true
is_nullish _ = false

-- The last loop: a nonce that belongs to no ciphertext.
abbrev pub check_nonce : Fields → Text → Value → Unit {0} → Result TeamRecordError (Unit {0})
check_nonce original column value _ = elim (strip_suffix (codes "_nonce") column) [
  | none ↦ ok tt
  | some base ↦
      if is_nullish value then ok tt else require (is_some (get column original)) incomplete_record
]

module _ (sodium : Sodium) (old_key new_key : Bytes) (fresh : Text → Bytes) (ad : Text) where
  abbrev pub rotate_pair : Text → Option (Text × Text) → Rotated → Result TeamRecordError Rotated
  rotate_pair base none s = ok s
  rotate_pair base (some (ct, n)) s = do
    fields ← failing (re_encrypt_pair sodium old_key new_key fresh ad base ct (some n) s.fields)
    ok (record {
      fields = fields;
      original_fields = put_envelope base (string ct) (string n) s.original_fields;
    })

  abbrev pub rotate_based : Fields → Option Text → Value → Rotated → Result TeamRecordError Rotated
  rotate_based columns none value s = ok s
  rotate_based columns (some base) value s = do
    pair ← pair_of value (get (nonce_of base) columns)
    rotate_pair base pair s

  abbrev pub rotate_column : Fields → Text → Value → Rotated → Result TeamRecordError Rotated
  rotate_column columns column value s =
      rotate_based columns (strip_suffix (codes "_ciphertext") column) value s

unfoldable pub rotate_team_record :
    Sodium
    → Resource
    → VaultRecord
    → Text
    → Bytes
    → Bytes
    → (Text → Bytes)
    → Result TeamRecordError TeamReencryptedResource
rotate_team_record sodium resource row team_id old_key new_key fresh = do
  require (is_team (get (codes "team_id") row.columns) team_id) unexpected_record
  require (not (is_ai_settings resource)) unexpected_record
  ad ← failing (thrown (record_ad row resource))
  rotated ←
      for_entries (rotate_column sodium old_key new_key fresh ad row.columns) row.columns
        (record { fields = end; original_fields = end })
  for_entries (check_nonce rotated.original_fields) row.columns tt
  ok (record {
    resource = resource;
    id = row.id;
    original_fields = rotated.original_fields;
    fields = rotated.fields;
  })
