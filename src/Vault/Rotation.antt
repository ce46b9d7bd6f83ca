-- ===== src/Vault/Rotation.antt =====
-- apps/client/src/features/vault/rotation.ts: the records of a vault under a new key. The plaintext
-- buffers of `reEncryptRecord`, which it zeroes, do not leave it.
pub mod Reading
pub mod MasterPassword
use trominal.Shared.{
  ℕ, Bool, true, false, [], ◌∷◌, Option, none, some, Text, Bytes, codes, text_eq, if◌then◌else◌,
}
use trominal.Shared.Results.{Result, ok, err, ◌>>=◌, ◌>>◌, require}
use trominal.Json.{Value, null, string, Fields, end, field, get}
use trominal.Crypto.Sodium.{Sodium}
use trominal.Crypto.Envelope
use trominal.Crypto.Envelope.{Envelope, encrypt, decrypt}
use trominal.Vault.Records.{
  Resource, VaultRecord, RecordResult, relation_of, personal_record_ad, nonce_of, put_envelope,
}

abbrev prepend : ℕ → Option Text → Option Text
prepend c none = none
prepend c (some s) = some (c ∷ s)

-- `endsWith(suffix)`, with `slice(0, -suffix.length)` where it holds.
unfoldable pub strip_suffix : Text → Text → Option Text
strip_suffix suffix [] = if text_eq [] suffix then some [] else none
strip_suffix suffix (c ∷ s) =
    let rest = strip_suffix suffix s in if text_eq (c ∷ s) suffix then some [] else prepend c rest

pub data RotationError : Type 0 where
  team_record missing_nonce : RotationError
  crypto : Envelope.Error → RotationError

abbrev pub thrown : {A : Type 0} → RecordResult A → Result RotationError A
thrown (ok a) = ok a
thrown (err e) = err (crypto e)

-- `null`, `undefined` or the empty string
abbrev pub is_personal : Option Value → Bool
is_personal none = true
is_personal (some null) = true
is_personal (some (string [])) = true
is_personal _ = false

pub record MasterPasswordChangeItem : Type 0 where
  pub resource : Resource
  pub id : Text
  pub updated_at : Option Text
  pub fields : Fields

module _ (sodium : Sodium) (current_key new_key : Bytes) (fresh : Text → Bytes) (ad : Text) where
  -- `fresh base` is the nonce that `encrypt` generates for this field.
  abbrev pub re_encrypt_pair : Text → Text → Option Text → Fields → Result RotationError Fields
  re_encrypt_pair base ct none fields = err missing_nonce
  re_encrypt_pair base ct (some nonce) fields = do
    plaintext ← thrown (decrypt sodium (record { v = 1; ct = ct; n = nonce }) current_key ad)
    envelope ← thrown (encrypt sodium plaintext new_key ad (fresh base))
    ok (put_envelope base (string envelope.ct) (string envelope.n) fields)

  -- A column that is skipped leaves the fields as they are.
  abbrev pub re_encrypt_column :
      Fields → Option Text → Option Text → Fields → Result RotationError Fields
  re_encrypt_column columns (some base) (some ct) fields =
      re_encrypt_pair base ct (relation_of (get (nonce_of base) columns)) fields
  re_encrypt_column columns _ _ fields = ok fields

  unfoldable pub re_encrypt_columns : Fields → Fields → Fields → Result RotationError Fields
  re_encrypt_columns columns end fields = ok fields
  re_encrypt_columns columns (field column value entries) fields = do
    next ←
        re_encrypt_column columns (strip_suffix (codes "_ciphertext") column)
          (relation_of (some value)) fields
    re_encrypt_columns columns entries next

unfoldable pub re_encrypt_record :
    Sodium
    → Resource
    → VaultRecord
    → Bytes
    → Bytes
    → (Text → Bytes)
    → Result RotationError MasterPasswordChangeItem
re_encrypt_record sodium resource row current_key new_key fresh = do
  require (is_personal (get (codes "team_id") row.columns)) team_record
  ad ← thrown (personal_record_ad resource row.id)
  fields ← re_encrypt_columns sodium current_key new_key fresh ad row.columns row.columns end
  ok (record { resource = resource; id = row.id; updated_at = row.updated_at; fields = fields })
