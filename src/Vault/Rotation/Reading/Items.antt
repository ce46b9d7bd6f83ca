-- ===== src/Vault/Rotation/Reading/Items.antt =====
-- A record that was encrypted again, as an item (apps/client/src/features/vault/rotation.ts).
use trominal.Shared.{some, Text, Bytes, length, ◌≡◌, refl, codes, Distinct}
use trominal.Shared.Results.{ok, ◌>>=◌, require-eq-ok, >>=-eq-ok}
use trominal.Json.{end, get, keys}
use trominal.Crypto.Sodium.{Sodium, IsCodec, IsCorrect}
use trominal.Vault.Records.{Resource, VaultRecord, relation_of, personal_record_ad, ciphertext_of}
use trominal.Vault.Rotation.{
  thrown, MasterPasswordChangeItem, is_personal, team_record, re_encrypt_columns, re_encrypt_record,
}
use trominal.Vault.Rotation.Reading.{ReadsTheSame, re_encrypt_columns-reads, thrown-eq-ok}

module _ (sodium : Sodium) (codec : IsCodec sodium) (correct : IsCorrect sodium) where
  -- A record that is encrypted again keeps its id and its update time, and each of its encrypted fields
  -- opens under the new key, with the same associated data, to what it opened to under the old one.
  pub re_encrypt_record-reads :
      (resource : Resource) (row : VaultRecord) (current new : Bytes) (fresh : Text → Bytes)
      (base ct : Text) {item : MasterPasswordChangeItem}
      → ((base : Text) → length (fresh base) ≡ 24)
      → Distinct (keys row.columns)
      → relation_of (get (ciphertext_of base) row.columns) ≡ some ct
      → re_encrypt_record sodium resource row current new fresh ≡ ok item
      → (item.resource ≡ resource)
        × (item.id ≡ row.id)
        × (item.updated_at ≡ row.updated_at)
        × ((ad : Text) × (personal_record_ad resource row.id ≡ ok ad)
            × ReadsTheSame sodium current new fresh ad row.columns base ct item.fields)
  unfolding re_encrypt_record
  re_encrypt_record-reads resource row current new fresh base ct {item} sized distinct found h =
      let (personal, h) =
        require-eq-ok (is_personal (get (codes "team_id") row.columns)) team_record
          (thrown (personal_record_ad resource row.id) >>= λ ad.
            re_encrypt_columns sodium current new fresh ad row.columns row.columns end >>= λ fields.
            ok (record {
              resource = resource;
              id = row.id;
              updated_at = row.updated_at;
              fields = fields;
            }))
          h in
      let (ad, made, h) =
        >>=-eq-ok (thrown (personal_record_ad resource row.id))
          (λ ad.
            re_encrypt_columns sodium current new fresh ad row.columns row.columns end >>= λ fields.
            ok (record {
              resource = resource;
              id = row.id;
              updated_at = row.updated_at;
              fields = fields;
            }))
          h in
      let (fields, columns, done) =
        >>=-eq-ok (re_encrypt_columns sodium current new fresh ad row.columns row.columns end)
          (λ fields. ok (record {
            resource = resource;
            id = row.id;
            updated_at = row.updated_at;
            fields = fields;
          }))
          h in
      let same : item ≡ record {
        resource = resource;
        id = row.id;
        updated_at = row.updated_at;
        fields = fields;
      } =
        cc done in
      let reads =
        re_encrypt_columns-reads sodium current new fresh ad codec correct sized row.columns
          row.columns end base ct distinct found columns in
      rw same (refl, refl, refl, (ad, thrown-eq-ok _ _ made, reads))
