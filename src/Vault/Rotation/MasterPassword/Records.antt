-- ===== src/Vault/Rotation/MasterPassword/Records.antt =====
-- The records in a change of the master password (apps/client/src/features/vault/rotation.ts).
use trominal.Shared.{
  In-append_left, In-append_right, List, [], ◌∷◌, ◌++◌, Option, none, some, Text, Bytes, length,
  ◌≡◌, inl, inr, refl, sym, In, Distinct, subst,
}
use trominal.Shared.Results.{Result, ok, err, ◌>>=◌, or_throw, >>=-eq-ok}
use trominal.Json.{get, keys}
use trominal.Crypto.Sodium.{Sodium, IsCodec, IsCorrect}
use trominal.Crypto.KdfParams.{Argon2id}
use trominal.Vault.Records.{
  Resource, groups, hosts, host_credentials, snippets, identities, tunnels, ai_settings,
  VaultRecord, relation_of, personal_record_ad, ciphertext_of,
}
use trominal.Vault.Rotation.{RotationError, MasterPasswordChangeItem, re_encrypt_record}
use trominal.Vault.Rotation.Reading.{ReadsTheSame}
use trominal.Vault.Rotation.MasterPassword.{
  MasterPasswordChangeRequest, RotationApi, Fresh, RotateMasterPasswordInput, refusing,
  re_encrypt_list, re_encrypt_all, new_key, current_key, rotate_master_password,
  rotated_resource_types, api_failed,
}
use trominal.Vault.Rotation.MasterPassword.Unlocking.{prepared-canary, rotate_master_password-Sent}
use trominal.Vault.Rotation.Reading.Items.{re_encrypt_record-reads}

every_type : (resource : Resource) → In resource rotated_resource_types
every_type groups = inl refl
every_type hosts = inr (inl refl)
every_type host_credentials = inr (inr (inl refl))
every_type snippets = inr (inr (inr (inl refl)))
every_type identities = inr (inr (inr (inr (inl refl))))
every_type tunnels = inr (inr (inr (inr (inr (inl refl)))))
every_type ai_settings = inr (inr (inr (inr (inr (inr (inl refl))))))

refusing-eq-ok : {A : Type 0} (r : Result RotationError A) {a : A} → refusing r ≡ ok a → r ≡ ok a
refusing-eq-ok (ok b) h = cc h
refusing-eq-ok (err e) h = absurd (cc h)

or_throw-eq-ok : {E A : Type 0} (r : Option A) (e : E) {a : A} → or_throw r e ≡ ok a → r ≡ some a
or_throw-eq-ok (some b) e h = cc h
or_throw-eq-ok none e h = absurd (cc h)

module _ (sodium : Sodium) (pwhash : Argon2id) (api : RotationApi) (fresh : Fresh)
    (input : RotateMasterPasswordInput) where
  -- An item that was made from this record.
  abbrev pub MadeFrom :
      Resource → VaultRecord → (current new : Bytes) → List MasterPasswordChangeItem → Type 0
  MadeFrom resource row current new items =
      (item : MasterPasswordChangeItem) × In item items
      × (re_encrypt_record sodium resource row current new (fresh.field_nonce resource row.id)
          ≡ ok item)

  re_encrypt_list-MadeFrom :
      (resource : Resource) (current new : Bytes) (rows : List VaultRecord) (row : VaultRecord)
      {items : List MasterPasswordChangeItem}
      → In row rows
      → re_encrypt_list sodium pwhash api fresh input resource current new rows ≡ ok items
      → MadeFrom resource row current new items
  unfolding re_encrypt_list
  re_encrypt_list-MadeFrom resource current new [] row i h = absurd i
  re_encrypt_list-MadeFrom resource current new (first ∷ rows) row {items} i h =
      let (item, made, h) =
        >>=-eq-ok
          (refusing (
            re_encrypt_record sodium resource first current new
              (fresh.field_nonce resource first.id)))
          (λ item.
            re_encrypt_list sodium pwhash api fresh input resource current new rows >>= λ rest.
            ok (item ∷ rest))
          h in
      let (rest, later, done) =
        >>=-eq-ok (re_encrypt_list sodium pwhash api fresh input resource current new rows)
          (λ rest. ok (item ∷ rest)) h in
      let same : items ≡ item ∷ rest = cc done in
      elim i [
        | inl e ↦ rw same (
          item,
          inl refl,
          subst
              (λ (r : VaultRecord).
                re_encrypt_record sodium resource r current new (fresh.field_nonce resource r.id)
                ≡ ok item)
              e (refusing-eq-ok _ made),
        )
        | inr i ↦
            let (found, at_, from) =
              re_encrypt_list-MadeFrom resource current new rows row i later in
            rw same (found, inr at_, from)
      ]

  re_encrypt_all-MadeFrom :
      (resource : Resource) (current new : Bytes) (resources : List Resource)
      (rows : List VaultRecord) (row : VaultRecord) {items : List MasterPasswordChangeItem}
      → In resource resources
      → api.list_vault_records resource ≡ some rows
      → In row rows
      → re_encrypt_all sodium pwhash api fresh input current new resources ≡ ok items
      → MadeFrom resource row current new items
  unfolding re_encrypt_all
  re_encrypt_all-MadeFrom resource current new [] rows row r l i h = absurd r
  re_encrypt_all-MadeFrom resource current new (first ∷ resources) rows row {items} r l i h =
      let (listed, got, h) =
        >>=-eq-ok (or_throw (api.list_vault_records first) api_failed)
          (λ listed.
            re_encrypt_list sodium pwhash api fresh input first current new listed >>= λ made.
            re_encrypt_all sodium pwhash api fresh input current new resources >>= λ rest.
            ok (made ++ rest))
          h in
      let (made, here, h) =
        >>=-eq-ok (re_encrypt_list sodium pwhash api fresh input first current new listed)
          (λ made. re_encrypt_all sodium pwhash api fresh input current new resources >>= λ rest.
            ok (made ++ rest))
          h in
      let (rest, later, done) =
        >>=-eq-ok (re_encrypt_all sodium pwhash api fresh input current new resources)
          (λ rest. ok (made ++ rest)) h in
      let same : items ≡ made ++ rest = cc done in
      elim r [
        | inl e ↦
            let rows_same : listed ≡ rows = cc (
              or_throw-eq-ok (api.list_vault_records first) api_failed got,
              subst (λ t. api.list_vault_records t ≡ some rows) (sym e) l,
            ) in
            let (item, place, from) =
              re_encrypt_list-MadeFrom first current new listed row
                (subst (λ rs. In row rs) (sym rows_same) i) here in
            rw same (
              item,
              In-append_left item made rest place,
              subst
                  (λ t.
                    re_encrypt_record sodium t row current new (fresh.field_nonce t row.id)
                    ≡ ok item)
                  e from,
            )
        | inr r ↦
            let (item, place, from) =
              re_encrypt_all-MadeFrom resource current new resources rows row r l i later in
            rw same (item, In-append_right item made rest place, from)
      ]

  module _ (codec : IsCodec sodium) (correct : IsCorrect sodium)
      (sized : (resource : Resource) (id base : Text)
        → length (fresh.field_nonce resource id base) ≡ 24) where
    -- If a change of the master password gets as far as the request, it has an item for every record
    -- of every collection that the server listed, with its id and update time, and each encrypted field
    -- of the item opens under the new key to what the record's field opens to under the current key, if
    -- the properties of the record are distinct and nonces have 24 bytes.
    pub rotate_master_password-reads :
        {request : MasterPasswordChangeRequest} (resource : Resource) (rows : List VaultRecord)
        (row : VaultRecord) (base ct : Text)
        → (rotate_master_password sodium pwhash api fresh input).request ≡ some request
        → api.list_vault_records resource ≡ some rows
        → In row rows
        → Distinct (keys row.columns)
        → relation_of (get (ciphertext_of base) row.columns) ≡ some ct
        → (current : Bytes) × (new : Bytes) × (item : MasterPasswordChangeItem) × (ad : Text)
          × (current_key sodium pwhash api fresh input ≡ ok current)
          × (new_key sodium pwhash api fresh input ≡ ok new)
          × In item request.items
          × (item.resource ≡ resource)
          × (item.id ≡ row.id)
          × (item.updated_at ≡ row.updated_at)
          × (personal_record_ad resource row.id ≡ ok ad)
          × ReadsTheSame sodium current new
              (fresh.field_nonce resource row.id)
              ad
              row.columns
              base
              ct
              item.fields
    rotate_master_password-reads {request} resource rows row base ct h l i distinct found =
        let (_, (current, new, opened, c, o, n, built)) =
          rotate_master_password-Sent sodium pwhash api fresh input h in
        let (canary, items, sealed, all, done) =
          prepared-canary sodium pwhash api fresh input opened.private_key current new built in
        let (item, place, from) =
          re_encrypt_all-MadeFrom resource current new rotated_resource_types rows row
            (every_type resource) l i all in
        let (same_resource, same_id, same_time, (ad, made, reads)) =
          re_encrypt_record-reads sodium codec correct resource row current new
            (fresh.field_nonce resource row.id) base ct (sized resource row.id) distinct found
            from in
        (
          current,
          new,
          item,
          ad,
          c,
          n,
          rw done place,
          same_resource,
          same_id,
          same_time,
          made,
          reads,
        )
