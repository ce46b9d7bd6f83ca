-- ===== src/Teams/Removal/Records.antt =====
-- The shared records when a member is removed (apps/client/src/features/teams/remove-member.ts).
use trominal.Shared.{
  In-append_left, In-append_right, true, ℕ, Bool, List, [], ◌∷◌, some, Text, Bytes, codes, length,
  ◌≡◌, refl, sym, subst, inl, inr, In, Distinct,
}
use trominal.Shared.Results.{Result, ok, err}
use trominal.Json.{string, get, keys}
use trominal.Crypto.Sodium.{Sodium, IsCodec, IsCorrect}
use trominal.Vault.Records.{Resource, VaultRecord, ciphertext_of, record_ad}
use trominal.Teams.Checks.{Did}
use trominal.Teams.Checks.Results.{
  Ensures, bind-Ensures, pure-Ensures, lift-Ensures, from_option-Ensures, any-Ensures,
}
use trominal.Teams.Record.{TeamRecordError, TeamReencryptedResource, is_team, rotate_team_record}
use trominal.Teams.Record.Reading.{IsCarriedOver, rotate_team_record-reads}
use trominal.Teams.Removal.{
  resources, RemoveTeamMemberRequest, RemovalApi, Fresh, api_failed, record_step, checked,
  wrap_members, rotate_records, rotate_all, remove_member_with_rotation,
}
use trominal.Teams.Removal.Sending.{remove_member_with_rotation-Sent}
use trominal.Teams.Removal.Members.{prepare-Ensures}

record_step-eq-ok :
    {A : Type 0} (r : Result TeamRecordError A) {a : A} → record_step r ≡ ok a → r ≡ ok a
record_step-eq-ok (ok b) h = cc h
record_step-eq-ok (err e) h = absurd (cc h)

module _ (sodium : Sodium) (api : RemovalApi) (fresh : Fresh) (current : ℕ → Bool)
    (team_id member_id : Text) (version : ℕ) (old_key : Bytes) where
  passes :
      Ensures (λ _. Unit {0}) (checked sodium api fresh current team_id member_id version old_key)
  passes = any-Ensures (checked sodium api fresh current team_id member_id version old_key)

  unfoldable rotated : Resource × VaultRecord → Result TeamRecordError TeamReencryptedResource
  rotated (resource, row) =
      rotate_team_record sodium resource row team_id old_key fresh.team_key
        (fresh.field_nonce resource row.id)

  -- An item that was made from this record.
  abbrev MadeFrom : Resource × VaultRecord → List TeamReencryptedResource → Type 0
  MadeFrom entry items =
      (item : TeamReencryptedResource) × In item items × (rotated entry ≡ ok item)

  rotate_records-MadeFrom :
      (rows : List (Resource × VaultRecord)) (entry : Resource × VaultRecord)
      → In entry rows
      → Ensures
          (MadeFrom entry)
          (rotate_records sodium api fresh current team_id member_id version old_key rows)
  unfolding rotate_records rotated
  rotate_records-MadeFrom [] entry i = absurd i
  rotate_records-MadeFrom ((resource, row) ∷ rows) entry (inl e) =
      bind-Ensures _ _ _ _ passes λ _ _.
        bind-Ensures _ _ _ _
          (lift-Ensures (
            record_step (
              rotate_team_record sodium resource row team_id old_key fresh.team_key
                (fresh.field_nonce resource row.id))))
          λ item made.
            bind-Ensures _ _ _ _
              (any-Ensures
                (rotate_records sodium api fresh current team_id member_id version old_key rows))
              λ items _.
                pure-Ensures _ _
                  (item, inl refl, subst (λ p. rotated p ≡ ok item) e (record_step-eq-ok _ made))
  rotate_records-MadeFrom ((resource, row) ∷ rows) entry (inr i) =
      bind-Ensures _ _ _ _ passes λ _ _.
        bind-Ensures _ _ _ _
          (lift-Ensures (
            record_step (
              rotate_team_record sodium resource row team_id old_key fresh.team_key
                (fresh.field_nonce resource row.id))))
          λ item _.
            bind-Ensures (MadeFrom entry) _ _ _ (rotate_records-MadeFrom rows entry i)
              λ items found. pure-Ensures _ _ (found.0, inr found.1, found.2)

  rotate_all-MadeFrom :
      (types : List Resource) (type : Resource) (rows : List (Resource × VaultRecord))
      (entry : Resource × VaultRecord)
      → In type types
      → api.list_vault_records type team_id ≡ some rows
      → In entry rows
      → Ensures
          (MadeFrom entry)
          (rotate_all sodium api fresh current team_id member_id version old_key types)
  unfolding rotate_all
  rotate_all-MadeFrom [] type rows entry t l i = absurd t
  rotate_all-MadeFrom (first ∷ types) type rows entry (inl e) l i =
      bind-Ensures _ _ _ _ passes λ _ _.
        bind-Ensures _ _ _ _ (from_option-Ensures (api.list_vault_records first team_id) api_failed)
          λ listed got.
            let same : rows ≡ listed =
              cc (got, subst (λ t. api.list_vault_records t team_id ≡ some rows) (sym e) l) in
            bind-Ensures (MadeFrom entry) _ _ _
              (rotate_records-MadeFrom listed entry (subst (λ r. In entry r) same i))
              λ items found.
                bind-Ensures _ _ _ _
                  (any-Ensures
                    (rotate_all sodium api fresh current team_id member_id version old_key types))
                  λ rest _.
                    pure-Ensures _ _ (found.0, In-append_left found.0 items rest found.1, found.2)
  rotate_all-MadeFrom (first ∷ types) type rows entry (inr t) l i =
      bind-Ensures _ _ _ _ passes λ _ _.
        bind-Ensures _ _ _ _ (from_option-Ensures (api.list_vault_records first team_id) api_failed)
          λ listed got.
            bind-Ensures _ _ _ _
              (any-Ensures
                (rotate_records sodium api fresh current team_id member_id version old_key listed))
              λ items _.
                bind-Ensures (MadeFrom entry) _ _ _
                  (rotate_all-MadeFrom types type rows entry t l i)
                  λ rest found.
                    pure-Ensures _ _ (found.0, In-append_right found.0 items rest found.1, found.2)

  module _ (codec : IsCodec sodium) (correct : IsCorrect sodium)
      (sized : (resource : Resource) (id base : Text)
        → length (fresh.field_nonce resource id base) ≡ 24) where
    -- If the removal of a member is sent, it has an item for every shared record of the six collections
    -- that the server listed, and each encrypted field of the item is sent as it was, beside a pair that
    -- opens under the new team key to what the old pair opens to under the old one.
    pub reencrypted_resources-reads :
        {request : Did RemoveTeamMemberRequest} (type resource : Resource)
        (rows : List (Resource × VaultRecord)) (row : VaultRecord) (base ct : Text)
        → (remove_member_with_rotation sodium api fresh current team_id member_id version
            old_key).request
          ≡ some request
        → In type resources
        → api.list_vault_records type team_id ≡ some rows
        → In (resource, row) rows
        → Distinct (keys row.columns)
        → get (ciphertext_of base) row.columns ≡ some (string ct)
        → (item : TeamReencryptedResource) × (ad : Text) × In item
            request.value.reencrypted_resources
          × (item.resource ≡ resource)
          × (item.id ≡ row.id)
          × (is_team (get (codes "team_id") row.columns) team_id ≡ true)
          × (record_ad row resource ≡ ok ad)
          × IsCarriedOver sodium old_key fresh.team_key
              (fresh.field_nonce resource row.id)
              ad
              row.columns
              base
              ct
              (record { fields = item.fields; original_fields = item.original_fields })
    unfolding rotated
    reencrypted_resources-reads {request} type resource rows row base ct h t l i distinct found =
        let (got, began, ended) =
          remove_member_with_rotation-Sent sodium api fresh current team_id member_id version
            old_key h in
        let (_, (item, place, made), _, _, _) =
          prepare-Ensures sodium api fresh current team_id member_id version old_key (λ _. Unit {0})
            (MadeFrom (resource, row)) got.value.0 got.value.1
            (any-Ensures
              (wrap_members sodium api fresh current team_id member_id version old_key got.value.1))
            (rotate_all-MadeFrom resources type rows (resource, row) t l i) got.calls request
            ended in
        let (same_resource, same_id, belongs, (ad, made_ad, carried)) =
          rotate_team_record-reads sodium codec correct resource row team_id old_key fresh.team_key
            (fresh.field_nonce resource row.id) base ct (sized resource row.id) distinct found
            made in
        (item, ad, place, same_resource, same_id, belongs, made_ad, carried)
