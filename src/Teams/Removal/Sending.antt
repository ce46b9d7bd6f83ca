-- ===== src/Teams/Removal/Sending.antt =====
-- When the removal of a member is sent, and what has become of the new key then
-- (apps/client/src/features/teams/remove-member.ts).
use trominal.Shared.{
  ℕ, ◌<◌, Bool, true, false, List, [], ◌∷◌, ◌++◌, any, Option, none, some, Text, Bytes, codes,
  text_eq, if-cases, ◌≡◌, refl, ap, sym, arith,
}
use trominal.Shared.Results.{Result, ok, err}
use trominal.Crypto.Sodium.{Sodium}
use trominal.Crypto.KdfParams.{number_is}
use trominal.Crypto.Envelope.{make_ad, encrypt, decrypt}
use trominal.Crypto.TeamKey.{wrap_team_key}
use trominal.Vault.Records.{Resource, VaultRecord}
use trominal.Teams.Checks.{Did, lift, guard, from_option}
use trominal.Teams.Checks.Answers.{
  IsChecked, bind-IsChecked, pure-IsChecked, lift-IsChecked, guard-IsChecked, from_option-IsChecked,
  check-IsChecked, then_on,
}
use trominal.Teams.Record.{rotate_team_record}
use trominal.Teams.Removal.{
  resources, Team, TeamMember, RemoveTeamMemberRequest, RemovalApi, Fresh, RemovalError,
  workspace_changed, old_server, key_changed, not_a_member, api_failed, crypto_step, wrap_step,
  record_step, public_key_of, decoded, checked, guards, wrap_context, wrap_members, rotate_records,
  rotate_all, prepare, submitted, guarded, remove_member_with_rotation,
}

pub lift-eq-ok :
    {E A : Type 0} (r : Result E A) (n : ℕ) {did : Did A}
    → lift r n ≡ ok did
    → (r ≡ ok did.value) × (did.calls ≡ n)
lift-eq-ok {E} {A} (ok a) n {did} h =
    let same : record { value = a; calls = n } ≡ did = cc h in
    (ap (λ (d : Did A). ok d.value) same, ap (λ (d : Did A). d.calls) (sym same))
lift-eq-ok (err e) n h = absurd (cc h)

pub guard-eq-ok :
    {E : Type 0} (test : Bool) (e : E) (n : ℕ) {did : Did (Unit {0})}
    → guard test e n ≡ ok did
    → test ≡ true
guard-eq-ok true e n h = refl
guard-eq-ok false e n h = absurd (cc h)

pub from_option-eq-ok :
    {E A : Type 0} (o : Option A) (e : E) (n : ℕ) {did : Did A}
    → from_option o e n ≡ ok did
    → o ≡ some did.value
from_option-eq-ok {E} {A} (some a) e n {did} h =
    let same : record { value = a; calls = n } ≡ did = cc h in ap (λ (d : Did A). some d.value) same
from_option-eq-ok none e n h = absurd (cc h)

module _ (sodium : Sodium) (api : RemovalApi) (fresh : Fresh) (current : ℕ → Bool)
    (team_id member_id : Text) (version : ℕ) (old_key : Bytes) where
  checks : IsChecked current (checked sodium api fresh current team_id member_id version old_key)
  checks = check-IsChecked current workspace_changed

  guards-IsChecked :
      IsChecked current (guards sodium api fresh current team_id member_id version old_key)
  unfolding guards
  guards-IsChecked = bind-IsChecked current _ _ checks λ _.
      bind-IsChecked current _ _ (from_option-IsChecked current api.get_server_info api_failed)
        λ info. bind-IsChecked current _ _ checks λ _.
          bind-IsChecked current _ _ (guard-IsChecked current info old_server) λ _.
            bind-IsChecked current _ _
              (from_option-IsChecked current (api.get_team team_id) api_failed)
              λ team. bind-IsChecked current _ _ checks λ _.
                bind-IsChecked current _ _
                  (guard-IsChecked current (text_eq team.id team_id) key_changed)
                  λ _.
                    bind-IsChecked current _ _
                      (guard-IsChecked current (number_is team.key_version version) key_changed)
                      λ _.
                        bind-IsChecked current _ _
                          (from_option-IsChecked current (api.list_team_members team_id) api_failed)
                          λ members. bind-IsChecked current _ _ checks λ _.
                            bind-IsChecked current _ _
                              (guard-IsChecked current
                                (any (λ member. text_eq member.id member_id) members) not_a_member)
                              λ _. pure-IsChecked current (team, members)

  wrap_members-IsChecked :
      (members : List TeamMember)
      → IsChecked current
          (wrap_members sodium api fresh current team_id member_id version old_key members)
  unfolding wrap_members
  wrap_members-IsChecked [] = pure-IsChecked current []
  wrap_members-IsChecked (member ∷ members) =
      let rest = wrap_members-IsChecked members in
      if-cases (IsChecked current) (text_eq member.id member_id) _ _ (λ _. rest)
        λ _.
          bind-IsChecked current _ _
            (bind-IsChecked current _ _ checks λ _.
              bind-IsChecked current _ _ (lift-IsChecked current (public_key_of member.public_key))
                λ public_key.
                  bind-IsChecked current _ _
                    (lift-IsChecked current (decoded (sodium.from_base64 public_key)))
                    λ recipient.
                      bind-IsChecked current _ _
                        (lift-IsChecked current (
                          wrap_step
                            (wrap_team_key sodium (fresh.wrap_key member.id)
                              (fresh.wrap_nonce member.id) fresh.team_key recipient
                              (wrap_context sodium api fresh current team_id member_id version
                                old_key member.id)).result))
                        λ wrapped.
                          pure-IsChecked current
                            (record { member_id = member.id; wrapped = wrapped }))
            λ first.
              bind-IsChecked current _ _ rest λ others. pure-IsChecked current (first ∷ others)

  rotate_records-IsChecked :
      (rows : List (Resource × VaultRecord))
      → IsChecked current
          (rotate_records sodium api fresh current team_id member_id version old_key rows)
  unfolding rotate_records
  rotate_records-IsChecked [] = pure-IsChecked current []
  rotate_records-IsChecked ((resource, row) ∷ rows) = bind-IsChecked current _ _ checks λ _.
      bind-IsChecked current _ _
        (lift-IsChecked current (
          record_step (
            rotate_team_record sodium resource row team_id old_key fresh.team_key
              (fresh.field_nonce resource row.id))))
        λ item.
          bind-IsChecked current _ _ (rotate_records-IsChecked rows)
            λ items. pure-IsChecked current (item ∷ items)

  rotate_all-IsChecked :
      (types : List Resource)
      → IsChecked current
          (rotate_all sodium api fresh current team_id member_id version old_key types)
  unfolding rotate_all
  rotate_all-IsChecked [] = pure-IsChecked current []
  rotate_all-IsChecked (resource ∷ types) = bind-IsChecked current _ _ checks λ _.
      bind-IsChecked current _ _
        (from_option-IsChecked current (api.list_vault_records resource team_id) api_failed)
        λ rows. bind-IsChecked current _ _ (rotate_records-IsChecked rows) λ items.
          bind-IsChecked current _ _ (rotate_all-IsChecked types)
            λ rest. pure-IsChecked current (items ++ rest)

  prepare-IsChecked :
      (got : Team × List TeamMember)
      → IsChecked current (prepare sodium api fresh current team_id member_id version old_key got)
  unfolding prepare
  prepare-IsChecked (team, members) = bind-IsChecked current _ _ checks λ _.
      bind-IsChecked current _ _
        (lift-IsChecked current (crypto_step (make_ad (codes "team") team_id)))
        λ ad.
          bind-IsChecked current _ _
            (lift-IsChecked current (
              crypto_step (
                decrypt sodium (record { v = 1; ct = team.name_ciphertext; n = team.name_nonce })
                  old_key ad)))
            λ name. bind-IsChecked current _ _ checks λ _.
              bind-IsChecked current _ _
                (lift-IsChecked current
                  (crypto_step (encrypt sodium name fresh.team_key ad fresh.name_nonce)))
                λ encrypted.
                  bind-IsChecked current _ _ (wrap_members-IsChecked members) λ remaining.
                    bind-IsChecked current _ _ (rotate_all-IsChecked resources)
                      λ rotated. bind-IsChecked current _ _ checks λ _. pure-IsChecked current _

  -- What a request that was sent is made of: the answers of the server and the steps after them.
  abbrev pub Sent : Did RemoveTeamMemberRequest → Type 0
  Sent request =
      (got : Did (Team × List TeamMember)) × (guards sodium api fresh current team_id member_id
          version old_key 0
        ≡ ok got)
      × (prepare sodium api fresh current team_id member_id version old_key got.value got.calls
          ≡ ok request)

  submitted-request :
      (r : Result RemovalError (Did RemoveTeamMemberRequest))
      {request : Did RemoveTeamMemberRequest}
      → (submitted sodium api fresh current team_id member_id version old_key r).request
        ≡ some request
      → r ≡ ok request
  submitted-request (ok did) h = cc h
  submitted-request (err e) h = absurd (cc h)

  guarded-Sent :
      (r : Result RemovalError (Did (Team × List TeamMember)))
      {request : Did RemoveTeamMemberRequest}
      → guards sodium api fresh current team_id member_id version old_key 0 ≡ r
      → (guarded sodium api fresh current team_id member_id version old_key r).request
        ≡ some request
      → Sent request
  guarded-Sent (ok got) e h = (
    got,
    e,
    submitted-request
        (prepare sodium api fresh current team_id member_id version old_key got.value got.calls) h,
  )
  guarded-Sent (err x) e h = absurd (cc h)

  pub remove_member_with_rotation-Sent :
      {request : Did RemoveTeamMemberRequest}
      → (remove_member_with_rotation sodium api fresh current team_id member_id version
          old_key).request
        ≡ some request
      → Sent request
  unfolding remove_member_with_rotation
  remove_member_with_rotation-Sent h =
      guarded-Sent (guards sodium api fresh current team_id member_id version old_key 0) refl h

  -- The removal of a member is sent only if `isCurrent` has answered true every time it was asked.
  pub request-current :
      {request : Did RemoveTeamMemberRequest} (k : ℕ)
      → (remove_member_with_rotation sodium api fresh current team_id member_id version
          old_key).request
        ≡ some request
      → k < request.calls
      → current k ≡ true
  request-current k h l =
      let (got, began, ended) = remove_member_with_rotation-Sent h in
      let (a, early) = guards-IsChecked 0 got began in
      let (b, late) = prepare-IsChecked got.value got.calls _ ended in
      (then_on current 0 got.calls _ (a, early) (b, late)).1 k (omega arith) l
