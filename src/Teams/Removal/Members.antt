-- ===== src/Teams/Removal/Members.antt =====
-- Who gets the new key when a member is removed (apps/client/src/features/teams/remove-member.ts).
use trominal.Shared.{
  All, ℕ, Bool, Bool-cases, true, false, List, [], ◌∷◌, Option, none, some, Text, Bytes, text_eq,
  text_eq_iff, if◌then◌else◌, ◌≡◌, ◌≢◌, refl, sym, ◌∙◌, inl, inr, any, codes,
}
use trominal.Shared.Results.{Result, ok, err}
use trominal.Crypto.Sodium.{Sodium}
use trominal.Crypto.KdfParams.{number_is}
use trominal.Crypto.Envelope.{make_ad, encrypt, decrypt}
use trominal.Crypto.TeamKey
use trominal.Crypto.TeamKey.{wrap_team_key}
use trominal.Teams.Checks.{Did, ◌>>=◌, pure, guard, from_option}
use trominal.Teams.Checks.Results.{
  Ensures, bind-Ensures, pure-Ensures, lift-Ensures, guard-Ensures, from_option-Ensures,
  any-Ensures,
}
use trominal.Teams.Record.{TeamReencryptedResource}
use trominal.Teams.Removal.{
  resources, Team, TeamMember, RemainingMember, RemoveTeamMemberRequest, RemovalApi, Fresh,
  api_failed, old_server, key_changed, not_a_member, crypto_step, wrap_step, public_key_of, decoded,
  checked, guards, wrap_context, wrap_member, wrap_members, rotate_all, prepare,
  remove_member_with_rotation,
}
use trominal.Teams.Removal.Sending.{remove_member_with_rotation-Sent}

decoded-eq-ok : (o : Option Bytes) {bytes : Bytes} → decoded o ≡ ok bytes → o ≡ some bytes
decoded-eq-ok (some b) h = cc h
decoded-eq-ok none h = absurd (cc h)

wrap_step-eq-ok : {A : Type 0} (r : Result TeamKey.Error A) {a : A} → wrap_step r ≡ ok a → r ≡ ok a
wrap_step-eq-ok (ok b) h = cc h
wrap_step-eq-ok (err e) h = absurd (cc h)

module _ (sodium : Sodium) (api : RemovalApi) (fresh : Fresh) (current : ℕ → Bool)
    (team_id member_id : Text) (version : ℕ) (old_key : Bytes) where
  passes :
      Ensures (λ _. Unit {0}) (checked sodium api fresh current team_id member_id version old_key)
  passes = any-Ensures (checked sodium api fresh current team_id member_id version old_key)

  -- What the guards let through.
  abbrev pub IsGuarded : Team × List TeamMember → Type 0
  IsGuarded (team, members) =
      (api.get_team team_id ≡ some team)
      × (team.id ≡ team_id)
      × (number_is team.key_version version ≡ true)
      × (api.list_team_members team_id ≡ some members)
      × (any (λ member. text_eq member.id member_id) members ≡ true)

  pub guards-Ensures :
      Ensures IsGuarded (guards sodium api fresh current team_id member_id version old_key)
  unfolding guards
  guards-Ensures = bind-Ensures _ _ _ _ passes λ _ _.
      bind-Ensures _ _ _ _ (any-Ensures (from_option api.get_server_info api_failed)) λ info _.
        bind-Ensures _ _ _ _ passes λ _ _.
          bind-Ensures _ _ _ _ (any-Ensures (guard info old_server)) λ _ _.
            bind-Ensures _ _ _ _ (from_option-Ensures (api.get_team team_id) api_failed)
              λ team fetched. bind-Ensures _ _ _ _ passes λ _ _.
                bind-Ensures _ _ _ _ (guard-Ensures (text_eq team.id team_id) key_changed) λ _ same.
                  bind-Ensures _ _ _ _
                    (guard-Ensures (number_is team.key_version version) key_changed)
                    λ _ same_version.
                      bind-Ensures _ _ _ _
                        (from_option-Ensures (api.list_team_members team_id) api_failed)
                        λ members listed. bind-Ensures _ _ _ _ passes λ _ _.
                          bind-Ensures _ _ _ _
                            (guard-Ensures (any (λ member. text_eq member.id member_id) members)
                              not_a_member)
                            λ _ found. pure-Ensures _ _ (
                              fetched,
                              (text_eq_iff team.id team_id).0 same,
                              same_version,
                              listed,
                              found,
                            )

  -- The member's wrapped key was made from the new key for the member's own public key.
  abbrev pub IsWrapped : TeamMember → RemainingMember → Type 0
  IsWrapped member remaining =
      (remaining.member_id ≡ member.id)
      × ((public_key : Text) × (recipient : Bytes) × (public_key_of member.public_key
            ≡ ok public_key)
          × (sodium.from_base64 public_key ≡ some recipient)
          × ((wrap_team_key sodium (fresh.wrap_key member.id) (fresh.wrap_nonce member.id)
                fresh.team_key recipient
                (wrap_context sodium api fresh current team_id member_id version old_key
                  member.id)).result
              ≡ ok remaining.wrapped))

  wrap_member-Ensures :
      (member : TeamMember)
      → Ensures
          (IsWrapped member)
          (wrap_member sodium api fresh current team_id member_id version old_key member)
  wrap_member-Ensures member = bind-Ensures _ _ _ _ passes λ _ _.
      bind-Ensures _ _ _ _ (lift-Ensures (public_key_of member.public_key)) λ public_key given.
        bind-Ensures _ _ _ _ (lift-Ensures (decoded (sodium.from_base64 public_key)))
          λ recipient read.
            bind-Ensures _ _ _ _
              (lift-Ensures (
                wrap_step
                  (wrap_team_key sodium (fresh.wrap_key member.id) (fresh.wrap_nonce member.id)
                    fresh.team_key recipient
                    (wrap_context sodium api fresh current team_id member_id version old_key
                      member.id)).result))
              λ wrapped made.
                pure-Ensures _ _ (
                  refl,
                  (public_key, recipient, given, decoded-eq-ok _ read, wrap_step-eq-ok _ made),
                )

  -- The members that stay, in order, each with the new key.
  abbrev pub AreWrapped : List TeamMember → List RemainingMember → Type 0
  AreWrapped [] [] = Unit {0}
  AreWrapped (member ∷ members) (remaining ∷ others) =
      IsWrapped member remaining × AreWrapped members others
  AreWrapped _ _ = ⊥

  abbrev pub staying : List TeamMember → List TeamMember
  staying [] = []
  staying (member ∷ members) =
      if text_eq member.id member_id then staying members else member ∷ staying members

  pub wrap_members-Ensures :
      (members : List TeamMember)
      → Ensures
          (AreWrapped (staying members))
          (wrap_members sodium api fresh current team_id member_id version old_key members)
  unfolding wrap_members
  wrap_members-Ensures [] = pure-Ensures _ _ tt
  wrap_members-Ensures (member ∷ members) = elim (Bool-cases (text_eq member.id member_id)) [
    | inl removed ↦ λ n did h. rw removed (wrap_members-Ensures members n did (rw removed at h))
    | inr stays ↦ λ n did h. rw stays (
        bind-Ensures (IsWrapped member) (AreWrapped (member ∷ staying members))
          (wrap_member sodium api fresh current team_id member_id version old_key member)
          (λ first.
            wrap_members sodium api fresh current team_id member_id version old_key members
            >>= λ others. pure (first ∷ others))
          (wrap_member-Ensures member)
          (λ first wrapped.
            bind-Ensures _ _ _ _ (wrap_members-Ensures members)
              λ others rest. pure-Ensures _ _ (wrapped, rest))
          n did (rw stays at h))
  ]

  -- A request is built from the members that stay and the records that were read.
  pub prepare-Ensures :
      (P : List RemainingMember → Type 0) (R : List TeamReencryptedResource → Type 0) (team : Team)
      (members : List TeamMember)
      → Ensures P (wrap_members sodium api fresh current team_id member_id version old_key members)
      → Ensures R (rotate_all sodium api fresh current team_id member_id version old_key resources)
      → Ensures
          (λ request.
            P request.remaining_members
            × R request.reencrypted_resources
            × (request.expected_key_version ≡ version)
            × (request.expected_name_ciphertext ≡ team.name_ciphertext)
            × (request.expected_name_nonce ≡ team.name_nonce))
          (prepare sodium api fresh current team_id member_id version old_key (team, members))
  unfolding prepare
  prepare-Ensures P R team members p r = bind-Ensures _ _ _ _ passes λ _ _.
      bind-Ensures _ _ _ _ (lift-Ensures (crypto_step (make_ad (codes "team") team_id))) λ ad _.
        bind-Ensures _ _ _ _
          (lift-Ensures (
            crypto_step (
              decrypt sodium (record { v = 1; ct = team.name_ciphertext; n = team.name_nonce })
                old_key ad)))
          λ name _. bind-Ensures _ _ _ _ passes λ _ _.
            bind-Ensures _ _ _ _
              (lift-Ensures (crypto_step (encrypt sodium name fresh.team_key ad fresh.name_nonce)))
              λ encrypted _. bind-Ensures P _ _ _ p λ remaining p.
                bind-Ensures R _ _ _ r λ rotated r.
                  bind-Ensures _ _ _ _ passes λ _ _. pure-Ensures _ _ (p, r, refl, refl, refl)

  none_removed :
      (members : List TeamMember) (remaining : List RemainingMember)
      → AreWrapped (staying members) remaining
      → All (λ r. r.member_id ≢ member_id) remaining
  none_removed [] [] h = tt
  none_removed [] (r ∷ remaining) h = absurd h
  none_removed (member ∷ members) remaining h = elim (Bool-cases (text_eq member.id member_id)) [
    | inl removed ↦ none_removed members remaining (rw removed at h)
    | inr stays ↦ stay remaining stays (λ r h. none_removed members r h) (rw stays at h)
  ]
    where
      stay :
          (remaining : List RemainingMember)
          → text_eq member.id member_id ≡ false
          → ((r : List RemainingMember)
              → AreWrapped (staying members) r
              → All (λ r. r.member_id ≢ member_id) r)
          → AreWrapped (member ∷ staying members) remaining
          → All (λ r. r.member_id ≢ member_id) remaining
      stay [] stays later h = absurd h
      stay (r ∷ remaining) stays later (wrapped, rest) = (
        (λ e. absurd (cc (stays, (text_eq_iff member.id member_id).1 (sym wrapped.0 ∙ e)))),
        later remaining rest,
      )

  -- If the removal of a member is sent, the server had the team at the expected key version with that
  -- member in it; the request repeats the version and the encrypted name that were read, and has the
  -- new key, wrapped for the member's own public key and the next version, for exactly the members that
  -- stay, in their order; the member to remove gets none.
  pub remaining_members-AreWrapped :
      {request : Did RemoveTeamMemberRequest}
      → (remove_member_with_rotation sodium api fresh current team_id member_id version
          old_key).request
        ≡ some request
      → (team : Team) × (members : List TeamMember) × IsGuarded (team, members)
        × AreWrapped (staying members) request.value.remaining_members
        × All (λ r. r.member_id ≢ member_id) request.value.remaining_members
        × (request.value.expected_key_version ≡ version)
        × (request.value.expected_name_ciphertext ≡ team.name_ciphertext)
        × (request.value.expected_name_nonce ≡ team.name_nonce)
  remaining_members-AreWrapped {request} h =
      let (got, began, ended) =
        remove_member_with_rotation-Sent sodium api fresh current team_id member_id version old_key
          h in
      let (wrapped, _, same_version, same_ct, same_n) =
        prepare-Ensures (AreWrapped (staying got.value.1)) (λ _. Unit {0}) got.value.0 got.value.1
          (wrap_members-Ensures got.value.1)
          (any-Ensures
            (rotate_all sodium api fresh current team_id member_id version old_key resources))
          got.calls request ended in
      (
        got.value.0,
        got.value.1,
        guards-Ensures 0 got began,
        wrapped,
        none_removed got.value.1 request.value.remaining_members wrapped,
        same_version,
        same_ct,
        same_n,
      )
