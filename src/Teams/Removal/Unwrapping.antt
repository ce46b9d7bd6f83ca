-- ===== src/Teams/Removal/Unwrapping.antt =====
-- The members that stay can open the new key (apps/client/src/features/teams/remove-member.ts).
use trominal.Shared.{
  ℕ, ◌+◌, Bool, Bool-cases, List, [], ◌∷◌, some, Text, Bytes, text_eq, text_eq_iff, length, ◌≡◌,
  ◌≢◌, refl, ap, sym, subst, ◌∙◌, inl, inr, In,
}
use trominal.Shared.Results.{ok}
use trominal.Crypto.Sodium.{Sodium, IsCodec, IsCorrect, IsSealing}
use trominal.Json.{nat}
use trominal.Crypto.TeamKey.{
  TeamKeyWrapContext, Outcome, WrappedTeamKey, X25519KeyPair, make_team_key_ad, wrap_team_key,
  unwrap_team_key,
}
use trominal.Crypto.TeamKey.RoundTrip.{IsWellSized, unwrap-wrap_team_key}
use trominal.Teams.Checks.{Did}
use trominal.Teams.Removal.{
  TeamMember, RemainingMember, RemoveTeamMemberRequest, RemovalApi, Fresh, public_key_of,
  wrap_context, remove_member_with_rotation,
}
use trominal.Teams.Removal.Members.{IsWrapped, AreWrapped, staying, remaining_members-AreWrapped}

-- The context of a member's key in the version that follows.
abbrev pub next_context : Text → ℕ → Text → TeamKeyWrapContext
next_context team_id version member_id = record {
  team_id = team_id;
  member_id = member_id;
  key_version = nat version;
}

module _ (sodium : Sodium) (api : RemovalApi) (fresh : Fresh) (current : ℕ → Bool)
    (team_id member_id : Text) (version : ℕ) (old_key : Bytes) where
  In-staying :
      (members : List TeamMember) (member : TeamMember)
      → member.id ≢ member_id
      → In member members
      → In member (staying sodium api fresh current team_id member_id version old_key members)
  In-staying [] member stays i = absurd i
  In-staying (first ∷ members) member stays (inl e) =
      elim (Bool-cases (text_eq first.id member_id)) [
        | inl removed ↦ absurd (
            stays
              (ap (λ (m : TeamMember). m.id) (sym e) ∙ (text_eq_iff first.id member_id).0 removed))
        | inr apart ↦ rw apart (inl e)
      ]
  In-staying (first ∷ members) member stays (inr i) =
      elim (Bool-cases (text_eq first.id member_id)) [
        | inl removed ↦ rw removed (In-staying members member stays i)
        | inr apart ↦ rw apart (inr (In-staying members member stays i))
      ]

  find-IsWrapped :
      (members : List TeamMember) (remaining : List RemainingMember) (member : TeamMember)
      → AreWrapped sodium api fresh current team_id member_id version old_key members remaining
      → In member members
      → (r : RemainingMember) × In r remaining
        × IsWrapped sodium api fresh current team_id member_id version old_key member r
  find-IsWrapped [] remaining member h i = absurd i
  find-IsWrapped (first ∷ members) [] member h i = absurd h
  find-IsWrapped (first ∷ members) (r ∷ remaining) member (wrapped, rest) (inl e) = (
    r,
    inl refl,
    subst (λ m. IsWrapped sodium api fresh current team_id member_id version old_key m r) e wrapped,
  )
  find-IsWrapped (first ∷ members) (r ∷ remaining) member (wrapped, rest) (inr i) =
      let (found, place, w) = find-IsWrapped members remaining member rest i in
      (found, inr place, w)

  module _ (codec : IsCodec sodium) (correct : IsCorrect sodium) where
    -- Each member that stays, whose public key was listed, finds in the request a wrapped key that its
    -- key pair opens, in the context of the team, this member and the next version, to the new key: the
    -- key pair is sound, and the keys and nonces have their sizes.
    pub remaining_members-unwrap :
        {request : Did RemoveTeamMemberRequest} (members : List TeamMember) (member : TeamMember)
        (public_key ad : Text) (keys : X25519KeyPair)
        → (remove_member_with_rotation sodium api fresh current team_id member_id version
            old_key).request
          ≡ some request
        → api.list_team_members team_id ≡ some members
        → In member members
        → member.id ≢ member_id
        → public_key_of member.public_key ≡ ok public_key
        → sodium.from_base64 public_key ≡ some keys.public_key
        → make_team_key_ad (next_context team_id (version + 1) member.id) ≡ ok ad
        → IsSealing sodium keys.public_key keys.private_key
        → IsWellSized keys (fresh.wrap_key member.id) (fresh.wrap_nonce member.id)
        → length fresh.team_key ≡ 32
        → (r : RemainingMember) × In r request.value.remaining_members
          × (r.member_id ≡ member.id)
          × ((unwrap_team_key sodium r.wrapped keys
                (next_context team_id (version + 1) member.id)).result
              ≡ ok fresh.team_key)
    remaining_members-unwrap {request} members member public_key ad keys h listed i stays given read
          made sealing sizes size =
        let (team, members', (_, _, _, listed', _), wrapped, _, _, _, _) =
          remaining_members-AreWrapped sodium api fresh current team_id member_id version old_key
            h in
        let i' : In member members' = subst (λ ms. In member ms) (cc (listed, listed')) i in
        let (r, place, (same, (public_key', recipient', given', read', wraps))) =
          find-IsWrapped
            (staying sodium api fresh current team_id member_id version old_key members')
            request.value.remaining_members member wrapped (In-staying members' member stays i') in
        let same_key : public_key' ≡ public_key = cc (given, given') in
        let same_recipient : recipient' ≡ keys.public_key =
          cc (subst (λ k. sodium.from_base64 k ≡ some recipient') same_key read', read) in
        let (w, wraps', unwraps) =
          unwrap-wrap_team_key sodium codec correct keys sealing (fresh.wrap_key member.id)
            (fresh.wrap_nonce member.id) sizes fresh.team_key
            (wrap_context sodium api fresh current team_id member_id version old_key member.id) size
            made in
        let wraps_keys =
          subst
            (λ k.
              (wrap_team_key sodium (fresh.wrap_key member.id) (fresh.wrap_nonce member.id)
                fresh.team_key k
                (wrap_context sodium api fresh current team_id member_id version old_key
                  member.id)).result
              ≡ ok r.wrapped)
            same_recipient wraps in
        let same_wrapped : w ≡ r.wrapped =
          cc (ap (λ (o : Outcome WrappedTeamKey). o.result) wraps', wraps_keys) in
        (
          r,
          place,
          same,
          subst
              (λ x.
                (unwrap_team_key sodium x keys (
                  wrap_context sodium api fresh current team_id member_id version old_key
                    member.id)).result
                ≡ ok fresh.team_key)
              same_wrapped (ap (λ (o : Outcome Bytes). o.result) unwraps),
        )
