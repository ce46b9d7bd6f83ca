-- ===== src/Teams/Creation/Verified.antt =====
-- What is certain once a team was created (apps/client/src/features/teams/create-team.ts).
use trominal.Shared.{
  ◌≤◌, true, [], ◌∷◌, Option, none, some, Text, Bytes, codes, length, trim, text_eq_iff, ◌≡◌, refl,
  subst, ◌∙◌, inl, inr, Bool-cases, and_true, arith,
}
use trominal.Shared.Results.{Result, ok, err, >>=-eq-ok, require-eq-ok, or_throw}
use trominal.Crypto.Sodium.{Sodium}
use trominal.Crypto.Envelope
use trominal.Crypto.Envelope.{Envelope, make_ad, encrypt}
use trominal.Crypto.TeamKey.{wrap_team_key}
use trominal.Teams.Joining.{
  ServerInfo, JoinError, unexpected_team, api_failed, crypto_step, wrap_step, context,
}
use trominal.Teams.Joining.Verified.{wrap_step-eq-ok}
use trominal.Teams.Creation.{
  ClientTeamCreateRequest, CreatedTeam, CreateApi, is_team_name, sealed_team, create_team_payload,
  is_created, verified, create_on, create_team_on_server,
}

or_throw-eq-ok :
    {A : Type 0} (o : Option A) (e : JoinError) {a : A} → or_throw o e ≡ ok a → o ≡ some a
or_throw-eq-ok none e h = absurd (cc h)
or_throw-eq-ok (some b) e h = cc h

is_team_name_lem :
    (name : Text) → is_team_name name ≡ true → (1 ≤ length name) × (length name ≤ 120)
is_team_name_lem name h = (ground arith, ground arith)

crypto_step-eq-ok :
    {A : Type 0} (r : Result Envelope.Error A) {a : A} → crypto_step r ≡ ok a → r ≡ ok a
crypto_step-eq-ok (ok b) h = cc h
crypto_step-eq-ok (err e) h = absurd (cc h)

module _ (sodium : Sodium) (wrap_key wrap_nonce name_nonce team_key : Bytes)
    (new_id new_member_id : Text) where
  abbrev seal : Text → Bytes → Result JoinError ClientTeamCreateRequest
  seal = sealed_team sodium wrap_key wrap_nonce name_nonce team_key new_id new_member_id

  verified_lem :
      (api : CreateApi) (payload : ClientTeamCreateRequest) {team : CreatedTeam}
      → verified sodium wrap_key wrap_nonce name_nonce team_key new_id new_member_id api payload
        ≡ ok team
      → (api.create_team payload ≡ some team)
        × (team.id ≡ payload.id)
        × (team.current_member_id ≡ payload.member_id)
  verified_lem api payload {team} h =
      let (got, asked, h) = >>=-eq-ok (or_throw (api.create_team payload) api_failed) _ h in
      let (fits, same) =
        require-eq-ok
          (is_created sodium wrap_key wrap_nonce name_nonce team_key new_id new_member_id payload
            got)
          unexpected_team (ok got) h in
      let same : got ≡ team = cc same in
      let (ids, members) = and_true fits in
      (
        subst (λ t. api.create_team payload ≡ some t) same
            (or_throw-eq-ok (api.create_team payload) api_failed asked),
        subst (λ (t : CreatedTeam). t.id ≡ payload.id) same ((text_eq_iff got.id payload.id).0 ids),
        subst (λ (t : CreatedTeam). t.current_member_id ≡ payload.member_id) same
            ((text_eq_iff got.current_member_id payload.member_id).0 members),
      )

  -- The name opens under the team key, and the wrapped key was made for the owner in version 1.
  abbrev pub IsSealed : Text → Bytes → ClientTeamCreateRequest → Type 0
  IsSealed name owner_public_key payload =
      (payload.id ≡ new_id)
      × (payload.member_id ≡ new_member_id)
      × ((ad : Text) × (make_ad (codes "team") new_id ≡ ok ad)
          × (encrypt sodium (sodium.utf8_encode name) team_key ad name_nonce ≡ ok payload.name))
      × ((wrap_team_key sodium wrap_key wrap_nonce team_key owner_public_key
            (context sodium wrap_key wrap_nonce new_member_id new_id 1)).result
          ≡ ok payload.wrapped)

  sealed_team_lem :
      (name : Text) (owner_public_key : Bytes) {payload : ClientTeamCreateRequest}
      → seal name owner_public_key ≡ ok payload
      → IsSealed name owner_public_key payload
  sealed_team_lem name owner_public_key {payload} h =
      let (ad, made, h) = >>=-eq-ok (crypto_step (make_ad (codes "team") new_id)) _ h in
      let (encrypted, h1, h) =
        >>=-eq-ok (crypto_step (encrypt sodium (sodium.utf8_encode name) team_key ad name_nonce)) _
          h in
      let (wrapped, h2, h) =
        >>=-eq-ok
          (wrap_step
            (wrap_team_key sodium wrap_key wrap_nonce team_key owner_public_key
              (context sodium wrap_key wrap_nonce new_member_id new_id 1)).result)
          _ h in
      let same : record {
        id = new_id;
        member_id = new_member_id;
        name = encrypted;
        wrapped = wrapped;
      }
          ≡ payload =
        cc h in
      subst (IsSealed name owner_public_key) same
        (refl, refl, (ad, crypto_step-eq-ok _ made, crypto_step-eq-ok _ h1), wrap_step-eq-ok _ h2)

  create_on_lem :
      (api : CreateApi) (name : Text) (owner_public_key : Bytes) (info : Option ServerInfo)
      {team : CreatedTeam}
      → (create_on sodium wrap_key wrap_nonce name_nonce team_key new_id new_member_id api info name
          owner_public_key).result
        ≡ ok team
      → (payload : ClientTeamCreateRequest) × (IsSealed (trim name) owner_public_key payload)
        × (api.create_team payload ≡ some team)
        × (team.id ≡ new_id)
        × (team.current_member_id ≡ new_member_id)
        × (1 ≤ length (trim name))
        × (length (trim name) ≤ 120)
        × ((create_on sodium wrap_key wrap_nonce name_nonce team_key new_id new_member_id api info
              name owner_public_key).wiped
            ≡ team_key ∷ [])
  unfolding create_team_payload
  create_on_lem api name owner_public_key none h = absurd (cc h)
  create_on_lem api name owner_public_key (some info) h =
      elim (Bool-cases info.team_client_member_ids) [
        | inr old ↦ absurd (cc (rw old at h))
        | inl guarded ↦ elim (Bool-cases (is_team_name (trim name))) [
          | inr bad ↦ absurd (cc (rw (guarded, bad) at h))
          | inl named ↦
              let (payload, sealed, h) =
                >>=-eq-ok (seal (trim name) owner_public_key) _ (rw (guarded, named) at h) in
              let (asked, ids, members) = verified_lem api payload h in
              let (id, member, opens, wraps) =
                sealed_team_lem (trim name) owner_public_key sealed in
              let (low, high) = is_team_name_lem (trim name) named in
              (
                payload,
                (id, member, opens, wraps),
                asked,
                ids ∙ id,
                members ∙ member,
                low,
                high,
                rw (guarded, named) refl,
              )
        ]
      ]

  -- A team that was created has the ids of the request, in the server's answer too; the trimmed name
  -- has 1 to 120 code units and was encrypted under the new team key, which was wrapped for the owner
  -- in version 1; and the buffer of the team key is zeroed.
  pub create_team_on_server-IsSealed :
      (api : CreateApi) (name : Text) (owner_public_key : Bytes) {team : CreatedTeam}
      → (create_team_on_server sodium wrap_key wrap_nonce name_nonce team_key new_id new_member_id
          api name owner_public_key).result
        ≡ ok team
      → (payload : ClientTeamCreateRequest) × (IsSealed (trim name) owner_public_key payload)
        × (api.create_team payload ≡ some team)
        × (team.id ≡ new_id)
        × (team.current_member_id ≡ new_member_id)
        × (1 ≤ length (trim name))
        × (length (trim name) ≤ 120)
        × ((create_team_on_server sodium wrap_key wrap_nonce name_nonce team_key new_id
              new_member_id api name owner_public_key).wiped
            ≡ team_key ∷ [])
  unfolding create_team_on_server
  create_team_on_server-IsSealed api name owner_public_key h =
      create_on_lem api name owner_public_key api.get_server_info h
