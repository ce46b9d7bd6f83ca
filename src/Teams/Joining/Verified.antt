-- ===== src/Teams/Joining/Verified.antt =====
-- What is certain once a member was invited (apps/client/src/features/teams/invite-member.ts).
use trominal.Shared.{
  ℕ, Bool, true, false, ◌&&◌, some, Text, Bytes, text_eq, text_eq_iff, trim, ◌≡◌, refl, subst,
  and_true,
}
use trominal.Shared.Results.{Result, ok, err}
use trominal.Crypto.Sodium.{Sodium}
use trominal.Crypto.KdfParams.{number_is}
use trominal.Crypto.TeamKey
use trominal.Crypto.TeamKey.{WrappedTeamKey, wrap_team_key}
use trominal.Teams.Checks.{guard, pure, from_option, ◌>>=◌, ◌>>◌, Did}
use trominal.Teams.Checks.Results.{
  Ensures, bind-Ensures, pure-Ensures, lift-Ensures, guard-Ensures, from_option-Ensures,
  check-Ensures,
}
use trominal.Teams.Joining.{
  MemberPayload, TeamRole, owner, admin, member, viewer, role_eq, TeamUserKey, TeamMemberDto,
  ServerInfo, InviteApi, workspace_changed, old_server, unexpected_membership, invalid_base64,
  api_failed, wrap_step, context, payload_of, create_member_payload, is_expected, invite_member,
}

pub wrap_step-eq-ok :
    {A : Type 0} (r : Result TeamKey.Error A) {a : A} → wrap_step r ≡ ok a → r ≡ ok a
wrap_step-eq-ok (ok b) h = cc h
wrap_step-eq-ok (err e) h = absurd (cc h)

role_eq_sound : (a b : TeamRole) → role_eq a b ≡ true → a ≡ b
role_eq_sound owner owner h = refl
role_eq_sound admin admin h = refl
role_eq_sound member member h = refl
role_eq_sound viewer viewer h = refl
role_eq_sound _ _ h = absurd (cc h)

of_four :
    (a b c d : Bool)
    → (a && b && c && d) ≡ true
    → ((a ≡ true) × (b ≡ true)) × (c ≡ true) × (d ≡ true)
of_four true true true true h = ((refl, refl), refl, refl)
of_four false _ _ _ h = absurd (cc h)
of_four true false _ _ h = absurd (cc h)
of_four true true false _ h = absurd (cc h)
of_four true true true false h = absurd (cc h)

guarded_flags :
    (info : ServerInfo)
    → (info.team_client_member_ids && info.team_member_key_version_guard) ≡ true
    → (info.team_client_member_ids ≡ true) × (info.team_member_key_version_guard ≡ true)
guarded_flags info h = and_true h

module _ (sodium : Sodium) (wrap_key wrap_nonce : Bytes) (new_member_id : Text) where
  -- The payload for a user, with the team key wrapped for this public key.
  abbrev pub IsPayload : Text → ℕ → Bytes → Text → Bytes → TeamRole → MemberPayload → Type 0
  IsPayload team_id key_version team_key user_id public_key role payload =
      (wrapped : WrappedTeamKey) × ((wrap_team_key sodium wrap_key wrap_nonce team_key public_key
          (context sodium wrap_key wrap_nonce new_member_id team_id key_version)).result
        ≡ ok wrapped)
      × (payload
          ≡ payload_of sodium wrap_key wrap_nonce new_member_id key_version user_id role wrapped)

  -- The server's answer for that user.
  abbrev pub IsAnswered : ℕ → Text → TeamRole → TeamMemberDto → Type 0
  IsAnswered key_version user_id role joined =
      (joined.id ≡ new_member_id)
      × (number_is joined.key_version key_version ≡ true)
      × (joined.user_id ≡ user_id)
      × (joined.role ≡ role)

  -- The membership that an invitation has made.
  abbrev pub IsMember : InviteApi → Text → ℕ → Bytes → Text → TeamRole → TeamMemberDto → Type 0
  IsMember api team_id key_version team_key email role joined =
      (info : ServerInfo) × (user : TeamUserKey) × (public_key : Bytes) × (payload : MemberPayload)
      × (api.get_server_info ≡ some info)
      × (info.team_client_member_ids ≡ true)
      × (info.team_member_key_version_guard ≡ true)
      × (api.lookup_team_user (trim email) ≡ some user)
      × (sodium.from_base64 user.public_key ≡ some public_key)
      × (IsPayload team_id key_version team_key user.id public_key role payload)
      × (api.add_team_member team_id payload ≡ some joined)
      × IsAnswered key_version user.id role joined

  expected :
      (key_version : ℕ) (user_id : Text) (role : TeamRole) (wrapped : WrappedTeamKey)
      (joined : TeamMemberDto)
      → is_expected sodium wrap_key wrap_nonce new_member_id
          (payload_of sodium wrap_key wrap_nonce new_member_id key_version user_id role wrapped)
          joined
        ≡ true
      → IsAnswered key_version user_id role joined
  expected key_version user_id role wrapped joined h =
      let ((a, b), c, d) =
        of_four (text_eq joined.id new_member_id) (number_is joined.key_version key_version)
          (text_eq joined.user_id user_id) (role_eq joined.role role) h in
      (
        (text_eq_iff joined.id new_member_id).0 a,
        b,
        (text_eq_iff joined.user_id user_id).0 c,
        role_eq_sound joined.role role d,
      )

  module _ (api : InviteApi) (current : ℕ → Bool) (team_id : Text) (key_version : ℕ)
      (team_key : Bytes) (email : Text) (role : TeamRole) where
    create_member_payload-IsPayload :
        (user_id : Text) (public_key : Bytes)
        → Ensures (IsPayload team_id key_version team_key user_id public_key role) (
            create_member_payload sodium wrap_key wrap_nonce new_member_id team_id key_version
              team_key user_id public_key role)
    unfolding create_member_payload
    create_member_payload-IsPayload user_id public_key =
        bind-Ensures _ _ _ _
          (lift-Ensures (
            wrap_step
              (wrap_team_key sodium wrap_key wrap_nonce team_key public_key
                (context sodium wrap_key wrap_nonce new_member_id team_id key_version)).result))
          λ wrapped made. pure-Ensures _ _ (wrapped, wrap_step-eq-ok _ made, refl)

    joined-IsMember :
        (info : ServerInfo) (user : TeamUserKey) (public_key : Bytes) (payload : MemberPayload)
        → api.get_server_info ≡ some info
        → (info.team_client_member_ids && info.team_member_key_version_guard) ≡ true
        → api.lookup_team_user (trim email) ≡ some user
        → sodium.from_base64 user.public_key ≡ some public_key
        → IsPayload team_id key_version team_key user.id public_key role payload
        → Ensures (IsMember api team_id key_version team_key email role) (
            from_option (api.add_team_member team_id payload) api_failed >>= λ joined.
            guard
              (is_expected sodium wrap_key wrap_nonce new_member_id payload joined)
              unexpected_membership
            >> pure joined)
    joined-IsMember info user public_key payload asked guarded found read (wrapped, made, same) =
        bind-Ensures _ _ _ _ (from_option-Ensures (api.add_team_member team_id payload) api_failed)
          λ joined added.
            bind-Ensures _ _ _ _
              (guard-Ensures (is_expected sodium wrap_key wrap_nonce new_member_id payload joined)
                unexpected_membership)
              λ _ verified.
                let (ids, versions) = guarded_flags info guarded in
                let answered = expected key_version user.id role wrapped joined (
                  subst (λ p. is_expected sodium wrap_key wrap_nonce new_member_id p joined ≡ true)
                    same verified) in
                pure-Ensures _ _ (
                  info,
                  user,
                  public_key,
                  payload,
                  asked,
                  ids,
                  versions,
                  found,
                  read,
                  (wrapped, made, same),
                  added,
                  answered,
                )

    -- An invitation that succeeds was asked of a server that guards member ids and key versions; the
    -- team key was wrapped for the public key of the user that the email belongs to, in the context of
    -- the team, the new member id and the key version; and the server's answer has that id, that version,
    -- that user and that role.
    pub invite_member-IsMember :
        {joined : Did TeamMemberDto}
        → invite_member sodium wrap_key wrap_nonce new_member_id api current team_id key_version
            team_key email role 0
          ≡ ok joined
        → IsMember api team_id key_version team_key email role joined.value
    unfolding invite_member
    invite_member-IsMember {joined} h = steps 0 joined h
      where
        steps : Ensures (IsMember api team_id key_version team_key email role) (
            invite_member sodium wrap_key wrap_nonce new_member_id api current team_id key_version
              team_key email role)
        steps = check-Ensures _ current workspace_changed _ (
            bind-Ensures _ _ _ _ (from_option-Ensures api.get_server_info api_failed) λ info asked.
              bind-Ensures _ _ _ _
                (guard-Ensures (info.team_client_member_ids && info.team_member_key_version_guard)
                  old_server)
                λ _ guarded. check-Ensures _ current workspace_changed _ (
                  bind-Ensures _ _ _ _
                    (from_option-Ensures (api.lookup_team_user (trim email)) api_failed)
                    λ user found. check-Ensures _ current workspace_changed _ (
                      bind-Ensures _ _ _ _
                        (from_option-Ensures (sodium.from_base64 user.public_key) invalid_base64)
                        λ public_key read.
                          bind-Ensures _ _ _ _ (create_member_payload-IsPayload user.id public_key)
                            λ payload made. check-Ensures _ current workspace_changed _ (
                              joined-IsMember info user public_key payload asked guarded found read
                                made))))
