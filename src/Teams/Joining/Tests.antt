-- ===== src/Teams/Joining/Tests.antt =====
-- An invitation on the toy cipher (apps/client/src/features/teams/invite-member.ts).
use trominal.Shared.{true, some, Bytes, codes, replicate, trim, ◌≡◌, refl}
use trominal.Shared
use trominal.Shared.Results.{ok, err}
use trominal.Json.{nat}
use trominal.Crypto.Toy.{toy}
use trominal.Crypto.Envelope
use trominal.Crypto.TeamKey
use trominal.Teams.Joining
use trominal.Teams.Joining.{
  viewer, TeamUserKey, MemberPayload, TeamMemberDto, InviteApi, unexpected_membership,
  invite_member,
}
use trominal.Teams.Joining.Verified.{IsMember, invite_member-IsMember}

abbrev team_key : Bytes
team_key = replicate 32 7

abbrev wrap_key : Bytes
wrap_key = replicate 32 3

abbrev wrap_nonce : Bytes
wrap_nonce = replicate 24 4

-- The toy's base64 is the bytes themselves.
abbrev user : TeamUserKey
user = record { id = codes "u"; public_key = replicate 32 9 }

abbrev joins : MemberPayload → TeamMemberDto
joins payload = record {
  id = payload.member_id;
  user_id = payload.user_id;
  role = payload.role;
  key_version = nat payload.expected_key_version;
}

abbrev server : (MemberPayload → TeamMemberDto) → InviteApi
server answer = record {
  get_server_info =
      some (record { team_client_member_ids = true; team_member_key_version_guard = true });
  lookup_team_user = λ email. some user;
  add_team_member = λ id payload. some (answer payload);
}

abbrev other_role : MemberPayload → TeamMemberDto
other_role payload = record {
  id = payload.member_id;
  user_id = payload.user_id;
  role = Joining.admin;
  key_version = nat payload.expected_key_version;
}

abbrev joined : TeamMemberDto
joined = record { id = codes "m"; user_id = codes "u"; role = viewer; key_version = nat 2 }

invited_run :
    invite_member toy wrap_key wrap_nonce
      (codes "m")
      (server joins)
      (λ k. true)
      (codes "t")
      2
      team_key
      (codes " a@b.c ")
      viewer
      0
    ≡ ok (record { value = joined; calls = 4 })
unfolding invite_member Joining.create_member_payload Shared.text_eq Shared.trim Shared.trim_start
    Shared.decimal Envelope.make_ad TeamKey.wrap_team_key TeamKey.assert_bytes TeamKey.join_payload
    TeamKey.make_team_key_ad TeamKey.assert_context
invited_run = refl

other_role_run :
    invite_member toy wrap_key wrap_nonce
      (codes "m")
      (server other_role)
      (λ k. true)
      (codes "t")
      2
      team_key
      (codes "a@b.c")
      viewer
      0
    ≡ err unexpected_membership
unfolding invite_member Joining.create_member_payload Shared.text_eq Shared.trim Shared.trim_start
    Shared.decimal Envelope.make_ad TeamKey.wrap_team_key TeamKey.assert_bytes TeamKey.join_payload
    TeamKey.make_team_key_ad TeamKey.assert_context
other_role_run = refl

invite_member-IsMember_example :
    IsMember toy wrap_key wrap_nonce
      (codes "m")
      (server joins)
      (codes "t")
      2
      team_key
      (codes " a@b.c ")
      viewer
      joined
invite_member-IsMember_example =
    invite_member-IsMember toy wrap_key wrap_nonce (codes "m") (server joins) (λ k. true)
      (codes "t") 2 team_key (codes " a@b.c ") viewer invited_run
