-- ===== src/Teams/Creation/Tests.antt =====
-- A new team on the toy cipher (apps/client/src/features/teams/create-team.ts).
use trominal.Shared.{◌≤◌, true, [], ◌∷◌, some, Bytes, codes, replicate, length, trim, ◌≡◌, refl}
use trominal.Shared
use trominal.Shared.Results.{ok, err}
use trominal.Crypto.Toy.{toy}
use trominal.Crypto.Envelope
use trominal.Crypto.TeamKey
use trominal.Teams.Joining.{name_length}
use trominal.Teams.Creation
use trominal.Teams.Creation.{ClientTeamCreateRequest, CreatedTeam, CreateApi, create_team_on_server}
use trominal.Teams.Creation.Verified.{IsSealed, create_team_on_server-IsSealed}

abbrev team_key : Bytes
team_key = replicate 32 7

abbrev wrap_key : Bytes
wrap_key = replicate 32 3

abbrev nonce : Bytes
nonce = replicate 24 4

abbrev owner : Bytes
owner = replicate 32 9

abbrev server : CreateApi
server = record {
  get_server_info =
      some (record { team_client_member_ids = true; team_member_key_version_guard = true });
  create_team = λ request. some (record { id = request.id; current_member_id = request.member_id });
}

abbrev team : CreatedTeam
team = record { id = codes "t"; current_member_id = codes "m" }

created_run :
    create_team_on_server toy wrap_key nonce nonce team_key
      (codes "t")
      (codes "m")
      server
      (codes " Ops ")
      owner
    ≡ record { result = ok team; wiped = team_key ∷ [] }
unfolding create_team_on_server Creation.create_team_payload Shared.text_eq Shared.trim
    Shared.trim_start Shared.decimal Envelope.make_ad Envelope.encrypt TeamKey.wrap_team_key
    TeamKey.assert_bytes TeamKey.join_payload TeamKey.make_team_key_ad TeamKey.assert_context
created_run = refl

blank_run :
    create_team_on_server toy wrap_key nonce nonce team_key
      (codes "t")
      (codes "m")
      server
      (codes "  ")
      owner
    ≡ record { result = err name_length; wiped = [] }
unfolding create_team_on_server Creation.create_team_payload Shared.trim Shared.trim_start
blank_run = refl

create_team_on_server-IsSealed_example :
    (payload : ClientTeamCreateRequest) × (IsSealed toy wrap_key nonce nonce team_key
      (codes "t")
      (codes "m")
      (trim (codes " Ops "))
      owner
      payload)
    × (server.create_team payload ≡ some team)
    × (team.id ≡ codes "t")
    × (team.current_member_id ≡ codes "m")
    × (1 ≤ length (trim (codes " Ops ")))
    × (length (trim (codes " Ops ")) ≤ 120)
    × ((create_team_on_server toy wrap_key nonce nonce team_key
          (codes "t")
          (codes "m")
          server
          (codes " Ops ")
          owner).wiped
        ≡ team_key ∷ [])
create_team_on_server-IsSealed_example =
    create_team_on_server-IsSealed toy wrap_key nonce nonce team_key (codes "t") (codes "m") server
      (codes " Ops ") owner (cc created_run)
