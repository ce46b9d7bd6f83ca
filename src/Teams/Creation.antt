-- ===== src/Teams/Creation.antt =====
-- apps/client/src/features/teams/create-team.ts. The server, the new ids and the random bytes are
-- parameters; the buffer of the new team key comes back when it is zeroed.
pub mod Verified
mod Tests
use trominal.Shared.{
  Bool, ◌&&◌, ◌||◌, not, List, [], ◌∷◌, Option, none, some, Text, Bytes, codes, text_eq, trim,
  length, ltb, ◌==◌, if◌then◌else◌,
}
use trominal.Shared.Results.{Result, ok, err, ◌>>=◌, ◌>>◌, require, or_throw}
use trominal.Crypto.Sodium.{Sodium}
use trominal.Crypto.Envelope.{Envelope, make_ad, encrypt}
use trominal.Crypto.TeamKey.{WrappedTeamKey, wrap_team_key}
use trominal.Teams.Joining.{
  ServerInfo, JoinError, old_server, name_length, unexpected_team, api_failed, crypto_step,
  wrap_step, context,
}

pub record ClientTeamCreateRequest : Type 0 where
  pub id : Text
  pub member_id : Text
  pub name : Envelope
  pub wrapped : WrappedTeamKey

pub record CreatedTeam : Type 0 where
  pub id : Text
  pub current_member_id : Text

pub record CreateApi : Type 0 where
  pub get_server_info : Option ServerInfo
  pub create_team : ClientTeamCreateRequest → Option CreatedTeam

pub record Creation (A : Type 0) : Type 0 where
  pub result : Result JoinError A
  pub wiped : List Bytes

-- `trimmed.length` between 1 and 120
abbrev pub is_team_name : Text → Bool
is_team_name name = not ((length name == 0) || ltb 120 (length name))

module _ (sodium : Sodium) (wrap_key wrap_nonce name_nonce team_key : Bytes)
    (new_id new_member_id : Text) where
  -- The body of the `try`; its key is zeroed on every path.
  abbrev pub sealed_team : Text → Bytes → Result JoinError ClientTeamCreateRequest
  sealed_team name owner_public_key = do
    ad ← (crypto_step (make_ad (codes "team") new_id))
    encrypted_name ← (crypto_step (encrypt sodium (sodium.utf8_encode name) team_key ad name_nonce))
    wrapped ←
        (wrap_step
          (wrap_team_key sodium wrap_key wrap_nonce team_key owner_public_key
            (context sodium wrap_key wrap_nonce new_member_id new_id 1)).result)
    ok (record { id = new_id; member_id = new_member_id; name = encrypted_name; wrapped = wrapped })

  unfoldable pub create_team_payload : Text → Bytes → Creation ClientTeamCreateRequest
  create_team_payload name owner_public_key =
      if is_team_name (trim name)
      then record { result = sealed_team (trim name) owner_public_key; wiped = team_key ∷ [] }
      else record { result = err name_length; wiped = [] }

  abbrev pub is_created : ClientTeamCreateRequest → CreatedTeam → Bool
  is_created payload team =
      text_eq team.id payload.id && text_eq team.current_member_id payload.member_id

  abbrev pub verified : CreateApi → ClientTeamCreateRequest → Result JoinError CreatedTeam
  verified api payload = do
    team ← or_throw (api.create_team payload) api_failed
    require (is_created payload team) unexpected_team
    ok team

  abbrev pub create_on : CreateApi → Option ServerInfo → Text → Bytes → Creation CreatedTeam
  create_on api none name owner_public_key = record { result = err api_failed; wiped = [] }
  create_on api (some info) name owner_public_key =
      let prepared = create_team_payload name owner_public_key in
      if info.team_client_member_ids
      then record { result = prepared.result >>= verified api; wiped = prepared.wiped }
      else record { result = err old_server; wiped = [] }

  unfoldable pub create_team_on_server : CreateApi → Text → Bytes → Creation CreatedTeam
  create_team_on_server api name owner_public_key =
      create_on api api.get_server_info name owner_public_key
