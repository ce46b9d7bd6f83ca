-- ===== src/Teams/Joining.antt =====
-- apps/client/src/features/teams/invite-member.ts. The server, the new id, the random bytes and the
-- answers of `isCurrent` are parameters.
pub mod Verified
mod Tests
use trominal.Shared.{ℕ, Bool, true, false, ◌&&◌, Option, Text, Bytes, text_eq, trim}
use trominal.Shared.Results.{Result, ok, err}
use trominal.Json.{Number, nat}
use trominal.Crypto.Sodium.{Sodium}
use trominal.Crypto.KdfParams.{number_is}
use trominal.Crypto.Envelope
use trominal.Crypto.Envelope.{Envelope}
use trominal.Crypto.TeamKey
use trominal.Crypto.TeamKey.{TeamKeyWrapContext, WrappedTeamKey, wrap_team_key}
use trominal.Teams.Checks.{M, ◌>>=◌, ◌>>◌, pure, lift, guard, from_option, check}

pub data TeamRole : Type 0 where
  owner admin member viewer : TeamRole

abbrev pub role_eq : TeamRole → TeamRole → Bool
role_eq owner owner = true
role_eq admin admin = true
role_eq member member = true
role_eq viewer viewer = true
role_eq _ _ = false

pub record TeamUserKey : Type 0 where
  pub id : Text
  pub public_key : Text

pub record MemberPayload : Type 0 where
  pub member_id : Text
  pub expected_key_version : ℕ
  pub user_id : Text
  pub role : TeamRole
  pub wrapped : WrappedTeamKey

pub record TeamMemberDto : Type 0 where
  pub id : Text
  pub user_id : Text
  pub role : TeamRole
  pub key_version : Number

-- The two flags of the server that the code asks for, `=== true`.
pub record ServerInfo : Type 0 where
  pub team_client_member_ids : Bool
  pub team_member_key_version_guard : Bool

pub record InviteApi : Type 0 where
  pub get_server_info : Option ServerInfo
  pub lookup_team_user : Text → Option TeamUserKey
  pub add_team_member : Text → MemberPayload → Option TeamMemberDto

pub data JoinError : Type 0 where
  workspace_changed old_server unexpected_membership invalid_base64 name_length unexpected_team
        api_failed :
      JoinError
  crypto : Envelope.Error → JoinError
  not_wrapped : TeamKey.Error → JoinError

abbrev pub wrap_step : {A : Type 0} → Result TeamKey.Error A → Result JoinError A
wrap_step (ok a) = ok a
wrap_step (err e) = err (not_wrapped e)

abbrev pub crypto_step : {A : Type 0} → Result Envelope.Error A → Result JoinError A
crypto_step (ok a) = ok a
crypto_step (err e) = err (crypto e)

module _ (sodium : Sodium) (wrap_key wrap_nonce : Bytes) (new_member_id : Text) where
  abbrev pub context : Text → ℕ → TeamKeyWrapContext
  context team_id key_version = record {
    team_id = team_id;
    member_id = new_member_id;
    key_version = nat key_version;
  }

  abbrev pub payload_of : ℕ → Text → TeamRole → WrappedTeamKey → MemberPayload
  payload_of key_version user_id role wrapped = record {
    member_id = new_member_id;
    expected_key_version = key_version;
    user_id = user_id;
    role = role;
    wrapped = wrapped;
  }

  unfoldable pub create_member_payload :
      Text → ℕ → Bytes → Text → Bytes → TeamRole → M JoinError MemberPayload
  create_member_payload team_id key_version team_key user_id public_key role = do
    wrapped ← lift (
        wrap_step
          (wrap_team_key sodium wrap_key wrap_nonce team_key public_key
            (context team_id key_version)).result)
    pure (payload_of key_version user_id role wrapped)

  abbrev pub is_expected : MemberPayload → TeamMemberDto → Bool
  is_expected payload joined =
      text_eq joined.id payload.member_id
      && number_is joined.key_version payload.expected_key_version
      && text_eq joined.user_id payload.user_id
      && role_eq joined.role payload.role

  unfoldable pub invite_member :
      InviteApi → (ℕ → Bool) → Text → ℕ → Bytes → Text → TeamRole → M JoinError TeamMemberDto
  unfolding create_member_payload
  invite_member api current team_id key_version team_key email role = do
    check current workspace_changed
    info ← from_option api.get_server_info api_failed
    guard (info.team_client_member_ids && info.team_member_key_version_guard) old_server
    check current workspace_changed
    user ← from_option (api.lookup_team_user (trim email)) api_failed
    check current workspace_changed
    public_key ← from_option (sodium.from_base64 user.public_key) invalid_base64
    payload ← create_member_payload team_id key_version team_key user.id public_key role
    check current workspace_changed
    joined ← from_option (api.add_team_member team_id payload) api_failed
    guard (is_expected payload joined) unexpected_membership
    pure joined
