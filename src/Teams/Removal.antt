-- ===== src/Teams/Removal.antt =====
-- apps/client/src/features/teams/remove-member.ts. The server, the random bytes and the answers of
-- `isCurrent` are parameters; the buffer of the new key comes back beside the result when it is zeroed.
pub mod Sending
mod Tests
pub mod Members
pub mod Records
pub mod Unwrapping
use trominal.Shared.{
  ℕ, ◌+◌, Bool, List, [], ◌∷◌, ◌++◌, any, Option, none, some, Text, Bytes, codes, text_eq,
  if◌then◌else◌,
}
use trominal.Shared.Results.{Result, ok, err}
use trominal.Json.{Number, nat}
use trominal.Crypto.Sodium.{Sodium}
use trominal.Crypto.KdfParams.{number_is}
use trominal.Crypto.Envelope
use trominal.Crypto.Envelope.{Envelope, make_ad, encrypt, decrypt}
use trominal.Crypto.TeamKey
use trominal.Crypto.TeamKey.{TeamKeyWrapContext, WrappedTeamKey, wrap_team_key}
use trominal.Vault.Records.{
  Resource, groups, hosts, host_credentials, snippets, identities, tunnels, VaultRecord,
}
use trominal.Teams.Checks.{M, Did, ◌>>=◌, ◌>>◌, pure, lift, guard, from_option, check}
use trominal.Teams.Record.{TeamRecordError, TeamReencryptedResource, rotate_team_record}

abbrev pub resources : List Resource
resources = groups ∷ hosts ∷ host_credentials ∷ snippets ∷ identities ∷ tunnels ∷ []

pub record Team : Type 0 where
  pub id : Text
  pub key_version : Number
  pub name_ciphertext : Text
  pub name_nonce : Text

-- `public_key` is `member.user?.public_key`.
pub record TeamMember : Type 0 where
  pub id : Text
  pub public_key : Option Text

pub record RemainingMember : Type 0 where
  pub member_id : Text
  pub wrapped : WrappedTeamKey

pub record RemoveTeamMemberRequest : Type 0 where
  pub expected_key_version : ℕ
  pub expected_name_ciphertext : Text
  pub expected_name_nonce : Text
  pub name : Envelope
  pub remaining_members : List RemainingMember
  pub reencrypted_resources : List TeamReencryptedResource

-- `none` where a request throws. The records come with the type that each of them names.
pub record RemovalApi : Type 0 where
  pub get_server_info : Option Bool
  pub get_team : Text → Option Team
  pub list_team_members : Text → Option (List TeamMember)
  pub list_vault_records : Resource → Text → Option (List (Resource × VaultRecord))
  pub remove_team_member : Text → Text → RemoveTeamMemberRequest → Option (Unit {0})

-- The random bytes: the team key, and what the encryptions and the wrappings draw.
pub record Fresh : Type 0 where
  pub team_key : Bytes
  pub name_nonce : Bytes
  pub wrap_key : Text → Bytes
  pub wrap_nonce : Text → Bytes
  pub field_nonce : Resource → Text → Text → Bytes

pub data RemovalError : Type 0 where
  workspace_changed old_server key_changed not_a_member no_public_key invalid_base64 api_failed :
      RemovalError
  crypto : Envelope.Error → RemovalError
  not_wrapped : TeamKey.Error → RemovalError
  not_rotated : TeamRecordError → RemovalError

abbrev pub crypto_step : {A : Type 0} → Result Envelope.Error A → Result RemovalError A
crypto_step (ok a) = ok a
crypto_step (err e) = err (crypto e)

abbrev pub wrap_step : {A : Type 0} → Result TeamKey.Error A → Result RemovalError A
wrap_step (ok a) = ok a
wrap_step (err e) = err (not_wrapped e)

abbrev pub record_step : {A : Type 0} → Result TeamRecordError A → Result RemovalError A
record_step (ok a) = ok a
record_step (err e) = err (not_rotated e)

-- Missing and empty count as absent.
abbrev pub public_key_of : Option Text → Result RemovalError Text
public_key_of (some (c ∷ s)) = ok (c ∷ s)
public_key_of _ = err no_public_key

abbrev pub decoded : Option Bytes → Result RemovalError Bytes
decoded (some bytes) = ok bytes
decoded none = err invalid_base64

pub record Removal : Type 0 where
  pub result : Result RemovalError (Did (Unit {0}))
  pub request : Option (Did RemoveTeamMemberRequest)
  pub wiped : List Bytes

module _ (sodium : Sodium) (api : RemovalApi) (fresh : Fresh) (current : ℕ → Bool)
    (team_id member_id : Text) (version : ℕ) (old_key : Bytes) where
  abbrev pub checked : M RemovalError (Unit {0})
  checked = check current workspace_changed

  -- What precedes the new key.
  unfoldable pub guards : M RemovalError (Team × List TeamMember)
  guards = do
    checked
    info ← from_option api.get_server_info api_failed
    checked
    guard info old_server
    team ← from_option (api.get_team team_id) api_failed
    checked
    guard (text_eq team.id team_id) key_changed
    guard (number_is team.key_version version) key_changed
    members ← from_option (api.list_team_members team_id) api_failed
    checked
    guard (any (λ member. text_eq member.id member_id) members) not_a_member
    pure (team, members)

  abbrev pub wrap_context : Text → TeamKeyWrapContext
  wrap_context member = record {
    team_id = team_id;
    member_id = member;
    key_version = nat (version + 1);
  }

  abbrev pub wrap_member : TeamMember → M RemovalError RemainingMember
  wrap_member member = do
    checked
    public_key ← lift (public_key_of member.public_key)
    recipient ← lift (decoded (sodium.from_base64 public_key))
    wrapped ← lift (
        wrap_step
          (wrap_team_key sodium (fresh.wrap_key member.id) (fresh.wrap_nonce member.id)
            fresh.team_key recipient (wrap_context member.id)).result)
    pure (record { member_id = member.id; wrapped = wrapped })

  unfoldable pub wrap_members : List TeamMember → M RemovalError (List RemainingMember)
  wrap_members [] = pure []
  wrap_members (member ∷ members) =
      let rest = wrap_members members in
      if text_eq member.id member_id
      then rest
      else do first ← wrap_member member; others ← rest; pure (first ∷ others)

  unfoldable pub rotate_records :
      List (Resource × VaultRecord) → M RemovalError (List TeamReencryptedResource)
  rotate_records [] = pure []
  rotate_records ((resource, row) ∷ rows) = do
    checked
    item ← lift (
        record_step (
          rotate_team_record sodium resource row team_id old_key fresh.team_key
            (fresh.field_nonce resource row.id)))
    items ← rotate_records rows
    pure (item ∷ items)

  unfoldable pub rotate_all : List Resource → M RemovalError (List TeamReencryptedResource)
  rotate_all [] = pure []
  rotate_all (resource ∷ types) = do
    checked
    rows ← from_option (api.list_vault_records resource team_id) api_failed
    items ← rotate_records rows
    rest ← rotate_all types
    pure (items ++ rest)

  -- The body of the `try`, up to the last request.
  unfoldable pub prepare : Team × List TeamMember → M RemovalError RemoveTeamMemberRequest
  prepare (team, members) = do
    checked
    ad ← lift (crypto_step (make_ad (codes "team") team_id))
    name ← lift (
        crypto_step (
          decrypt sodium (record { v = 1; ct = team.name_ciphertext; n = team.name_nonce }) old_key
            ad))
    checked
    encrypted_name ← lift (crypto_step (encrypt sodium name fresh.team_key ad fresh.name_nonce))
    remaining ← wrap_members members
    rotated ← rotate_all resources
    checked
    pure (record {
      expected_key_version = version;
      expected_name_ciphertext = team.name_ciphertext;
      expected_name_nonce = team.name_nonce;
      name = encrypted_name;
      remaining_members = remaining;
      reencrypted_resources = rotated;
    })

  -- `finally { wipe(newKey) }` on every path past the guards.
  abbrev pub submitted : Result RemovalError (Did RemoveTeamMemberRequest) → Removal
  submitted (err e) = record { result = err e; request = none; wiped = fresh.team_key ∷ [] }
  submitted (ok did) = record {
    result = from_option (api.remove_team_member team_id member_id did.value) api_failed did.calls;
    request = some did;
    wiped = fresh.team_key ∷ [];
  }

  abbrev pub guarded : Result RemovalError (Did (Team × List TeamMember)) → Removal
  guarded (err e) = record { result = err e; request = none; wiped = [] }
  guarded (ok did) = submitted (prepare did.value did.calls)

  unfoldable pub remove_member_with_rotation : Removal
  remove_member_with_rotation = guarded (guards 0)
