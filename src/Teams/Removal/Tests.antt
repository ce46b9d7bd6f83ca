-- ===== src/Teams/Removal/Tests.antt =====
-- The removal of a member on the toy cipher (apps/client/src/features/teams/remove-member.ts).
use trominal.Shared.{
  Bool, ltb, ◌++◌, ℕ, true, List, [], ◌∷◌, none, some, Text, Bytes, codes, replicate, ◌≡◌, ◌≢◌,
  refl, inl, inr, In, All, Distinct, arith,
}
use trominal.Shared
use trominal.Shared.Results.{ok, err}
use trominal.Json
use trominal.Json.{nat, string, field, end}
use trominal.Json.Entries
use trominal.Crypto.Toy
use trominal.Crypto.Toy.{toy, toy-IsCodec, toy-IsCorrect, toy-IsSealing}
use trominal.Crypto.Envelope
use trominal.Crypto.Envelope.{sealed_envelope}
use trominal.Crypto.TeamKey
use trominal.Crypto.TeamKey.{X25519KeyPair, make_team_key_ad, unwrap_team_key}
use trominal.Crypto.TeamKey.RoundTrip.{IsWellSized}
use trominal.Vault.Records
use trominal.Vault.Records.{Resource, hosts, VaultRecord, record_ad}
use trominal.Vault.Rotation
use trominal.Teams.Checks.{Did}
use trominal.Teams.Record.{TeamReencryptedResource, is_team, rotate_team_record}
use trominal.Teams.Record.Reading.{IsCarriedOver}
use trominal.Teams.Removal
use trominal.Teams.Removal.{
  Team, TeamMember, RemainingMember, RemoveTeamMemberRequest, RemovalApi, Fresh, wrap_context,
  workspace_changed, remove_member_with_rotation,
}
use trominal.Teams.Removal.Sending.{request-current}
use trominal.Teams.Removal.Members.{IsGuarded, AreWrapped, staying, remaining_members-AreWrapped}
use trominal.Teams.Removal.Unwrapping.{next_context, remaining_members-unwrap}
use trominal.Teams.Removal.Records.{reencrypted_resources-reads}

abbrev old_key : Bytes
old_key = replicate 32 7

abbrev next_key : Bytes
next_key = replicate 32 8

abbrev keys : X25519KeyPair
keys = record { public_key = replicate 32 9; private_key = replicate 32 10 }

abbrev team_ad : Text
team_ad = codes "trominal:v1:team:t"

abbrev host_ad : Text
host_ad = codes "trominal:v1:team_host:42:t"

abbrev nonce : Bytes
nonce = replicate 24 1

abbrev team : Team
team = record {
  id = codes "t";
  key_version = nat 1;
  name_ciphertext = (sealed_envelope toy (codes "Ops") old_key team_ad nonce).ct;
  name_nonce = nonce;
}

abbrev stays : TeamMember
stays = record { id = codes "a"; public_key = some (replicate 32 9) }

abbrev leaves : TeamMember
leaves = record { id = codes "b"; public_key = none }

abbrev ct : Text
ct = (sealed_envelope toy (codes "db") old_key host_ad nonce).ct

abbrev row : VaultRecord
row = record {
  id = codes "42";
  updated_at = none;
  columns =
      field (codes "team_id") (string (codes "t")) (
        field (codes "name_ciphertext") (string ct)
          (field (codes "name_nonce") (string nonce) end));
}

abbrev rows : Resource → List (Resource × VaultRecord)
rows hosts = (hosts, row) ∷ []
rows _ = []

abbrev api : RemovalApi
api = record {
  get_server_info = some true;
  get_team = λ id. some team;
  list_team_members = λ id. some (leaves ∷ stays ∷ []);
  list_vault_records = λ type id. some (rows type);
  remove_team_member = λ team member request. some tt;
}

abbrev fresh : Fresh
fresh = record {
  team_key = next_key;
  name_nonce = replicate 24 2;
  wrap_key = λ member. replicate 32 3;
  wrap_nonce = λ member. replicate 24 4;
  field_nonce = λ resource id base. replicate 24 5;
}

abbrev item : TeamReencryptedResource
item = record {
  resource = hosts;
  id = codes "42";
  original_fields =
      field (codes "name_ciphertext") (string ct) (field (codes "name_nonce") (string nonce) end);
  fields =
      field (codes "name_ciphertext")
        (string (sealed_envelope toy (codes "db") next_key host_ad (replicate 24 5)).ct)
        (field (codes "name_nonce") (string (replicate 24 5)) end);
}

abbrev request : Did RemoveTeamMemberRequest
request = record {
  value = record {
    expected_key_version = 1;
    expected_name_ciphertext = team.name_ciphertext;
    expected_name_nonce = nonce;
    name = sealed_envelope toy (codes "Ops") next_key team_ad (replicate 24 2);
    remaining_members =
        record {
          member_id = codes "a";
          wrapped = record {
            ciphertext =
                codes "TRTK1"
                ++ (toy.box_seal (replicate 32 3) (replicate 32 9)
                    ++ toy.aead_encrypt next_key (codes "trominal:v1:team_key:t:member:a:v2")
                        (replicate 24 4) (replicate 32 3));
            nonce = replicate 24 4;
          };
        }
        ∷ [];
    reencrypted_resources = item ∷ [];
  };
  calls = 15;
}

abbrev always : ℕ → Bool
always k = true

stale_run :
    (remove_member_with_rotation toy api fresh
      (λ k. ltb k 5)
      (codes "t")
      (codes "b")
      1
      old_key).result
    ≡ err workspace_changed
unfolding remove_member_with_rotation Removal.guards Removal.prepare Shared.text_eq Envelope.make_ad
    Envelope.decrypt Toy.unframe Toy.strip
stale_run = refl

ad_run :
    make_team_key_ad
      (wrap_context toy api fresh always (codes "t") (codes "b") 1 old_key (codes "a"))
    ≡ ok (codes "trominal:v1:team_key:t:member:a:v2")
unfolding make_team_key_ad TeamKey.assert_context Envelope.make_ad Shared.trim Shared.trim_start
    Shared.text_eq Shared.decimal
ad_run = refl

sent_run :
    (remove_member_with_rotation toy api fresh always (codes "t") (codes "b") 1 old_key).request
    ≡ some request
unfolding remove_member_with_rotation Removal.guards Removal.prepare Removal.wrap_members
    Removal.rotate_records Removal.rotate_all rotate_team_record record_ad Records.relation_field
    Records.team_record_ad Entries.for_entries Rotation.strip_suffix Shared.text_eq Json.get
    Json.put Envelope.make_ad Envelope.decrypt Envelope.encrypt Toy.unframe Toy.strip
    TeamKey.wrap_team_key TeamKey.assert_bytes TeamKey.join_payload make_team_key_ad
    TeamKey.assert_context Shared.trim Shared.trim_start Shared.decimal
sent_run = refl

request-current_run : always 14 ≡ true
request-current_run =
    request-current toy api fresh always (codes "t") (codes "b") 1 old_key 14 sent_run (omega arith)

remaining_members-AreWrapped_example :
    (found : Team) × (members : List TeamMember) × IsGuarded toy api fresh always
      (codes "t")
      (codes "b")
      1
      old_key
      (found, members)
    × AreWrapped toy api fresh always
        (codes "t")
        (codes "b")
        1
        old_key
        (staying toy api fresh always (codes "t") (codes "b") 1 old_key members)
        request.value.remaining_members
    × All (λ r. r.member_id ≢ codes "b") request.value.remaining_members
    × (request.value.expected_key_version ≡ 1)
    × (request.value.expected_name_ciphertext ≡ found.name_ciphertext)
    × (request.value.expected_name_nonce ≡ found.name_nonce)
remaining_members-AreWrapped_example =
    remaining_members-AreWrapped toy api fresh always (codes "t") (codes "b") 1 old_key sent_run

sizes : IsWellSized keys (replicate 32 3) (replicate 24 4)
sizes = record {
  public_length = refl;
  private_length = refl;
  wrap_length = refl;
  nonce_length = refl;
}

apart : codes "a" ≢ codes "b"
unfolding Shared.text_eq
apart e = cc ((Shared.text_eq_iff (codes "a") (codes "b")).1 e)

remaining_members-unwrap_example :
    (r : RemainingMember) × In r request.value.remaining_members
    × (r.member_id ≡ codes "a")
    × ((unwrap_team_key toy r.wrapped keys (next_context (codes "t") 2 (codes "a"))).result
        ≡ ok next_key)
remaining_members-unwrap_example =
    remaining_members-unwrap toy api fresh always (codes "t") (codes "b") 1 old_key toy-IsCodec
      toy-IsCorrect (leaves ∷ stays ∷ []) stays (replicate 32 9)
      (codes "trominal:v1:team_key:t:member:a:v2") keys sent_run refl (inr (inl refl)) apart refl
      refl ad_run (toy-IsSealing keys.public_key keys.private_key) sizes refl

row-Distinct : Distinct (Json.keys row.columns)
unfolding Json.keys
row-Distinct = (((λ e. cc e), ((λ e. cc e), tt)), (((λ e. cc e), tt), (tt, tt)))

found_run : Json.get (codes "name_ciphertext") row.columns ≡ some (string ct)
unfolding Json.get Shared.text_eq
found_run = refl

reencrypted_resources-reads_example :
    (made : TeamReencryptedResource) × (ad : Text) × In made request.value.reencrypted_resources
    × (made.resource ≡ hosts)
    × (made.id ≡ codes "42")
    × (is_team (Json.get (codes "team_id") row.columns) (codes "t") ≡ true)
    × (record_ad row hosts ≡ ok ad)
    × IsCarriedOver toy old_key next_key
        (λ base. replicate 24 5)
        ad
        row.columns
        (codes "name")
        ct
        (record { fields = made.fields; original_fields = made.original_fields })
reencrypted_resources-reads_example =
    reencrypted_resources-reads toy api fresh always (codes "t") (codes "b") 1 old_key toy-IsCodec
      toy-IsCorrect (λ resource id base. refl) hosts hosts ((hosts, row) ∷ []) row (codes "name") ct
      sent_run (inr (inl refl)) refl (inl refl) row-Distinct found_run
