-- ===== src/Vault/Rotation/MasterPassword/Tests.antt =====
-- A change of the master password on the toy cipher (apps/client/src/features/vault/rotation.ts).
use trominal.Shared.{
  true, false, List, [], ◌∷◌, none, some, Text, Bytes, codes, replicate, ◌≡◌, ◌*◌, refl, inl, In,
  Distinct,
}
use trominal.Shared
use trominal.Shared.Results.{ok, err}
use trominal.Json
use trominal.Json.{nat, number, string, object, Fields, field, end}
use trominal.Json.Order
use trominal.Crypto.Toy
use trominal.Crypto.Toy.{toy, toy-IsCodec, toy-IsCorrect}
use trominal.Crypto.KdfParams
use trominal.Crypto.KdfParams.{Argon2id}
use trominal.Crypto.Envelope
use trominal.Crypto.Envelope.{sealed_envelope}
use trominal.Session.VaultStore.{UserVaultMaterial}
use trominal.Vault.Records
use trominal.Vault.Records.{Resource, hosts, VaultRecord, personal_record_ad}
use trominal.Vault.PrivateKey
use trominal.Vault.PrivateKey.{OpenedPrivateKey, open_user_private_key, unlock}
use trominal.Vault.Rotation
use trominal.Vault.Rotation.{MasterPasswordChangeItem, re_encrypt_record, team_record}
use trominal.Vault.Rotation.Reading.{ReadsTheSame}
use trominal.Vault.Rotation.MasterPassword.{
  MasterPasswordChangeRequest, RotationApi, Fresh, RotateMasterPasswordInput, re_encrypt_list,
  re_encrypt_all, current_key, new_key, rotate_master_password,
}
use trominal.Vault.Rotation.MasterPassword.Settling.{IsSettled, rotate_master_password-IsSettled}
use trominal.Vault.Rotation.MasterPassword.Unlocking.{
  stored_material, unlock-rotate_master_password,
}
use trominal.Vault.Rotation.MasterPassword.Records.{rotate_master_password-reads}

abbrev pwhash : Argon2id
pwhash out_len (c ∷ password) salt opslimit memlimit = replicate 32 c
pwhash out_len [] salt opslimit memlimit = replicate 32 0

abbrev params : Fields
params = field (codes "version") (number (nat 1)) (
    field (codes "alg") (string (codes "argon2id")) (
      field (codes "memlimit") (number (nat (64 * 1024 * 1024))) (
        field (codes "opslimit") (number (nat 3)) (
          field (codes "salt_len") (number (nat 16))
            (field (codes "out_len") (number (nat 32)) end)))))

abbrev old_key : Bytes
old_key = replicate 32 b'o'

abbrev next_key : Bytes
next_key = replicate 32 b'n'

abbrev private_key : Bytes
private_key = replicate 32 3

abbrev nonce : Bytes
nonce = replicate 24 1

abbrev private_ad : Text
private_ad = codes "trominal:v1:user_private_key:7"

abbrev host_ad : Text
host_ad = codes "trominal:v1:host:42"

abbrev material : UserVaultMaterial
material = record {
  kdf_salt = replicate 16 5;
  kdf_params = object params;
  private_key_ciphertext = (sealed_envelope toy private_key old_key private_ad nonce).ct;
  private_key_nonce = nonce;
  vault_version = none;
}

abbrev row : VaultRecord
row = record {
  id = codes "42";
  updated_at = some (codes "now");
  columns =
      field (codes "name_ciphertext")
        (string ((sealed_envelope toy (codes "db") old_key host_ad nonce).ct))
        (field (codes "name_nonce") (string nonce) end);
}

abbrev rows : Resource → List VaultRecord
rows hosts = row ∷ []
rows _ = []

abbrev api : RotationApi
api = record {
  list_vault_records = λ resource. some (rows resource);
  change_master_password = λ request. some (record { vault = material; vault_version = 2 });
}

abbrev fresh : Fresh
fresh = record {
  salt = replicate 16 9;
  private_key_nonce = replicate 24 2;
  field_nonce = λ resource id base. replicate 24 4;
}

abbrev input : RotateMasterPasswordInput
input = record {
  owner = record { id = codes "7"; email = codes "a@b.c" };
  material = material;
  vault_version = 1;
  current_master_password = codes "old";
  new_master_password = codes "new";
  current_password = codes "login";
  two_factor_code = none;
  refresh_token = codes "r";
  params = params;
}

abbrev item : MasterPasswordChangeItem
item = record {
  resource = hosts;
  id = codes "42";
  updated_at = some (codes "now");
  fields =
      field (codes "name_ciphertext")
        (string ((sealed_envelope toy (codes "db") next_key host_ad (replicate 24 4)).ct))
        (field (codes "name_nonce") (string (replicate 24 4)) end);
}

abbrev request : MasterPasswordChangeRequest
request = record {
  vault_version = 1;
  current_password = codes "login";
  two_factor_code = none;
  current_refresh_token = codes "r";
  new_kdf_salt = replicate 16 9;
  new_kdf_params = params;
  private_key_ciphertext =
      (sealed_envelope toy private_key next_key private_ad (replicate 24 2)).ct;
  private_key_nonce = replicate 24 2;
  items = item ∷ [];
}

item_run : re_encrypt_record toy hosts row old_key next_key (λ base. replicate 24 4) ≡ ok item
unfolding re_encrypt_record Rotation.re_encrypt_columns Rotation.strip_suffix personal_record_ad
    Envelope.make_ad Envelope.decrypt Envelope.encrypt Json.get Json.put Shared.text_eq Toy.unframe
    Toy.strip
item_run = refl

team_run :
    re_encrypt_record toy hosts
      (record {
        id = codes "42";
        updated_at = none;
        columns = field (codes "team_id") (string (codes "t")) end;
      })
      old_key
      next_key
      (λ base. nonce)
    ≡ err team_record
unfolding re_encrypt_record Json.get Shared.text_eq
team_run = refl

current_run : current_key toy pwhash api fresh input ≡ ok old_key
unfolding KdfParams.derive_vault_key KdfParams.assert_kdf_resource_limits KdfParams.as_kdf_params
    Json.get Shared.text_eq
current_run = refl

new_run : new_key toy pwhash api fresh input ≡ ok next_key
unfolding KdfParams.derive_vault_key KdfParams.assert_kdf_resource_limits KdfParams.as_kdf_params
    Json.get Shared.text_eq
new_run = refl

abbrev opened : OpenedPrivateKey
opened = record { private_key = private_key; legacy = false }

opened_run : open_user_private_key toy material old_key input.owner ≡ ok opened
unfolding open_user_private_key PrivateKey.user_private_key_ad Envelope.make_ad Envelope.decrypt
    Toy.unframe Toy.strip
opened_run = refl

supported_run : KdfParams.is_kdf_params (object params) ≡ true
unfolding KdfParams.is_kdf_params Order.sort Order.text_le Json.keys Json.get Shared.text_eq
supported_run = refl

rotate_run : (rotate_master_password toy pwhash api fresh input).request ≡ some request
unfolding rotate_master_password re_encrypt_list re_encrypt_all KdfParams.is_kdf_params
    KdfParams.derive_vault_key KdfParams.assert_kdf_resource_limits KdfParams.as_kdf_params
    open_user_private_key PrivateKey.user_private_key_ad PrivateKey.seal_user_private_key
    re_encrypt_record Rotation.re_encrypt_columns Rotation.strip_suffix personal_record_ad
    Envelope.make_ad Envelope.decrypt Envelope.encrypt Order.sort Order.text_le Json.keys Json.get
    Json.put Shared.text_eq Toy.unframe Toy.strip
rotate_run = refl

row-Distinct : Distinct (Json.keys row.columns)
unfolding Json.keys
row-Distinct = (((λ e. cc e), tt), (tt, tt))

found_run :
    Records.relation_of (Json.get (codes "name_ciphertext") row.columns)
    ≡ some (sealed_envelope toy (codes "db") old_key host_ad nonce).ct
unfolding Json.get Shared.text_eq
found_run = refl

rotate_master_password-IsSettled_example :
    IsSettled private_key old_key next_key (rotate_master_password toy pwhash api fresh input)
rotate_master_password-IsSettled_example =
    rotate_master_password-IsSettled toy pwhash api fresh input supported_run supported_run
      current_run opened_run new_run

unlock-rotate_master_password_example :
    (current : Bytes) × (new : Bytes) × (o : OpenedPrivateKey) × (current_key toy pwhash api fresh
        input
      ≡ ok current)
    × (open_user_private_key toy material current input.owner ≡ ok o)
    × (new_key toy pwhash api fresh input ≡ ok new)
    × (unlock toy pwhash nonce (codes "new") input.owner (some (stored_material request (some 2)))
        ≡ record { result = ok (record { key = new; rebound = none }); wiped = o.private_key ∷ [] })
unlock-rotate_master_password_example =
    unlock-rotate_master_password toy pwhash api fresh input toy-IsCodec toy-IsCorrect nonce
      (some 2) refl rotate_run

rotate_master_password-reads_example :
    (current : Bytes) × (new : Bytes) × (made : MasterPasswordChangeItem) × (ad : Text)
    × (current_key toy pwhash api fresh input ≡ ok current)
    × (new_key toy pwhash api fresh input ≡ ok new)
    × In made request.items
    × (made.resource ≡ hosts)
    × (made.id ≡ codes "42")
    × (made.updated_at ≡ some (codes "now"))
    × (personal_record_ad hosts (codes "42") ≡ ok ad)
    × ReadsTheSame toy current new
        (λ base. replicate 24 4)
        ad
        row.columns
        (codes "name")
        (sealed_envelope toy (codes "db") old_key host_ad nonce).ct
        made.fields
rotate_master_password-reads_example =
    rotate_master_password-reads toy pwhash api fresh input toy-IsCodec toy-IsCorrect
      (λ resource id base. refl) hosts (row ∷ []) row (codes "name")
      (sealed_envelope toy (codes "db") old_key host_ad nonce).ct rotate_run refl (inl refl)
      row-Distinct found_run
