-- ===== src/Vault/Records/Tests.antt =====
-- Runs of the record code on the toy cipher, and its properties at concrete inputs.
use trominal.Shared.{false, [], Option, none, some, Text, Bytes, codes, replicate, ◌≡◌, ◌≢◌, refl}
use trominal.Shared
use trominal.Shared.Results.{Result, ok, err}
use trominal.Json.{string, Fields, field, end, get, put}
use trominal.Crypto.Toy
use trominal.Crypto.Toy.{toy, toy-IsCodec, toy-IsCorrect}
use trominal.Crypto.Envelope
use trominal.Crypto.Envelope.Binding.{NoColon}
use trominal.Vault.Records
use trominal.Vault.Records.{
  hosts, personal_record_ad, team_record_ad, scoped_ad, record_ad, relation_field, decrypt_text,
  encrypt_text,
}
use trominal.Vault.Records.Binding.{scoped_ad_injective}
use trominal.Vault.Records.RoundTrip.{echo, HasTeamId, decrypt_text-encrypt_text_other}
use trominal.Vault.Records.Credentials.{HostCredentialInput, encrypt_host_credential_input}
use trominal.Vault.Records.Credentials.RoundTrip.{differ}

abbrev key : Bytes
key = replicate 32 7

abbrev fresh : Bytes
fresh = replicate 24 1

abbrev team_payload : Fields
team_payload = field (codes "team_id") (string (codes "t")) end

team_ad : scoped_ad hosts (codes "42") (some (codes "t")) ≡ ok (codes "trominal:v1:team_host:42:t")
unfolding team_record_ad Envelope.make_ad
team_ad = refl

personal_ad : scoped_ad hosts (codes "42") none ≡ ok (codes "trominal:v1:host:42")
unfolding personal_record_ad Envelope.make_ad
personal_ad = refl

digits-NoColon : NoColon (codes "42")
digits-NoColon = ((λ e. cc e), ((λ e. cc e), tt))

scoped_ad_injective_example :
    (hosts ≡ hosts)
    × (codes "42" ≡ codes "42")
    × (◌≡◌ {A = Option Text} (some (codes "t")) (some (codes "t")))
scoped_ad_injective_example =
    scoped_ad_injective hosts hosts (codes "42") (codes "42") (some (codes "t")) (some (codes "t"))
      digits-NoColon digits-NoColon team_ad team_ad

abbrev sealed : Envelope.Envelope
sealed = Envelope.sealed_envelope toy (codes "db") key (codes "trominal:v1:team_host:42:t") fresh

abbrev after_name : Fields
after_name = field (codes "team_id") (string (codes "t")) (
    field (codes "name_ciphertext") (string (sealed.ct))
      (field (codes "name_nonce") (string sealed.n) end))

scope : HasTeamId team_payload
unfolding get Shared.text_eq
scope = refl

encrypt_run :
    encrypt_text toy fresh team_payload key hosts (codes "42") (codes "name") (codes "db") false
    ≡ ok after_name
unfolding encrypt_text team_record_ad Envelope.make_ad Envelope.encrypt put get Shared.text_eq
encrypt_run = refl

decrypt_run :
    decrypt_text toy (echo (codes "42") none after_name) key hosts (codes "name") ≡ ok (codes "db")
unfolding decrypt_text record_ad relation_field team_record_ad Envelope.make_ad Envelope.decrypt
    Envelope.decrypt_to_string get Records.string_field Shared.text_eq Toy.strip Toy.unframe
decrypt_run = refl

apart : codes "name" ≢ codes "port"
unfolding Shared.text_eq
apart = differ (codes "name") (codes "port") refl

decrypt_text-encrypt_text_other_example :
    decrypt_text toy (echo (codes "42") none after_name) key hosts (codes "port")
    ≡ decrypt_text toy (echo (codes "42") none team_payload) key hosts (codes "port")
decrypt_text-encrypt_text_other_example =
    decrypt_text-encrypt_text_other toy toy-IsCodec toy-IsCorrect fresh key team_payload hosts
      (codes "42") (codes "name") (codes "db") none refl scope false (codes "port") apart
      encrypt_run

abbrev input : HostCredentialInput
input = record {
  host_id = some (codes "h");
  identity_id = none;
  label = codes "root";
  username = codes "root";
  password = codes "  ";
  private_key_passphrase = [];
}

-- The payload of the credential, computed.
payload_of : Result Envelope.Error Fields → Fields
payload_of (ok payload) = payload
payload_of (err e) = end

abbrev encrypted : Result Envelope.Error Fields
encrypted = encrypt_host_credential_input toy (λ name. fresh) (codes "42") key input none
