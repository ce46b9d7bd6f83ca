-- ===== src/Crypto/TeamKey/Tests.antt =====
-- Runs of packages/crypto/src/team-key.ts on the toy cipher, and the properties at concrete inputs.
use trominal.Shared.{Text, Bytes, codes, replicate, [], ◌∷◌, ◌++◌, ◌≡◌, refl, decimal}
use trominal.Shared.Results.{ok, err}
use trominal.Json.{nat, fraction}
use trominal.Crypto.Toy
use trominal.Crypto.TeamKey
use trominal.Crypto.Envelope
use trominal.Crypto.Envelope.Binding.{NoColon}
use trominal.Crypto.Toy.{toy, toy-IsCodec, toy-IsCorrect, toy-IsAuthentic, toy-IsSealing}
use trominal.Crypto.TeamKey.{
  TeamKeyWrapContext, WrappedTeamKey, X25519KeyPair, make_team_key_ad, wrap_team_key,
  unwrap_team_key, wrong_length, invalid_key_version, split_payload, too_short, team_id_required,
  unsupported_payload,
}
use trominal.Crypto.TeamKey.RoundTrip.{
  IsWellSized, wrapped_key, wrap_team_key-wrapped_key, unwrap-wrap_team_key,
}
use trominal.Crypto.TeamKey.Binding.{unwrap_team_key_binds}

abbrev context : TeamKeyWrapContext
context = record { team_id = codes "t"; member_id = codes "m"; key_version = nat 3 }

abbrev ad : Text
ad = codes "trominal:v1:team_key:t:member:m:v3"

abbrev member : X25519KeyPair
member = record { public_key = replicate 32 5; private_key = replicate 32 6 }

abbrev team_key : Bytes
team_key = replicate 32 9

abbrev wrap_key : Bytes
wrap_key = replicate 32 8

abbrev nonce : Bytes
nonce = replicate 24 1

sizes : IsWellSized member wrap_key nonce
sizes = record {
  public_length = refl;
  private_length = refl;
  wrap_length = refl;
  nonce_length = refl;
}

make_team_key_ad_run : make_team_key_ad context ≡ ok ad
unfolding make_team_key_ad TeamKey.assert_context trominal.Shared.text_eq trominal.Shared.trim
    Envelope.make_ad decimal
make_team_key_ad_run = refl

make_team_key_ad_version :
    make_team_key_ad (record { team_id = codes "t"; member_id = codes "m"; key_version = nat 0 })
    ≡ err invalid_key_version
unfolding make_team_key_ad TeamKey.assert_context trominal.Shared.text_eq trominal.Shared.trim
make_team_key_ad_version = refl

make_team_key_ad_blank :
    make_team_key_ad (record { team_id = codes "  "; member_id = codes "m"; key_version = nat 1 })
    ≡ err team_id_required
unfolding make_team_key_ad TeamKey.assert_context trominal.Shared.text_eq trominal.Shared.trim
make_team_key_ad_blank = refl

wrap_team_key_short :
    wrap_team_key toy wrap_key nonce (replicate 16 9) member.public_key context
    ≡ record { result = err wrong_length; wiped = [] }
unfolding wrap_team_key TeamKey.assert_bytes
wrap_team_key_short = refl

wrap_team_key_bad_context :
    wrap_team_key toy wrap_key nonce team_key member.public_key
      (record { team_id = codes "t"; member_id = codes "m"; key_version = fraction })
    ≡ record { result = err invalid_key_version; wiped = wrap_key ∷ [] }
unfolding wrap_team_key TeamKey.assert_bytes make_team_key_ad TeamKey.assert_context
    trominal.Shared.text_eq trominal.Shared.trim
wrap_team_key_bad_context = refl

split_payload_short : split_payload (codes "TRTK1") ≡ err too_short
unfolding split_payload
split_payload_short = refl

split_payload_prefix : split_payload (codes "TRTK2" ++ replicate 81 0) ≡ err unsupported_payload
unfolding split_payload
split_payload_prefix = refl

abbrev wrapped : WrappedTeamKey
wrapped =
    wrapped_key toy toy-IsCodec toy-IsCorrect member
      (toy-IsSealing member.public_key member.private_key) wrap_key nonce sizes team_key ad

unwrap-wrap_team_key_example :
    (w : WrappedTeamKey) × (wrap_team_key toy wrap_key nonce team_key member.public_key context
      ≡ record { result = ok w; wiped = wrap_key ∷ [] })
    × (unwrap_team_key toy w member context
        ≡ record { result = ok team_key; wiped = wrap_key ∷ [] })
unwrap-wrap_team_key_example =
    unwrap-wrap_team_key toy toy-IsCodec toy-IsCorrect member
      (toy-IsSealing member.public_key member.private_key) wrap_key nonce sizes team_key context
      refl make_team_key_ad_run

t-NoColon : NoColon (codes "t")
t-NoColon = ((λ e. cc e), tt)

m-NoColon : NoColon (codes "m")
m-NoColon = ((λ e. cc e), tt)

wraps : (wrap_team_key toy wrap_key nonce team_key member.public_key context).result ≡ ok wrapped
wraps =
    (wrap_team_key-wrapped_key toy toy-IsCodec toy-IsCorrect member
      (toy-IsSealing member.public_key member.private_key) wrap_key nonce sizes team_key context ad
      refl make_team_key_ad_run)

unwraps : (unwrap_team_key toy wrapped member context).result ≡ ok team_key
unfolding unwrap_team_key TeamKey.assert_bytes make_team_key_ad TeamKey.assert_context
    trominal.Shared.text_eq trominal.Shared.trim Envelope.make_ad decimal TeamKey.split_payload
    TeamKey.join_payload TeamKey.starts_with Toy.strip Toy.unframe
unwraps = refl

unwrap_team_key_binds_example : (context ≡ context) × (team_key ≡ team_key)
unwrap_team_key_binds_example =
    unwrap_team_key_binds toy toy-IsCodec toy-IsCorrect toy-IsAuthentic member
      (toy-IsSealing member.public_key member.private_key) wrap_key nonce sizes team_key team_key
      context context t-NoColon t-NoColon m-NoColon m-NoColon refl make_team_key_ad_run wraps
      unwraps
