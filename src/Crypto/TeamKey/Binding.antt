-- ===== src/Crypto/TeamKey/Binding.antt =====
-- To which team, member and version a wrapped team key is bound (packages/crypto/src/team-key.ts).
use trominal.Shared.{
  Option, true, Text, Bytes, codes, length, ◌≡◌, ap, sym, ◌∙◌, arith, none, some, decimal_injective,
}
use trominal.Json.{Number, nat, negative, fraction}
use trominal.Shared.Results.{Result, ok, err, or_throw, >>=-eq-ok}
use trominal.Crypto.Sodium.{Sodium, IsCodec, IsCorrect, IsAuthentic, IsSealing}
use trominal.Crypto.Envelope
use trominal.Crypto.Envelope.{ad_text, make_ad}
use trominal.Crypto.Envelope.Binding.{NoColon, split_at_colon, make_ad-eq-ok, append_cancel_left}
use trominal.Crypto.TeamKey.{
  TeamKeyWrapContext, WrappedTeamKey, X25519KeyPair, Error, assert_context, resource_id, is_version,
  version_text, make_team_key_ad, lift_ad, checked_team_key, open_with, wrap_team_key,
  unwrap_team_key, not_authentic,
}
use trominal.Crypto.Envelope.RoundTrip.{utf8_injective}
use trominal.Crypto.TeamKey.RoundTrip.{
  IsWellSized, wrapped_key, encrypted, wrap_team_key-wrapped_key, unwrap_team_key-wrapped_key,
}

version_text_injective :
    (v w : Number)
    → is_version v ≡ true
    → is_version w ≡ true
    → version_text v ≡ version_text w
    → v ≡ w
version_text_injective (nat n) (nat m) h k e = ap nat (decimal_injective n m e)
version_text_injective (nat n) (negative m) h k e = absurd (cc k)
version_text_injective (nat n) fraction h k e = absurd (cc k)
version_text_injective (negative n) w h k e = absurd (cc h)
version_text_injective fraction w h k e = absurd (cc h)

lift_ad-eq-ok : (r : Result Envelope.Error Text) {ad : Text} → lift_ad r ≡ ok ad → r ≡ ok ad
lift_ad-eq-ok (ok a) e = ap ok (cc e)
lift_ad-eq-ok (err x) e = absurd (cc e)

make_team_key_ad-eq-ok :
    (context : TeamKeyWrapContext) {ad : Text}
    → make_team_key_ad context ≡ ok ad
    → (is_version context.key_version ≡ true)
      × (ad_text (codes "team_key") (resource_id context) ≡ ad)
unfolding make_team_key_ad assert_context
make_team_key_ad-eq-ok context {ad} h =
    let resource = resource_id context in
    ground (
      arith,
      lift_ad-eq-ok (make_ad (codes "team_key") resource) {ad = ad},
      make_ad-eq-ok (codes "team_key") resource {ad = ad},
    )

pub resource_id_injective :
    (context context' : TeamKeyWrapContext)
    → NoColon context.team_id
    → NoColon context'.team_id
    → NoColon context.member_id
    → NoColon context'.member_id
    → is_version context.key_version ≡ true
    → is_version context'.key_version ≡ true
    → resource_id context ≡ resource_id context'
    → context ≡ context'
resource_id_injective context context' nt nt' nm nm' v v' e =
    let (teams, left) = split_at_colon context.team_id context'.team_id nt nt' e in
    let (members, versions) =
      split_at_colon context.member_id context'.member_id nm nm'
        (append_cancel_left (codes "member:") left) in
    let same : context.key_version ≡ context'.key_version =
      version_text_injective context.key_version context'.key_version v v'
        (append_cancel_left (codes "v") versions) in
    cc (teams, members, same)

checked_team_key-eq-ok :
    (sodium : Sodium) (wrap_key opened : Bytes) (r : Result Error Bytes)
    → (checked_team_key sodium wrap_key r).result ≡ ok opened
    → r ≡ ok opened
checked_team_key-eq-ok sodium wrap_key opened (ok team_key) h = ground arith
checked_team_key-eq-ok sodium wrap_key opened (err e) h = h

or_throw-eq-ok : (r : Option Bytes) (e : Error) {a : Bytes} → or_throw r e ≡ ok a → r ≡ some a
or_throw-eq-ok none e h = absurd (cc h)
or_throw-eq-ok (some b) e h = ap some (cc h)

open_with-eq-ok :
    (sodium : Sodium) (wrap_key nonce encrypted opened : Bytes) (context : TeamKeyWrapContext)
    → open_with sodium wrap_key nonce encrypted context ≡ ok opened
    → (ad : Text) × (make_team_key_ad context ≡ ok ad)
      × (sodium.aead_decrypt encrypted (sodium.utf8_encode ad) nonce wrap_key ≡ some opened)
open_with-eq-ok sodium wrap_key nonce encrypted opened context h =
    let (ad, made, rest) =
      >>=-eq-ok (make_team_key_ad context)
        (λ ad.
          or_throw (sodium.aead_decrypt encrypted (sodium.utf8_encode ad) nonce wrap_key)
            not_authentic)
        h in
    (
      ad,
      made,
      or_throw-eq-ok (sodium.aead_decrypt encrypted (sodium.utf8_encode ad) nonce wrap_key)
          not_authentic rest,
    )

-- A team key that was wrapped for a member opens for that member only under the context it was
-- wrapped in, and gives the key that was wrapped: a wrapped key that is replayed to another team,
-- another member or another key version is refused. Ids have no colon.
pub unwrap_team_key_binds :
    (sodium : Sodium) (codec : IsCodec sodium) (correct : IsCorrect sodium)
    (authentic : IsAuthentic sodium) (recipient : X25519KeyPair)
    (sealing : IsSealing sodium recipient.public_key recipient.private_key) (wrap_key nonce : Bytes)
    (sizes : IsWellSized recipient wrap_key nonce) (team_key opened : Bytes)
    (context context' : TeamKeyWrapContext) {ad : Text} {wrapped : WrappedTeamKey}
    → NoColon context.team_id
    → NoColon context'.team_id
    → NoColon context.member_id
    → NoColon context'.member_id
    → length team_key ≡ 32
    → make_team_key_ad context ≡ ok ad
    → (wrap_team_key sodium wrap_key nonce team_key recipient.public_key context).result
      ≡ ok wrapped
    → (unwrap_team_key sodium wrapped recipient context').result ≡ ok opened
    → (context ≡ context') × (opened ≡ team_key)
unwrap_team_key_binds sodium codec correct authentic recipient sealing wrap_key nonce sizes team_key
      opened context context' {ad} {wrapped} nt nt' nm nm' size made wraps unwraps =
    let same : wrapped
        ≡ wrapped_key sodium codec correct recipient sealing wrap_key nonce sizes team_key ad =
      cc (
        wraps,
        wrap_team_key-wrapped_key sodium codec correct recipient sealing wrap_key nonce sizes
            team_key context ad size made,
      ) in
    let opens : open_with sodium wrap_key nonce
          (sodium.aead_encrypt team_key (sodium.utf8_encode ad) nonce wrap_key) context'
        ≡ ok opened =
      checked_team_key-eq-ok sodium wrap_key opened _ (
        rw
          (
            same,
            unwrap_team_key-wrapped_key sodium codec correct recipient sealing wrap_key nonce sizes
                team_key ad context',
          )
          at unwraps) in
    let (ad', made', accepted) = open_with-eq-ok sodium wrap_key nonce _ opened context' opens in
    let ads : ad ≡ ad' = utf8_injective sodium codec (authentic.binds accepted).0 in
    let (v, text) = make_team_key_ad-eq-ok context made in
    let (v', text') = make_team_key_ad-eq-ok context' made' in
    let resources : resource_id context ≡ resource_id context' =
      append_cancel_left (codes "trominal:v1:team_key:") (text ∙ ads ∙ sym text') in
    (
      resource_id_injective context context' nt nt' nm nm' v v' resources,
      cc (ads, accepted, correct.decrypt-encrypt team_key (sodium.utf8_encode ad) nonce wrap_key),
    )
