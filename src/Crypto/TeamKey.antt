-- ===== src/Crypto/TeamKey.antt =====
-- packages/crypto/src/team-key.ts. The random wrapping key and the nonce are arguments; the buffers
-- that a call zeroes on its way out come back beside its result.
pub mod Payload
pub mod RoundTrip
pub mod Binding
mod Tests
use trominal.Shared.{
  ℕ, ◌+◌, Bool, true, false, ◌&&◌, List, [], ◌∷◌, ◌++◌, Text, Bytes, codes, text_eq, trim, decimal,
  ◌==◌, ltb, length, take, drop, none, some, if◌then◌else◌,
}
use mathlib.Core.Bool.{not}
use trominal.Shared.Results.{Result, ok, err, ◌>>=◌, ◌>>◌, require, or_throw}
use trominal.Json.{Number, nat, negative, fraction}
use trominal.Crypto.Sodium.{Sodium}
use trominal.Crypto.Envelope.{make_ad}
use trominal.Crypto.Envelope

pub record TeamKeyWrapContext : Type 0 where
  pub team_id : Text
  pub member_id : Text
  pub key_version : Number

pub record WrappedTeamKey : Type 0 where
  pub ciphertext : Text
  pub nonce : Text

pub record X25519KeyPair : Type 0 where
  pub public_key : Bytes
  pub private_key : Bytes

pub data Error : Type 0 where
  team_id_required member_id_required invalid_key_version wrong_length too_short unsupported_payload
        invalid_base64 sealed_box not_authentic :
      Error
  ad_error : Envelope.Error → Error

pub record Outcome (A : Type 0) : Type 0 where
  pub result : Result Error A
  pub wiped : List Bytes

abbrev pub payload_prefix : Bytes
payload_prefix = codes "TRTK1"

abbrev pub sealed_wrap_key_bytes : ℕ
sealed_wrap_key_bytes = 32 + 48

-- `Number.isInteger(version) && version >= 1`
abbrev pub is_version : Number → Bool
is_version (nat n) = ltb 0 n
is_version _ = false

abbrev pub version_text : Number → Text
version_text (nat n) = decimal n
version_text (negative n) = b'-' ∷ decimal (n + 1)
version_text fraction = codes "NaN"

unfoldable pub assert_context : TeamKeyWrapContext → Result Error (Unit {0})
assert_context context = do
  require (not (text_eq (trim context.team_id) [])) team_id_required
  require (not (text_eq (trim context.member_id) [])) member_id_required
  require (is_version context.key_version) invalid_key_version

abbrev pub resource_id : TeamKeyWrapContext → Text
resource_id context =
    context.team_id
    ++ (codes ":member:" ++ (context.member_id ++ (codes ":v" ++ version_text context.key_version)))

abbrev pub lift_ad : Result Envelope.Error Text → Result Error Text
lift_ad (ok ad) = ok ad
lift_ad (err e) = err (ad_error e)

unfoldable pub make_team_key_ad : TeamKeyWrapContext → Result Error Text
unfolding assert_context
make_team_key_ad context = do
  assert_context context
  lift_ad (make_ad (codes "team_key") (resource_id context))

unfoldable pub assert_bytes : Bytes → ℕ → Result Error (Unit {0})
assert_bytes value expected = require (length value == expected) wrong_length

unfoldable pub join_payload : Bytes → Bytes → Bytes
join_payload sealed_wrap_key encrypted_team_key =
    payload_prefix ++ (sealed_wrap_key ++ encrypted_team_key)

-- `for (i < PAYLOAD_PREFIX.length) if (payload[i] !== PAYLOAD_PREFIX[i]) throw`
unfoldable pub starts_with : Bytes → Bytes → Bool
starts_with [] payload = true
starts_with (p ∷ prefix) [] = false
starts_with (p ∷ prefix) (b ∷ payload) = (b == p) && starts_with prefix payload

unfoldable pub split_payload : Bytes → Result Error (Bytes × Bytes)
unfolding starts_with
split_payload payload = do
  require (ltb (length payload_prefix + sealed_wrap_key_bytes) (length payload)) too_short
  require (starts_with payload_prefix payload) unsupported_payload
  ok (take sealed_wrap_key_bytes (drop 5 payload), drop (5 + sealed_wrap_key_bytes) payload)

module _ (sodium : Sodium) where
  open sodium use {
    aead_encrypt, aead_decrypt, box_seal, box_seal_open, to_base64, from_base64, utf8_encode,
  }

  -- The body of the `try` of `wrapTeamKey`.
  abbrev wrap_with :
      Bytes → Bytes → Bytes → Bytes → TeamKeyWrapContext → Result Error WrappedTeamKey
  wrap_with wrap_key nonce team_key recipient context = do
    ad ← make_team_key_ad context
    let encrypted = aead_encrypt team_key (utf8_encode ad) nonce wrap_key
    let sealed = box_seal wrap_key recipient
    ok (record { ciphertext = to_base64 (join_payload sealed encrypted); nonce = to_base64 nonce })

  -- `finally { wipe(wrapKey) }` on every path past the two length checks.
  unfoldable pub wrap_team_key :
      (wrap_key nonce team_key recipient_public_key : Bytes)
      → TeamKeyWrapContext
      → Outcome WrappedTeamKey
  unfolding assert_bytes
  wrap_team_key wrap_key nonce team_key recipient context =
      elim (assert_bytes team_key 32 >> assert_bytes recipient 32) [
        | err e ↦ record { result = err e; wiped = [] }
        | ok _ ↦ record {
          result = wrap_with wrap_key nonce team_key recipient context;
          wiped = wrap_key ∷ [];
        }
      ]

  -- What precedes the `try` of `unwrapTeamKey`: the nonce and the two parts of the payload.
  abbrev unwrap_parts : WrappedTeamKey → X25519KeyPair → Result Error (Bytes × Bytes × Bytes)
  unwrap_parts wrapped recipient = do
    assert_bytes recipient.public_key 32
    assert_bytes recipient.private_key 32
    nonce ← or_throw (from_base64 wrapped.nonce) invalid_base64
    assert_bytes nonce 24
    payload ← or_throw (from_base64 wrapped.ciphertext) invalid_base64
    (sealed, encrypted) ← split_payload payload
    ok (nonce, sealed, encrypted)

  -- A team key of the wrong length is wiped, and refused; the wrapping key is wiped in any case.
  abbrev checked_team_key : Bytes → Result Error Bytes → Outcome Bytes
  checked_team_key wrap_key (err e) = record { result = err e; wiped = wrap_key ∷ [] }
  checked_team_key wrap_key (ok team_key) =
      if length team_key == 32
      then record { result = ok team_key; wiped = wrap_key ∷ [] }
      else record { result = err wrong_length; wiped = team_key ∷ wrap_key ∷ [] }

  abbrev open_with : Bytes → Bytes → Bytes → TeamKeyWrapContext → Result Error Bytes
  open_with wrap_key nonce encrypted context = do
    ad ← make_team_key_ad context
    or_throw (aead_decrypt encrypted (utf8_encode ad) nonce wrap_key) not_authentic

  abbrev unwrap_with : X25519KeyPair → TeamKeyWrapContext → Bytes × Bytes × Bytes → Outcome Bytes
  unwrap_with recipient context (nonce, sealed, encrypted) =
      elim (box_seal_open sealed recipient.public_key recipient.private_key) [
        | none ↦ record { result = err sealed_box; wiped = [] }
        | some wrap_key ↦ checked_team_key wrap_key (open_with wrap_key nonce encrypted context)
      ]

  unfoldable pub unwrap_team_key :
      WrappedTeamKey → X25519KeyPair → TeamKeyWrapContext → Outcome Bytes
  unfolding assert_bytes
  unwrap_team_key wrapped recipient context = elim (unwrap_parts wrapped recipient) [
    | err e ↦ record { result = err e; wiped = [] }
    | ok parts ↦ unwrap_with recipient context parts
  ]
