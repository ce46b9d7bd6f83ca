-- ===== src/Crypto/Envelope.antt =====
-- packages/crypto/src/envelope.ts and encrypt.ts.
pub mod Binding
pub mod RoundTrip
mod Tests
use mathlib.Core.Bool.{not}
use trominal.Shared.{ℕ, ◌||◌, ◌∷◌, ◌++◌, Text, Bytes, codes, ◌==◌, length}
use trominal.Shared.Results.{Result, ok, ◌>>=◌, ◌>>◌, require, or_throw}
use trominal.Crypto.Sodium.{Sodium}

pub record Envelope : Type 0 where
  pub v : ℕ
  pub ct : Text
  pub n : Text

pub data Error : Type 0 where
  empty_resource key_length nonce_length unsupported_version invalid_base64 not_authentic : Error

abbrev pub key_bytes : ℕ
key_bytes = 32

abbrev pub nonce_bytes : ℕ
nonce_bytes = 24

abbrev pub ad_text : Text → Text → Text
ad_text resource_type resource_id = codes "trominal:v1:" ++ (resource_type ++ (b':' ∷ resource_id))

unfoldable pub make_ad : Text → Text → Result Error Text
make_ad resource_type resource_id = do
  require (not (length resource_type == 0 || length resource_id == 0)) empty_resource
  ok (ad_text resource_type resource_id)

unfoldable pub assert_key : Bytes → Result Error (Unit {0})
assert_key key = require (length key == key_bytes) key_length

module _ (sodium : Sodium) where
  open sodium use {aead_encrypt, aead_decrypt, to_base64, from_base64, utf8_encode, utf8_decode}

  abbrev pub sealed_envelope : Bytes → Bytes → Text → Bytes → Envelope
  sealed_envelope message key ad nonce = record {
    v = 1;
    ct = to_base64 (aead_encrypt message (utf8_encode ad) nonce key);
    n = to_base64 nonce;
  }

  -- `nonce` is what `generateNonce` returned. A string is encoded by `fromUtf8` before the call.
  unfoldable pub encrypt : Bytes → Bytes → Text → Bytes → Result Error Envelope
  unfolding assert_key
  encrypt message key ad nonce = do assert_key key; ok (sealed_envelope message key ad nonce)

  unfoldable pub encrypt_with_nonce : Bytes → Bytes → Text → Bytes → Result Error Envelope
  unfolding assert_key
  encrypt_with_nonce message key ad nonce = do
    assert_key key
    require (length nonce == nonce_bytes) nonce_length
    ok (sealed_envelope message key ad nonce)

  unfoldable pub decrypt : Envelope → Bytes → Text → Result Error Bytes
  unfolding assert_key
  decrypt envelope key ad = do
    assert_key key
    require (envelope.v == 1) unsupported_version
    ct ← or_throw (from_base64 envelope.ct) invalid_base64
    nonce ← or_throw (from_base64 envelope.n) invalid_base64
    require (length nonce == nonce_bytes) nonce_length
    or_throw (aead_decrypt ct (utf8_encode ad) nonce key) not_authentic

  unfoldable pub decrypt_to_string : Envelope → Bytes → Text → Result Error Text
  decrypt_to_string envelope key ad = do bytes ← decrypt envelope key ad; ok (utf8_decode bytes)
