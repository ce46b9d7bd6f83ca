-- ===== src/Crypto/Sodium.antt =====
-- What packages/crypto/src takes from libsodium, from `TextEncoder` and from `TextDecoder`, with the
-- documented behaviour that the proofs rely on. Random bytes are arguments of the calls.
use trominal.Shared.{◌<◌, ◌+◌, ◌≡◌, Option, some, Text, Bytes, length}

pub record Sodium : Type 0 where
  -- `crypto_aead_xchacha20poly1305_ietf_encrypt` and `…_decrypt`; a failed check is `none`.
  pub aead_encrypt : (message ad nonce key : Bytes) → Bytes
  pub aead_decrypt : (ciphertext ad nonce key : Bytes) → Option Bytes
  -- `crypto_box_seal` to a public key, and `crypto_box_seal_open` with both keys.
  pub box_seal : (message public_key : Bytes) → Bytes
  pub box_seal_open : (sealed public_key private_key : Bytes) → Option Bytes
  pub to_base64 : Bytes → Text
  pub from_base64 : Text → Option Bytes
  pub utf8_encode : Text → Bytes
  pub utf8_decode : Bytes → Text

-- Decoding undoes encoding.
pub record IsCodec (s : Sodium) : Type 0 where
  pub from_base64-to_base64 : (b : Bytes) → s.from_base64 (s.to_base64 b) ≡ some b
  pub utf8_decode-encode : (t : Text) → s.utf8_decode (s.utf8_encode t) ≡ t

-- Decryption with the same key, nonce and associated data gives the message.
pub record IsCorrect (s : Sodium) : Type 0 where
  pub decrypt-encrypt :
      (message ad nonce key : Bytes)
      → s.aead_decrypt (s.aead_encrypt message ad nonce key) ad nonce key ≡ some message
  -- The ciphertext carries a tag.
  pub length-encrypt :
      (message ad nonce key : Bytes) → length message < length (s.aead_encrypt message ad nonce key)

-- The authenticity of the AEAD in its ideal form: what was encrypted is accepted only under the key
-- and the associated data that it was encrypted with.
pub record IsAuthentic (s : Sodium) : Type 0 where
  pub binds :
      {message ad nonce key ad' nonce' key' opened : Bytes}
      → s.aead_decrypt (s.aead_encrypt message ad nonce key) ad' nonce' key' ≡ some opened
      → (ad ≡ ad') × (key ≡ key')

-- A key pair opens what was sealed to its public key; a sealed box is 48 bytes longer.
pub record IsSealing (s : Sodium) (public_key private_key : Bytes) : Type 0 where
  pub open-seal :
      (message : Bytes)
      → s.box_seal_open (s.box_seal message public_key) public_key private_key ≡ some message
  pub length-seal : (message : Bytes) → length (s.box_seal message public_key) ≡ length message + 48
