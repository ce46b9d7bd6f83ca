-- ===== src/Crypto/Envelope/RoundTrip.antt =====
-- Encryption and decryption of packages/crypto/src/encrypt.ts against each other.
use trominal.Shared.{Text, Bytes, ◌==◌, length, ◌≡◌, ap, sym, ◌∙◌, arith, some, ==_iff}
use trominal.Shared.Results.{ok, require-eq-ok}
use trominal.Crypto.Sodium.{Sodium, IsCodec, IsCorrect, IsAuthentic}
use trominal.Crypto.Envelope.{Envelope, key_length, sealed_envelope, encrypt, decrypt, key_bytes}

module _ (sodium : Sodium) (codec : IsCodec sodium) where
  -- What is left of a decryption once its checks have passed.
  decrypt-sealed_envelope :
      (message key nonce key' opened : Bytes) (ad ad' : Text)
      → decrypt sodium (sealed_envelope sodium message key ad nonce) key' ad' ≡ ok opened
      → sodium.aead_decrypt
          (sodium.aead_encrypt message (sodium.utf8_encode ad) nonce key)
          (sodium.utf8_encode ad')
          nonce
          key'
        ≡ some opened
  unfolding decrypt
  decrypt-sealed_envelope message key nonce key' opened ad ad' h = ground (
    arith,
    codec.from_base64-to_base64 (sodium.aead_encrypt message (sodium.utf8_encode ad) nonce key),
    codec.from_base64-to_base64 nonce,
  )

  pub utf8_injective : {s t : Text} → sodium.utf8_encode s ≡ sodium.utf8_encode t → s ≡ t
  utf8_injective {s} {t} e =
      sym (codec.utf8_decode-encode s) ∙ ap sodium.utf8_decode e ∙ codec.utf8_decode-encode t

  pub encrypt-eq-ok :
      (message key nonce : Bytes) (ad : Text) {envelope : Envelope}
      → encrypt sodium message key ad nonce ≡ ok envelope
      → (length key ≡ 32) × (envelope ≡ sealed_envelope sodium message key ad nonce)
  unfolding encrypt
  encrypt-eq-ok message key nonce ad h =
      let guarded =
        require-eq-ok (length key == key_bytes) key_length
          (ok (sealed_envelope sodium message key ad nonce)) h in
      ((==_iff _ _).0 guarded.0, cc (guarded.1))

  -- An envelope opens to the message that was encrypted, under the key and the associated data of
  -- the encryption, if the nonce has its 24 bytes.
  pub decrypt-encrypt :
      (message key nonce : Bytes) (ad : Text) {envelope : Envelope}
      → IsCorrect sodium
      → length nonce ≡ 24
      → encrypt sodium message key ad nonce ≡ ok envelope
      → decrypt sodium envelope key ad ≡ ok message
  unfolding decrypt
  decrypt-encrypt message key nonce ad c n h =
      let (k, e) = encrypt-eq-ok message key nonce ad h in
      rw e (
        rw k (
          rw
            (
              codec.from_base64-to_base64
                  (sodium.aead_encrypt message (sodium.utf8_encode ad) nonce key),
              codec.from_base64-to_base64 nonce,
            )
            (rw n (rw (c.decrypt-encrypt message (sodium.utf8_encode ad) nonce key)))))

  -- An envelope that opens at all was encrypted with the key and the associated data that open it,
  -- and gives the message, for an AEAD that is correct and authentic: a ciphertext that is moved to
  -- another row, or read with another key, is refused.
  pub decrypt_binds :
      (message key nonce key' opened : Bytes) (ad ad' : Text) {envelope : Envelope}
      → IsCorrect sodium
      → IsAuthentic sodium
      → encrypt sodium message key ad nonce ≡ ok envelope
      → decrypt sodium envelope key' ad' ≡ ok opened
      → (ad ≡ ad') × (key ≡ key') × (message ≡ opened)
  decrypt_binds message key nonce key' opened ad ad' c authentic h e =
      let (_, same) = encrypt-eq-ok message key nonce ad h in
      let accepted = decrypt-sealed_envelope message key nonce key' opened ad ad' (rw same at e) in
      let (ads, keys) = authentic.binds accepted in
      (utf8_injective ads, keys, cc (c.decrypt-encrypt message (sodium.utf8_encode ad) nonce key))
