-- ===== src/Crypto/TeamKey/RoundTrip.antt =====
-- Wrapping and unwrapping a team key against each other (packages/crypto/src/team-key.ts).
use trominal.Shared.{◌<◌, [], ◌∷◌, Text, Bytes, length, ◌≡◌, arith}
use trominal.Shared.Results.{ok}
use trominal.Crypto.Sodium.{Sodium, IsCodec, IsCorrect, IsSealing}
use trominal.Crypto.TeamKey.{
  TeamKeyWrapContext, WrappedTeamKey, X25519KeyPair, make_team_key_ad, join_payload, assert_bytes,
  wrap_team_key, unwrap_parts, checked_team_key, open_with, unwrap_with, unwrap_team_key,
}
use trominal.Crypto.TeamKey.Payload.{split_payload-join_payload}

-- What the source relies on: the keys and the nonce that it generates have their length.
pub record IsWellSized (recipient : X25519KeyPair) (wrap_key nonce : Bytes) : Type 0 where
  pub public_length : length recipient.public_key ≡ 32
  pub private_length : length recipient.private_key ≡ 32
  pub wrap_length : length wrap_key ≡ 32
  pub nonce_length : length nonce ≡ 24

module _ (sodium : Sodium) (codec : IsCodec sodium) (correct : IsCorrect sodium)
    (recipient : X25519KeyPair)
    (sealing : IsSealing sodium recipient.public_key recipient.private_key) (wrap_key nonce : Bytes)
    (sizes : IsWellSized recipient wrap_key nonce) where
  abbrev pub encrypted : Bytes → Text → Bytes
  encrypted team_key ad = sodium.aead_encrypt team_key (sodium.utf8_encode ad) nonce wrap_key

  abbrev sealed : Bytes
  sealed = sodium.box_seal wrap_key recipient.public_key

  abbrev pub wrapped_key : Bytes → Text → WrappedTeamKey
  wrapped_key team_key ad = record {
    ciphertext = sodium.to_base64 (join_payload sealed (encrypted team_key ad));
    nonce = sodium.to_base64 nonce;
  }

  pub wrap_team_key-wrapped_key :
      (team_key : Bytes) (context : TeamKeyWrapContext) (ad : Text)
      → length team_key ≡ 32
      → make_team_key_ad context ≡ ok ad
      → (wrap_team_key sodium wrap_key nonce team_key recipient.public_key context).result
        ≡ ok (wrapped_key team_key ad)
  unfolding wrap_team_key
  wrap_team_key-wrapped_key team_key context ad size e = ground (arith, sizes.public_length)

  unwrap_parts-wrapped_key :
      (team_key : Bytes) (ad : Text)
      → unwrap_parts sodium (wrapped_key team_key ad) recipient
        ≡ ok (nonce, sealed, encrypted team_key ad)
  unfolding assert_bytes
  unwrap_parts-wrapped_key team_key ad =
      let long : length sealed ≡ 80 =
        omega (arith, sealing.length-seal wrap_key, sizes.wrap_length) in
      let tagged : 0 < length (encrypted team_key ad) =
        omega (arith, correct.length-encrypt team_key (sodium.utf8_encode ad) nonce wrap_key) in
      rw (sizes.public_length) (
        rw (sizes.private_length) (
          rw (codec.from_base64-to_base64 nonce) (
            rw (sizes.nonce_length) (
              rw (codec.from_base64-to_base64 (join_payload sealed (encrypted team_key ad)))
                (rw (split_payload-join_payload sealed (encrypted team_key ad) long tagged))))))

  -- Unwrapping comes down to the AEAD under the wrapping key.
  pub unwrap_team_key-wrapped_key :
      (team_key : Bytes) (ad : Text) (context : TeamKeyWrapContext)
      → unwrap_team_key sodium (wrapped_key team_key ad) recipient context
        ≡ checked_team_key sodium wrap_key
            (open_with sodium wrap_key nonce (encrypted team_key ad) context)
  unfolding unwrap_team_key
  unwrap_team_key-wrapped_key team_key ad context =
      rw (unwrap_parts-wrapped_key team_key ad, unwrap_team_key)
        (rw (sealing.open-seal wrap_key, unwrap_with))

  -- A team key of 32 bytes that is wrapped for a member is unwrapped by that member, in the same
  -- context; the wrapping key is wiped on both sides.
  pub unwrap-wrap_team_key :
      (team_key : Bytes) (context : TeamKeyWrapContext) {ad : Text}
      → length team_key ≡ 32
      → make_team_key_ad context ≡ ok ad
      → (wrapped : WrappedTeamKey) × (wrap_team_key sodium wrap_key nonce team_key
            recipient.public_key context
          ≡ record { result = ok wrapped; wiped = wrap_key ∷ [] })
        × (unwrap_team_key sodium wrapped recipient context
            ≡ record { result = ok team_key; wiped = wrap_key ∷ [] })
  unfolding wrap_team_key
  unwrap-wrap_team_key team_key context {ad} size e = (
    wrapped_key team_key ad,
    ground (arith, sizes.public_length),
    rw (unwrap_team_key-wrapped_key team_key ad context) (
        rw e
          (rw (correct.decrypt-encrypt team_key (sodium.utf8_encode ad) nonce wrap_key) (rw size))),
  )
