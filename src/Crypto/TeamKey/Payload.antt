-- ===== src/Crypto/TeamKey/Payload.antt =====
-- The payload of a wrapped team key, joined and split (packages/crypto/src/team-key.ts).
use trominal.Shared.{
  ◌<◌, true, [], ◌∷◌, ◌++◌, Bytes, length, length-append, take-append_of_length,
  drop-append_of_length, ◌≡◌, refl, arith, lt→ltb,
}
use trominal.Shared.Results.{ok}
use trominal.Crypto.TeamKey.{payload_prefix, join_payload, split_payload, starts_with}

starts_with-append : (p rest : Bytes) → starts_with p (p ++ rest) ≡ true
unfolding starts_with
starts_with-append [] rest = refl
starts_with-append (c ∷ p) rest = ground (arith, starts_with-append p rest)

-- A joined payload is split into the same two parts: the sealed key has its 80 bytes, and a
-- ciphertext is never empty.
pub split_payload-join_payload :
    (sealed encrypted : Bytes)
    → length sealed ≡ 80
    → 0 < length encrypted
    → split_payload (join_payload sealed encrypted) ≡ ok (sealed, encrypted)
unfolding split_payload join_payload
split_payload-join_payload sealed encrypted h k =
    rw (lt→ltb _ _ (long_enough sealed encrypted h k)) (
      rw (take-append_of_length 80 sealed encrypted h, drop-append_of_length 80 sealed encrypted h))
  where
    long_enough :
        (sealed encrypted : Bytes)
        → length sealed ≡ 80
        → 0 < length encrypted
        → 85 < length (payload_prefix ++ (sealed ++ encrypted))
    long_enough sealed encrypted h k = omega (arith, length-append sealed encrypted)
