-- ===== src/Crypto/Toy.antt =====
-- A concrete value of the interfaces of Crypto/Sodium.antt, for the tests: a cipher that writes the
-- associated data and the key in front of the message and compares them. It shows that the assumed
-- behaviour can be met, and nothing of libsodium.
use trominal.Shared.{
  Option-cases, inl, inr, Option, none, some, [], ◌∷◌, ◌++◌, Bytes, ◌==◌, length, length-append,
  drop, drop-append_of_length, replicate, if◌then◌else◌, ◌≡◌, refl, ap, arith,
}
use trominal.Shared.Options.{◌>>=◌}
use trominal.Crypto.Sodium.{Sodium, IsCodec, IsCorrect, IsAuthentic, IsSealing}

unfoldable pub strip : Bytes → Bytes → Option Bytes
strip [] bytes = some bytes
strip (p ∷ ps) [] = none
strip (p ∷ ps) (b ∷ bs) = if p == b then strip ps bs else none

abbrev frame : Bytes → Bytes
frame x = length x ∷ x

unfoldable pub unframe : Bytes → Bytes → Option Bytes
unfolding strip
unframe x [] = none
unframe x (n ∷ rest) = if n == length x then strip x rest else none

strip-append : (p rest : Bytes) → strip p (p ++ rest) ≡ some rest
unfolding strip
strip-append [] rest = refl
strip-append (c ∷ p) rest = ground (arith, strip-append p rest)

unframe-frame : (x rest : Bytes) → unframe x (frame x ++ rest) ≡ some rest
unfolding unframe
unframe-frame x rest = ground (arith, strip-append x rest)

strip-eq-some :
    (p q rest s : Bytes) → length q ≡ length p → strip p (q ++ rest) ≡ some s → (q ≡ p) × (rest ≡ s)
unfolding strip
strip-eq-some [] [] rest s n h = (refl, cc h)
strip-eq-some [] (d ∷ q) rest s n h = absurd (omega arith)
strip-eq-some (c ∷ p) [] rest s n h = absurd (omega arith)
strip-eq-some (c ∷ p) (d ∷ q) rest s n h = ground (arith, strip-eq-some p q rest s)

unframe-eq-some : (x y rest s : Bytes) → unframe y (frame x ++ rest) ≡ some s → (x ≡ y) × (rest ≡ s)
unfolding unframe
unframe-eq-some x y rest s h = ground (arith, strip-eq-some y x rest s)

abbrev pub toy : Sodium
toy = record {
  aead_encrypt = λ message ad nonce key. frame ad ++ (frame key ++ message);
  aead_decrypt = λ ciphertext ad nonce key. unframe ad ciphertext >>= unframe key;
  box_seal = λ message public_key. replicate 48 0 ++ message;
  box_seal_open = λ sealed public_key private_key. some (drop 48 sealed);
  to_base64 = λ b. b;
  from_base64 = λ t. some t;
  utf8_encode = λ t. t;
  utf8_decode = λ b. b;
}

pub toy-IsCodec : IsCodec toy
toy-IsCodec = record { from_base64-to_base64 = λ b. refl; utf8_decode-encode = λ t. refl }

pub toy-IsCorrect : IsCorrect toy
toy-IsCorrect = record {
  decrypt-encrypt = λ message ad nonce key.
      rw (unframe-frame ad (frame key ++ message)) (unframe-frame key message);
  length-encrypt = λ message ad nonce key.
      omega (arith, length-append ad (frame key ++ message), length-append key message);
}

binds :
    (message ad key ad' key' opened : Bytes)
    → (unframe ad' (frame ad ++ (frame key ++ message)) >>= unframe key') ≡ some opened
    → (ad ≡ ad') × (key ≡ key')
binds message ad key ad' key' opened h =
    elim (Option-cases (unframe ad' (frame ad ++ (frame key ++ message)))) [
      | inl e ↦ absurd (cc (rw e at h))
      | inr (rest, e) ↦
          let (same_ad, left) = unframe-eq-some ad ad' (frame key ++ message) rest e in
          let opens : unframe key' (frame key ++ message) ≡ some opened = rw (e, ← left) at h in
          (same_ad, (unframe-eq-some key key' message opened opens).0)
    ]

pub toy-IsAuthentic : IsAuthentic toy
toy-IsAuthentic = record {
  binds = λ {message} {ad} {nonce} {key} {ad'} {nonce'} {key'} {opened} h.
      binds message ad key ad' key' opened h;
}

pub toy-IsSealing : (public_key private_key : Bytes) → IsSealing toy public_key private_key
toy-IsSealing public_key private_key = record {
  open-seal = λ message. ap some (drop-append_of_length 48 (replicate 48 0) message refl);
  length-seal = λ message. omega (arith, length-append (replicate 48 0) message);
}
