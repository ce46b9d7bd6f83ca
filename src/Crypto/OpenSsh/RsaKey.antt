-- ===== src/Crypto/OpenSsh/RsaKey.antt =====
-- The RSA key of packages/crypto/src/openssh.ts, read back by an independent reader.
use trominal.Shared.{
  ℕ, zero, suc, ◌*◌, ◌^◌, ◌≤◌, ◌<◌, List, [], ◌∷◌, ◌++◌, map, length, Bytes, ◌==◌, ◌≡◌, refl, ap,
  ◌∙◌, sym, arith, Option, some, append-nil, length-append, All,
}
use trominal.Shared.Options.{◌>>=◌, ◌>>◌, require}
use trominal.Crypto.Wire.{concat, trim_leading_zeros, unsigned}
use trominal.Crypto.Wire.Reading.{be_value, length-unsigned, length-trim_leading_zeros}
use trominal.Crypto.Der.{der_length, der_value, der_integer, der_sequence}
use trominal.Crypto.Der.Reading.{
  read_value, read_integer, read_value-der_value, read_integer-der_integer, length-length_bytes,
}
use trominal.Crypto.OpenSsh.{rsa_sequence}

-- As many integers as the content holds, at most `count`.
unfoldable pub read_integers : ℕ → Bytes → Option (List ℕ)
read_integers zero bytes = some []
read_integers (suc count) bytes = do
  (n, rest) ← read_integer bytes
  ns ← read_integers count rest
  some (n ∷ ns)

-- A sequence of `count` integers.
unfoldable pub read_sequence : ℕ → Bytes → Option (List ℕ)
read_sequence count bytes = do
  (tag, content, rest) ← read_value bytes
  require (tag == 0x30)
  read_integers count content

abbrev SmallEnough : Bytes → Type 0
SmallEnough bytes = length bytes < 2 ^ 32

read_integers-concat :
    (parts : List Bytes)
    → All SmallEnough parts
    → read_integers (length parts) (concat (map der_integer parts)) ≡ some (map be_value parts)
unfolding read_integers concat
read_integers-concat [] h = refl
read_integers-concat (part ∷ parts) h =
    rw (read_integer-der_integer part (concat (map der_integer parts)) (omega arith))
      (rw (read_integers-concat parts h.1))

length-der_length : (n : ℕ) → n < 256 ^ 127 → length (der_length n) ≤ 128
unfolding der_length
length-der_length n h = ground (arith, length-length_bytes 127 n n [])

length-der_integer : (bytes : Bytes) → SmallEnough bytes → length (der_integer bytes) < 2 ^ 33
unfolding der_integer der_value
length-der_integer bytes h =
    let content = unsigned (trim_leading_zeros bytes) in
    omega (
      arith,
      length-append (der_length (length content)) (content ++ []),
      length-append content [],
      length-der_length (length content),
      length-unsigned (trim_leading_zeros bytes),
      length-trim_leading_zeros bytes,
    )

-- The content of nine integers fits its length field.
length-concat :
    (parts : List Bytes)
    → All SmallEnough parts
    → length (concat (map der_integer parts)) ≤ length parts * 2 ^ 33
unfolding concat
length-concat [] h = omega arith
length-concat (part ∷ parts) h = omega (
  arith,
  length-append (der_integer part) (concat (map der_integer parts)),
  length-der_integer part h.0,
  length-concat parts h.1,
)

-- The sequence holds the version 0 and the eight numbers, in the order of PKCS#1.
pub read_sequence-rsa_sequence :
    (n e d p q dp dq qi : Bytes)
    → All SmallEnough (n ∷ e ∷ d ∷ p ∷ q ∷ dp ∷ dq ∷ qi ∷ [])
    → read_sequence 9 (rsa_sequence n e d p q dp dq qi)
      ≡ some (0 ∷ map be_value (n ∷ e ∷ d ∷ p ∷ q ∷ dp ∷ dq ∷ qi ∷ []))
unfolding read_sequence rsa_sequence der_sequence be_value
read_sequence-rsa_sequence n e d p q dp dq qi h =
    let parts = (0 ∷ []) ∷ n ∷ e ∷ d ∷ p ∷ q ∷ dp ∷ dq ∷ qi ∷ [] in
    let small : All SmallEnough parts = (omega arith, h) in
    let content = concat (map der_integer parts) in
    ap (read_sequence 9) (sym (append-nil (der_value 0x30 content)))
    ∙ rw (read_value-der_value 0x30 content [] (omega (arith, length-concat parts small)))
        (rw (read_integers-concat parts small))
