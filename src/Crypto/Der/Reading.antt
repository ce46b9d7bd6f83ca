-- ===== src/Crypto/Der/Reading.antt =====
-- Reading back what the DER writer writes, by an independent reader of X.690 values.
use Prim.Native.Nat.{bit_or}
use native.Mathlib.Nat.{pow-suc}
use trominal.Shared.{
  ℕ, zero, suc, ◌+◌, ◌-◌, ◌/◌, ◌%◌, ◌^◌, ◌≤◌, ◌<◌, true, false, not, [], ◌∷◌, ◌++◌, Bytes, ◌==◌,
  leb, ltb, Bool-cases, inl, inr, ==_iff, length, take, drop, ◌≡◌, refl, ap, ◌∙◌, Option, none,
  some, arith, append-nil, append_assoc, take-append, drop-append, if◌then◌else◌, ◌&&◌, holds_below,
  holds_below_sound,
}
use trominal.Shared.Options.{◌>>=◌, ◌>>◌, require}
use trominal.Crypto.Wire.{trim_leading_zeros, has_top_bit, unsigned}
use trominal.Crypto.Wire.Reading.{
  leb-length-append, be_from, be_value, be_value-trim_leading_zeros, be_value-unsigned,
  has_top_bit-unsigned, length-trim_leading_zeros, length-unsigned,
}
use trominal.Crypto.Der.{length_bytes, der_length, der_value, der_integer}

-- Short and long form of a length.
unfoldable pub read_length : Bytes → Option (ℕ × Bytes)
unfolding be_value
read_length [] = none
read_length (b ∷ rest) =
    if ltb b 128
    then some (b, rest)
    else if leb (b - 128) (length rest)
    then some (be_value (take (b - 128) rest), drop (b - 128) rest)
    else none

-- A tag, a length and as many bytes of content.
unfoldable pub read_value : Bytes → Option (ℕ × Bytes × Bytes)
unfolding read_length
read_value [] = none
read_value (tag ∷ bytes) = do
  (n, rest) ← read_length bytes
  require (leb n (length rest))
  some (tag, take n rest, drop n rest)

unfoldable pub read_integer : Bytes → Option (ℕ × Bytes)
unfolding read_value be_value
read_integer bytes = do
  (tag, content, rest) ← read_value bytes
  require ((tag == 2) && not (has_top_bit content))
  some (be_value content, rest)

be_from-length_bytes :
    (rounds n : ℕ) (bytes : Bytes)
    → n ≤ rounds
    → be_from 0 (length_bytes rounds n bytes) ≡ be_from n bytes
unfolding be_from length_bytes
be_from-length_bytes zero n bytes h = ap (λ v. be_from v bytes) (omega arith)
be_from-length_bytes (suc rounds) n bytes h = elim (Bool-cases (ltb 0 n)) [
  | inl e ↦ rw e (
      be_from-length_bytes rounds (n / 256) ((n % 256) ∷ bytes) (ground arith)
      ∙ ap (λ v. be_from v bytes) (omega arith))
  | inr e ↦ rw e (ap (λ v. be_from v bytes) (ground arith))
]

pub length-length_bytes :
    (k rounds n : ℕ) (bytes : Bytes)
    → n < 256 ^ k
    → length (length_bytes rounds n bytes) ≤ k + length bytes
unfolding length_bytes
length-length_bytes k zero n bytes h = omega arith
length-length_bytes zero (suc rounds) n bytes h = ground arith
length-length_bytes (suc k) (suc rounds) n bytes h =
    ground (arith, length-length_bytes k rounds (n / 256) ((n % 256) ∷ bytes), pow-suc 256 k)

long_form_table : holds_below (λ k. bit_or 0x80 k == 128 + k) 128 ≡ true
unfolding holds_below
long_form_table = refl

long_form : (k : ℕ) → k < 128 → bit_or 0x80 k ≡ 128 + k
long_form k h = (==_iff _ _).0 (holds_below_sound _ 128 k h long_form_table)

read_length_long :
    (b : ℕ) (bytes rest : Bytes)
    → b ≡ 128 + length bytes
    → read_length (b ∷ (bytes ++ rest)) ≡ some (be_value bytes, rest)
unfolding read_length
read_length_long b bytes rest e =
    let sub : b - 128 ≡ length bytes = omega arith in
    let long : ltb b 128 ≡ false = ground arith in
    rw long (
      rw sub
        (rw (leb-length-append bytes rest) (rw (take-append bytes rest, drop-append bytes rest))))

-- Both forms of a length are read back.
pub read_length-der_length :
    (n : ℕ) (rest : Bytes) → n < 256 ^ 127 → read_length (der_length n ++ rest) ≡ some (n, rest)
unfolding der_length be_value be_from
read_length-der_length n rest h = elim (Bool-cases (ltb n 128)) [
  | inl e ↦ rw e (unfold read_length in rw e)
  | inr e ↦ rw e (
      read_length_long _ (length_bytes n n []) rest
        (long_form (length (length_bytes n n [])) (omega (arith, length-length_bytes 127 n n [] h)))
      ∙ ap (λ (v : ℕ). some (v, rest)) (be_from-length_bytes n n [] (omega arith)))
]

-- What `derValue` writes is read back, whatever follows it.
pub read_value-der_value :
    (tag : ℕ) (value rest : Bytes)
    → length value < 256 ^ 127
    → read_value (der_value tag value ++ rest) ≡ some (tag, value, rest)
unfolding read_value der_value
read_value-der_value tag value rest h =
    simp (append-nil, append_assoc)
      (rw (read_length-der_length (length value) (value ++ rest) h)
        (rw (leb-length-append value rest) (rw (take-append value rest, drop-append value rest))))

-- An integer is read back as the non-negative number of the bytes, leading zeros or not.
pub read_integer-der_integer :
    (bytes rest : Bytes)
    → length bytes + 1 < 256 ^ 127
    → read_integer (der_integer bytes ++ rest) ≡ some (be_value bytes, rest)
unfolding read_integer der_integer
read_integer-der_integer bytes rest h =
    let trimmed = trim_leading_zeros bytes in
    rw
      (read_value-der_value 2 (unsigned trimmed) rest
        (omega (arith, length-unsigned trimmed, length-trim_leading_zeros bytes)))
      (rw (has_top_bit-unsigned trimmed)
        (rw (be_value-unsigned trimmed, be_value-trim_leading_zeros bytes)))
