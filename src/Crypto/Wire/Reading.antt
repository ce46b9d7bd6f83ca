-- ===== src/Crypto/Wire/Reading.antt =====
-- Reading back what openssh.ts writes: an independent reader of RFC 4251 strings and integers, and
-- the number that a big-endian byte array stands for.
use trominal.Shared.{
  ℕ, ◌+◌, ◌*◌, ◌^◌, ◌≤◌, ◌<◌, true, false, not, [], ◌∷◌, ◌++◌, Bytes, ◌==◌, leb, Bool-cases, inl,
  inr, ==_iff, length, take, drop, ◌≡◌, refl, ap, sym, length-append, ◌∙◌, Option, none, some,
  arith, append-nil, append_assoc, take-append, drop-append,
}
use trominal.Shared.Options.{◌>>=◌, ◌>>◌, require}
use trominal.Crypto.Wire.{uint32, ssh_string, trim_leading_zeros, has_top_bit, unsigned, ssh_mpint}

unfoldable pub be_from : ℕ → Bytes → ℕ
be_from acc [] = acc
be_from acc (b ∷ rest) = be_from (acc * 256 + b) rest

unfoldable pub be_value : Bytes → ℕ
unfolding be_from
be_value bytes = be_from 0 bytes

unfoldable pub read_uint32 : Bytes → Option (ℕ × Bytes)
read_uint32 (a ∷ b ∷ c ∷ d ∷ rest) = some (((a * 256 + b) * 256 + c) * 256 + d, rest)
read_uint32 _ = none

unfoldable pub read_string : Bytes → Option (Bytes × Bytes)
unfolding read_uint32
read_string bytes = do
  (n, rest) ← read_uint32 bytes
  require (leb n (length rest))
  some (take n rest, drop n rest)

-- A non-negative `mpint`.
unfoldable pub read_mpint : Bytes → Option (ℕ × Bytes)
unfolding read_string be_value
read_mpint bytes = do
  (content, rest) ← read_string bytes
  require (not (has_top_bit content))
  some (be_value content, rest)

pub read_uint32-uint32 :
    (n : ℕ) (rest : Bytes) → n < 2 ^ 32 → read_uint32 (uint32 n ++ rest) ≡ some (n, rest)
unfolding read_uint32 uint32
read_uint32-uint32 n rest h = ap (λ (v : ℕ). some (v, rest)) (omega arith)

pub leb-length-append : (xs ys : Bytes) → leb (length xs) (length (xs ++ ys)) ≡ true
leb-length-append xs ys = ground (arith, length-append xs ys)

-- What `sshString` writes is read back, whatever follows it.
pub read_string-ssh_string :
    (bytes rest : Bytes)
    → length bytes < 2 ^ 32
    → read_string (ssh_string bytes ++ rest) ≡ some (bytes, rest)
unfolding read_string ssh_string
read_string-ssh_string bytes rest h =
    simp (append-nil, append_assoc)
      (rw (read_uint32-uint32 (length bytes) (bytes ++ rest) h, read_string)
        (rw (leb-length-append bytes rest) (rw (take-append bytes rest, drop-append bytes rest))))

pub read_string-ssh_string_end :
    (bytes : Bytes) → length bytes < 2 ^ 32 → read_string (ssh_string bytes) ≡ some (bytes, [])
read_string-ssh_string_end bytes h =
    ap read_string (sym (append-nil (ssh_string bytes))) ∙ read_string-ssh_string bytes [] h

pub length-ssh_string : (bytes : Bytes) → length (ssh_string bytes) ≡ length bytes + 4
unfolding ssh_string uint32
length-ssh_string bytes = omega (arith, length-append bytes [])

pub length-ssh_string-append :
    (bytes rest : Bytes) → length (ssh_string bytes ++ rest) ≡ length bytes + 4 + length rest
length-ssh_string-append bytes rest =
    omega (arith, length-append (ssh_string bytes) rest, length-ssh_string bytes)

-- Dropping the leading zeros keeps the number.
pub be_value-trim_leading_zeros :
    (bytes : Bytes) → be_value (trim_leading_zeros bytes) ≡ be_value bytes
unfolding be_value trim_leading_zeros
be_value-trim_leading_zeros [] = refl
be_value-trim_leading_zeros (b ∷ []) = refl
be_value-trim_leading_zeros (b ∷ c ∷ rest) = elim (Bool-cases (b == 0)) [
  | inl e ↦ rw e (
      be_value-trim_leading_zeros (c ∷ rest)
      ∙ ap (λ v. be_from v rest) (skip_zero b c ((==_iff b 0).0 e)))
  | inr e ↦ rw e
]
  where
    skip_zero : (b c : ℕ) → b ≡ 0 → 0 * 256 + c ≡ (0 * 256 + b) * 256 + c
    skip_zero b c z = omega arith

-- A zero byte in front keeps the number too.
pub be_value-unsigned : (bytes : Bytes) → be_value (unsigned bytes) ≡ be_value bytes
unfolding be_value unsigned
be_value-unsigned [] = refl
be_value-unsigned (b ∷ rest) = elim (Bool-cases (has_top_bit (b ∷ rest))) [
  | inl e ↦ rw e (rw append-nil (ap (λ v. be_from v rest) (omega arith)))
  | inr e ↦ rw e
]

-- So it is read as a non-negative number.
pub has_top_bit-unsigned : (bytes : Bytes) → has_top_bit (unsigned bytes) ≡ false
unfolding unsigned
has_top_bit-unsigned bytes = elim (Bool-cases (has_top_bit bytes)) [
  | inl e ↦ rw e
  | inr e ↦ rw (e, e)
]

pub length-trim_leading_zeros : (bytes : Bytes) → length (trim_leading_zeros bytes) ≤ length bytes
unfolding trim_leading_zeros
length-trim_leading_zeros [] = omega arith
length-trim_leading_zeros (b ∷ []) = omega arith
length-trim_leading_zeros (b ∷ c ∷ rest) = ground (arith, length-trim_leading_zeros (c ∷ rest))

pub length-unsigned : (bytes : Bytes) → length (unsigned bytes) ≤ length bytes + 1
unfolding unsigned
length-unsigned bytes = elim (Bool-cases (has_top_bit bytes)) [
  | inl e ↦ rw e (rw append-nil (omega arith))
  | inr e ↦ rw e (omega arith)
]

-- `sshMpint` writes the number of its argument, leading zeros or not.
pub read_mpint-ssh_mpint :
    (bytes rest : Bytes)
    → length bytes + 1 < 2 ^ 32
    → read_mpint (ssh_mpint bytes ++ rest) ≡ some (be_value bytes, rest)
unfolding read_mpint ssh_mpint
read_mpint-ssh_mpint bytes rest h =
    let content = unsigned (trim_leading_zeros bytes) in
    rw
      (read_string-ssh_string content rest (
        omega (arith, length-unsigned (trim_leading_zeros bytes), length-trim_leading_zeros bytes)))
      (rw (has_top_bit-unsigned (trim_leading_zeros bytes))
        (rw (be_value-unsigned (trim_leading_zeros bytes), be_value-trim_leading_zeros bytes)))

-- A number that is written with no byte to spare: a zero stands in front only of a set top bit.
abbrev pub IsMinimal : Bytes → Type 0
IsMinimal (b ∷ c ∷ rest) = b ≡ 0 → has_top_bit (c ∷ rest) ≡ true
IsMinimal _ = Unit

unsigned-IsMinimal_single : (b : ℕ) → IsMinimal (unsigned (b ∷ []))
unfolding unsigned
unsigned-IsMinimal_single b = elim (Bool-cases (has_top_bit (b ∷ []))) [
  | inl e ↦ rw e (λ _. e)
  | inr e ↦ rw e tt
]

unsigned-IsMinimal_pos :
    (b c : ℕ) (rest : Bytes) → (b == 0) ≡ false → IsMinimal (unsigned (b ∷ c ∷ rest))
unfolding unsigned
unsigned-IsMinimal_pos b c rest pos = elim (Bool-cases (has_top_bit (b ∷ c ∷ rest))) [
  | inl e ↦ rw e (λ _. e)
  | inr e ↦ rw e (λ z. absurd (not_zero b pos z))
]
  where
    not_zero : (b : ℕ) → (b == 0) ≡ false → b ≡ 0 → ⊥
    not_zero b pos z = ground arith

-- What `sshMpint` and `derInteger` write has no leading zero that the reader does not need.
pub unsigned-trim-IsMinimal : (bytes : Bytes) → IsMinimal (unsigned (trim_leading_zeros bytes))
unfolding trim_leading_zeros
unsigned-trim-IsMinimal [] = unfold unsigned in tt
unsigned-trim-IsMinimal (b ∷ []) = unsigned-IsMinimal_single b
unsigned-trim-IsMinimal (b ∷ c ∷ rest) = elim (Bool-cases (b == 0)) [
  | inl e ↦ rw e (unsigned-trim-IsMinimal (c ∷ rest))
  | inr e ↦ rw e (unsigned-IsMinimal_pos b c rest e)
]
