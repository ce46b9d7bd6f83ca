-- ===== src/Vault/Ids/Unique.antt =====
-- Ids of new rows have one form and do not repeat (apps/client/src/features/vault/ids.ts).
use trominal.Shared.{
  ℕ, zero, suc, ◌+◌, ◌*◌, ◌/◌, ◌%◌, ◌^◌, ◌<◌, [], ◌∷◌, true, Text, Bytes, length, length-append,
  take, drop, take-append_of_length, drop-append_of_length, if◌then◌else◌, ◌==◌, ==_iff, subst, All,
  All-append, Option, none, some, get_elem?, get_or_else, is_some, holds_below, holds_below_sound,
  ◌≡◌, refl, ap, sym, ◌∙◌, arith,
}
use trominal.Vault.Ids.{crockford, digit, encode_from, encode_base32, big_int_from, new_vault_id}

-- The place of a character in the alphabet.
unfoldable index_in : Text → ℕ → ℕ
index_in [] c = 0
index_in (d ∷ s) c = let rest = index_in s c in if d == c then 0 else suc rest

index-digit : (v : ℕ) → v < 32 → index_in crockford (digit v) ≡ v
unfolding index_in holds_below
index-digit v h =
    (==_iff _ _).0 (holds_below_sound (λ u. index_in crockford (digit u) == u) 32 v h refl)

value_from : ℕ → Text → ℕ
value_from acc [] = acc
value_from acc (c ∷ s) = value_from (acc * 32 + index_in crockford c) s

-- `32 ^ n`
capacity : ℕ → ℕ
capacity zero = 1
capacity (suc n) = capacity n * 32

-- The digits read back give the value.
value-encode_from :
    (n current : ℕ) (output : Text)
    → current < capacity n
    → value_from 0 (encode_from n current output) ≡ value_from current output
unfolding encode_from value_from capacity
value-encode_from zero current output h = ap (λ v. value_from v output) (omega (arith, h))
value-encode_from (suc n) current output h =
    value-encode_from n (current / 32) (digit (current % 32) ∷ output) (omega (arith, h))
    ∙ ap (λ v. value_from (current / 32 * 32 + v) output) (index-digit (current % 32) (omega arith))
    ∙ ap (λ v. value_from v output) (omega arith)

encode_base32_injective :
    (n a b : ℕ) → a < capacity n → b < capacity n → encode_base32 a n ≡ encode_base32 b n → a ≡ b
unfolding value_from
encode_base32_injective n a b h k e =
    sym (value-encode_from n a [] h) ∙ ap (value_from 0) e ∙ value-encode_from n b [] k

length-encode_from :
    (n current : ℕ) (output : Text) → length (encode_from n current output) ≡ n + length output
unfolding encode_from
length-encode_from zero current output = omega arith
length-encode_from (suc n) current output =
    omega (arith, length-encode_from n (current / 32) (digit (current % 32) ∷ output))

big_int_from_injective :
    (a b : ℕ) (xs ys : Bytes)
    → length xs ≡ length ys
    → All (λ x. x < 256) xs
    → All (λ y. y < 256) ys
    → big_int_from a xs ≡ big_int_from b ys
    → (a ≡ b) × (xs ≡ ys)
big_int_from_injective a b [] [] l h k e = (e, refl)
big_int_from_injective a b [] (y ∷ ys) l h k e = absurd (omega arith)
big_int_from_injective a b (x ∷ xs) [] l h k e = absurd (omega arith)
big_int_from_injective a b (x ∷ xs) (y ∷ ys) l (small, h) (small', k) e =
    let (heads, tails) =
      big_int_from_injective (a * 256 + x) (b * 256 + y) xs ys (omega arith) h k e in
    let same : x ≡ y = omega (arith, heads, small, small') in
    (omega (arith, heads, small, small'), cc (same, tails))

bound : ℕ → ℕ → ℕ
bound zero cap = cap
bound (suc n) cap = bound n (cap * 256)

big_int_from-lt :
    (acc cap : ℕ) (bytes : Bytes)
    → acc < cap
    → All (λ b. b < 256) bytes
    → big_int_from acc bytes < bound (length bytes) cap
unfolding bound
big_int_from-lt acc cap [] h small = h
big_int_from-lt acc cap (b ∷ bytes) h (small, smalls) =
    big_int_from-lt (acc * 256 + b) (cap * 256) bytes (omega (arith, h, small)) smalls

big_int-capacity :
    (bytes : Bytes)
    → length bytes ≡ 10
    → All (λ b. b < 256) bytes
    → big_int_from 0 bytes < capacity 16
unfolding bound capacity
big_int-capacity bytes l small =
    subst (λ n. big_int_from 0 bytes < bound n 1) l (big_int_from-lt 0 1 bytes (omega arith) small)

abbrev pub IsDigit : ℕ → Type 0
IsDigit c = (v : ℕ) × (get_elem? crockford v ≡ some c)

some_of : (o : Option ℕ) → is_some o ≡ true → o ≡ some (get_or_else o 0)
some_of (some a) h = refl
some_of none h = absurd (cc h)

digit-IsDigit : (v : ℕ) → v < 32 → IsDigit (digit v)
unfolding holds_below
digit-IsDigit v h = (
  v,
  some_of (get_elem? crockford v)
      (holds_below_sound (λ u. is_some (get_elem? crockford u)) 32 v h refl),
)

encode_from-IsDigit :
    (n current : ℕ) (output : Text)
    → All IsDigit output
    → All IsDigit (encode_from n current output)
unfolding encode_from
encode_from-IsDigit zero current output h = h
encode_from-IsDigit (suc n) current output h =
    encode_from-IsDigit n (current / 32) (digit (current % 32) ∷ output)
      (digit-IsDigit (current % 32) (omega arith), h)

-- An id is 26 digits of the Crockford alphabet, whatever the clock and the random bytes are.
pub new_vault_id-IsUlid :
    (now : ℕ) (random : Bytes)
    → (length (new_vault_id now random) ≡ 26) × All IsDigit (new_vault_id now random)
unfolding new_vault_id
new_vault_id-IsUlid now random = (
  omega (
    arith,
    length-append (encode_base32 now 10) (encode_base32 (big_int_from 0 random) 16),
    length-encode_from 10 now [],
    length-encode_from 16 (big_int_from 0 random) [],
  ),
  All-append IsDigit (encode_base32 now 10) (encode_base32 (big_int_from 0 random) 16)
      (encode_from-IsDigit 10 now [] tt) (encode_from-IsDigit 16 (big_int_from 0 random) [] tt),
)

-- Two ids that were made before the year 37,000 are equal only if they were made in the same
-- millisecond from the same 10 random bytes.
pub new_vault_id_injective :
    (now later : ℕ) (random other : Bytes)
    → now < 2 ^ 50
    → later < 2 ^ 50
    → length random ≡ 10
    → length other ≡ 10
    → All (λ b. b < 256) random
    → All (λ b. b < 256) other
    → new_vault_id now random ≡ new_vault_id later other
    → (now ≡ later) × (random ≡ other)
unfolding new_vault_id capacity
new_vault_id_injective now later random other h k l m small small' e =
    let times =
      sym (
        take-append_of_length 10 (encode_base32 now 10) (encode_base32 (big_int_from 0 random) 16)
          (length-encode_from 10 now []))
      ∙ ap (take 10) e
      ∙ take-append_of_length 10 (encode_base32 later 10) (encode_base32 (big_int_from 0 other) 16)
          (length-encode_from 10 later []) in
    let randoms =
      sym (
        drop-append_of_length 10 (encode_base32 now 10) (encode_base32 (big_int_from 0 random) 16)
          (length-encode_from 10 now []))
      ∙ ap (drop 10) e
      ∙ drop-append_of_length 10 (encode_base32 later 10) (encode_base32 (big_int_from 0 other) 16)
          (length-encode_from 10 later []) in
    (
      encode_base32_injective 10 now later h k times,
      (big_int_from_injective 0 0 random other (l ∙ sym m) small small' (
          encode_base32_injective 16 _ _ (big_int-capacity random l small)
            (big_int-capacity other m small') randoms)).1,
    )
