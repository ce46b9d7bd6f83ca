-- ===== src/Shared/Decimal.antt =====
-- `String(n)` of a non-negative integer below 10 ^ 21, where JavaScript writes all digits.
use Prim.Native.Nat.{ℕ, zero, suc, ◌+◌, ◌-◌, ◌*◌, ◌/◌, ◌%◌, ◌≤◌}
use mathlib.Core.Path.{◌≡◌, ap, sym, ◌∙◌}
use mathlib.Core.Logic.{inl, inr}
use mathlib.Core.List.{[], ◌∷◌}
use native.Mathlib.Omega.{arith}
use trominal.Shared.Tests.{ltb, if◌then◌else◌, Bool-cases}
use trominal.Shared.Texts.{Text}

-- The digits of `n` in front of `tail`; `n` falls each round, so `n` rounds are enough.
digits_from : ℕ → ℕ → Text → Text
digits_from zero n tail = (48 + n % 10) ∷ tail
digits_from (suc rounds) n tail =
    let more = digits_from rounds (n / 10) ((48 + n % 10) ∷ tail) in
    if ltb n 10 then (48 + n % 10) ∷ tail else more

unfoldable pub decimal : ℕ → Text
unfolding digits_from
decimal n = digits_from n n []

read_from : ℕ → Text → ℕ
read_from acc [] = acc
read_from acc (c ∷ s) = read_from (acc * 10 + (c - 48)) s

read_from-digits_from :
    (rounds n : ℕ) (tail : Text)
    → n ≤ rounds
    → read_from 0 (digits_from rounds n tail) ≡ read_from n tail
unfolding read_from digits_from
read_from-digits_from zero n tail h = ap (λ v. read_from v tail) (omega arith)
read_from-digits_from (suc rounds) n tail h = elim (Bool-cases (ltb n 10)) [
  | inl e ↦ rw e (ap (λ v. read_from v tail) (ground arith))
  | inr e ↦ rw e (
      read_from-digits_from rounds (n / 10) ((48 + n % 10) ∷ tail) (ground arith)
      ∙ ap (λ v. read_from v tail) (omega arith))
]

-- Two numbers with the same digits are the same.
pub decimal_injective : (n k : ℕ) → decimal n ≡ decimal k → n ≡ k
unfolding decimal read_from
decimal_injective n k e =
    sym (read_from-digits_from n n [] (omega arith))
    ∙ ap (read_from 0) e
    ∙ read_from-digits_from k k [] (omega arith)
