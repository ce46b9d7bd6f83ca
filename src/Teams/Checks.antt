-- ===== src/Teams/Checks.antt =====
-- The calls of features/teams that ask before each step whether the workspace is still the one they
-- began in. A step counts the answers it has used; `current n` is the answer to call number `n`.
pub mod Answers
pub mod Results
use trominal.Shared.{ℕ, suc, Bool, true, false, Option, none, some, ◌≡◌, refl, if◌then◌else◌}
use trominal.Shared.Results.{Result, ok, err}

pub record Did (A : Type 0) : Type 0 where
  pub value : A
  pub calls : ℕ

abbrev pub M : Type 0 → Type 0 → Type 0
M E A = ℕ → Result E (Did A)

abbrev pub continue : {E A B : Type 0} → Result E (Did A) → (A → M E B) → Result E (Did B)
continue (ok did) next = next did.value did.calls
continue (err e) next = err e

infixl 5 ◌>>=◌ ◌>>◌
abbrev pub ◌>>=◌ : {E A B : Type 0} → M E A → (A → M E B) → M E B
◌>>=◌ first next n = continue (first n) next

abbrev pub ◌>>◌ : {E B : Type 0} → M E (Unit {0}) → M E B → M E B
first >> next = first >>= λ _. next

abbrev pub pure : {E A : Type 0} → A → M E A
pure a n = ok (record { value = a; calls = n })

abbrev pub lift : {E A : Type 0} → Result E A → M E A
lift (ok a) n = ok (record { value = a; calls = n })
lift (err e) n = err e

abbrev pub guard : {E : Type 0} → Bool → E → M E (Unit {0})
guard true e n = ok (record { value = tt; calls = n })
guard false e n = err e

abbrev pub from_option : {E A : Type 0} → Option A → E → M E A
from_option (some a) e n = ok (record { value = a; calls = n })
from_option none e n = err e

module _ (current : ℕ → Bool) where
  -- `if (!isCurrent()) throw e`
  abbrev pub check : {E : Type 0} → E → M E (Unit {0})
  check e n = if current n then ok (record { value = tt; calls = suc n }) else err e

-- A chain that succeeds went through its first step.
pub >>=-eq-ok :
    {E A B : Type 0} (first : M E A) (next : A → M E B) (n : ℕ) {did : Did B}
    → (first >>= next) n ≡ ok did
    → (got : Did A) × (first n ≡ ok got) × (next got.value got.calls ≡ ok did)
>>=-eq-ok first next n {did} h = continue-eq-ok (first n) h
  where
    continue-eq-ok :
        (r : _)
        → continue r next ≡ ok did
        → (got : Did _) × (r ≡ ok got) × (next got.value got.calls ≡ ok did)
    continue-eq-ok (ok got) h = (got, refl, h)
    continue-eq-ok (err e) h = absurd (cc h)
