-- ===== src/Teams/Checks/Results.antt =====
-- What holds of the value of a chain of steps that succeeds (apps/client/src/features/teams).
use trominal.Shared.{ℕ, Bool, true, false, Option, none, some, ◌≡◌, refl, ap, subst}
use trominal.Shared.Results.{Result, ok, err}
use trominal.Teams.Checks.{M, Did, ◌>>=◌, pure, lift, guard, from_option, check, ◌>>◌, >>=-eq-ok}

abbrev pub Ensures : {E A : Type 0} → (A → Type 0) → M E A → Type 0
Ensures {E} {A} P step = (n : ℕ) (did : Did A) → step n ≡ ok did → P did.value

pub bind-Ensures :
    {E A B : Type 0} (P : A → Type 0) (Q : B → Type 0) (first : M E A) (next : A → M E B)
    → Ensures P first
    → ((a : A) → P a → Ensures Q (next a))
    → Ensures Q (first >>= next)
bind-Ensures P Q first next h k n did e =
    let (got, began, ended) = >>=-eq-ok first next n e in
    k got.value (h n got began) got.calls did ended

unfoldable value_of : {E A : Type 0} → Result E (Did A) → Option A
value_of (ok did) = some did.value
value_of (err e) = none

pub pure-Ensures : {E A : Type 0} (P : A → Type 0) (a : A) → P a → Ensures {E = E} P (pure a)
unfolding value_of
pure-Ensures P a p n did e = subst P (cc (ap value_of e)) p

pub lift-Ensures : {E A : Type 0} (r : Result E A) → Ensures (λ a. r ≡ ok a) (lift r)
unfolding value_of
lift-Ensures (ok a) n did e = cc (ap value_of e)
lift-Ensures (err e) n did h = absurd (cc h)

pub guard-Ensures : {E : Type 0} (test : Bool) (e : E) → Ensures (λ _. test ≡ true) (guard test e)
guard-Ensures true e n did h = refl
guard-Ensures false e n did h = absurd (cc h)

pub from_option-Ensures :
    {E A : Type 0} (o : Option A) (e : E) → Ensures (λ a. o ≡ some a) (from_option o e)
unfolding value_of
from_option-Ensures (some a) e n did h = cc (ap value_of h)
from_option-Ensures none e n did h = absurd (cc h)

-- A step of which nothing need be known.
pub any-Ensures : {E A : Type 0} (step : M E A) → Ensures (λ _. Unit {0}) step
any-Ensures step n did h = tt

-- A question whether the workspace is current changes no result.
pub check-Ensures :
    {E B : Type 0} (P : B → Type 0) (current : ℕ → Bool) (e : E) (next : M E B)
    → Ensures P next
    → Ensures P (check current e >> next)
check-Ensures P current e next h = bind-Ensures _ _ _ _ (any-Ensures (check current e)) (λ _ _. h)
