-- ===== src/Teams/Checks/Answers.antt =====
-- Every answer that a chain of steps has used was true (apps/client/src/features/teams).
use trominal.Shared.{
  ℕ, suc, ◌<◌, ◌≤◌, Bool, true, false, Bool-cases, inl, inr, Option, none, some, ◌≡◌, ap, subst,
  arith, ltb,
}
use trominal.Shared.Results.{Result, ok, err}
use trominal.Teams.Checks.{M, Did, ◌>>=◌, pure, lift, guard, from_option, check, >>=-eq-ok}

module _ (current : ℕ → Bool) where
  -- Every answer from number `n` on, below `m`.
  abbrev pub Answered : (n m : ℕ) → Type 0
  Answered n m = (n ≤ m) × ((k : ℕ) → n ≤ k → k < m → current k ≡ true)

  abbrev pub IsChecked : {E A : Type 0} → M E A → Type 0
  IsChecked {E} {A} step = (n : ℕ) (did : Did A) → step n ≡ ok did → Answered n did.calls

  nothing : (n m : ℕ) → n ≡ m → Answered n m
  nothing n m e = (omega arith, λ k h l. absurd (omega arith))

  pub then_on : (a b c : ℕ) → Answered a b → Answered b c → Answered a c
  then_on a b c (h, early) (l, late) = (
    omega arith,
    λ k i j. elim (Bool-cases (ltb k b)) [
      | inl e ↦ early k i (ground arith)
      | inr e ↦ late k (ground arith) j
    ],
  )

  pub bind-IsChecked :
      {E A B : Type 0} (first : M E A) (next : A → M E B)
      → IsChecked first
      → ((a : A) → IsChecked (next a))
      → IsChecked (first >>= next)
  bind-IsChecked first next h k n did e =
      let (got, began, ended) = >>=-eq-ok first next n e in
      then_on n got.calls did.calls (h n got began) (k got.value got.calls did ended)

  unfoldable calls_of : {E A : Type 0} → Result E (Did A) → ℕ
  calls_of (ok did) = did.calls
  calls_of (err e) = 0

  pub pure-IsChecked : {E A : Type 0} (a : A) → IsChecked {E = E} (pure a)
  unfolding calls_of
  pure-IsChecked a n did e = nothing n did.calls (ap calls_of e)

  pub lift-IsChecked : {E A : Type 0} (r : Result E A) → IsChecked (lift r)
  unfolding calls_of
  lift-IsChecked (ok a) n did e = nothing n did.calls (ap calls_of e)
  lift-IsChecked (err e) n did h = absurd (cc h)

  pub guard-IsChecked : {E : Type 0} (test : Bool) (e : E) → IsChecked (guard test e)
  unfolding calls_of
  guard-IsChecked true e n did h = nothing n did.calls (ap calls_of h)
  guard-IsChecked false e n did h = absurd (cc h)

  pub from_option-IsChecked : {E A : Type 0} (o : Option A) (e : E) → IsChecked (from_option o e)
  unfolding calls_of
  from_option-IsChecked (some a) e n did h = nothing n did.calls (ap calls_of h)
  from_option-IsChecked none e n did h = absurd (cc h)

  pub check-IsChecked : {E : Type 0} (e : E) → IsChecked (check current e)
  unfolding calls_of
  check-IsChecked e n did h = elim (Bool-cases (current n)) [
    | inl yes_now ↦
        let m : suc n ≡ did.calls = ap calls_of (rw yes_now at h) in
        (omega arith, λ k i j. subst (λ t. current t ≡ true) {x = n} (omega arith) yes_now)
    | inr stale ↦ absurd (cc (rw stale at h))
  ]
