-- ===== src/Shared/Predicates.antt =====
-- Predicates on the elements of a list, and the tests that decide them.
use mathlib.Core.Path.{◌≡◌, refl, ap, ◌∙◌, subst}
use mathlib.Core.Logic.{◌⊎◌, inl, inr, ◌↔◌, ◌≢◌}
use mathlib.Core.Bool.{Bool, true}
use mathlib.Core.List.{List, [], ◌∷◌, ◌++◌, map}
use trominal.Shared.Tests.{Bool-cases}
use trominal.Shared.Lists.{any, filter}

abbrev pub All {ℓ κ} : {A : Type ℓ} → (A → Type κ) → List A → Type κ
All P [] = Unit
All P (x ∷ xs) = P x × All P xs

-- There is an element with the property, with its position kept.
abbrev pub Some {ℓ} : {A : Type ℓ} → (A → Type 0) → List A → Type 0
Some P [] = ⊥
Some P (x ∷ xs) = P x ⊎ Some P xs

-- `x` is an element.
abbrev pub In : {A : Type 0} → A → List A → Type 0
In x = Some (λ y. y ≡ x)

abbrev pub Distinct : {A : Type 0} → List A → Type 0
Distinct [] = Unit {0}
Distinct (x ∷ xs) = All (λ y. x ≢ y) xs × Distinct xs

module _ {ℓ κ} {A : Type ℓ} (P : A → Type κ) where
  pub All-append : (xs ys : List A) → All P xs → All P ys → All P (xs ++ ys)
  All-append [] ys hx hy = hy
  All-append (x ∷ xs) ys hx hy = (hx.0, All-append xs ys hx.1 hy)

module _ {ℓ κ μ} {A : Type ℓ} (P : A → Type κ) (Q : A → Type μ) where
  pub All-map : (xs : List A) → ((x : A) → P x → Q x) → All P xs → All Q xs
  All-map [] f h = tt
  All-map (x ∷ xs) f h = (f x h.0, All-map xs f h.1)

module _ {ℓ} {A : Type ℓ} (P Q : A → Type 0) where
  pub Some-map : (xs : List A) → ((x : A) → P x → Q x) → Some P xs → Some Q xs
  Some-map [] f s = absurd s
  Some-map (x ∷ xs) f (inl p) = inl (f x p)
  Some-map (x ∷ xs) f (inr s) = inr (Some-map xs f s)

module _ {A : Type 0} (P : A → Type 0) where
  pub All-In : (xs : List A) (x : A) → All P xs → In x xs → P x
  All-In [] x h s = absurd s
  All-In (y ∷ xs) x h (inl e) = subst P e h.0
  All-In (y ∷ xs) x h (inr s) = All-In xs x h.1 s

module _ {A : Type 0} (P : A → Type 0) (test : A → Bool)
    (decides : (x : A) → (test x ≡ true) ↔ P x) where
  any-true : (xs : List A) → any test xs ≡ true → Some P xs
  any-true [] h = absurd (cc h)
  any-true (x ∷ xs) h = elim (Bool-cases (test x)) [
    | inl e ↦ inl ((decides x).0 e)
    | inr e ↦ inr (any-true xs (rw e at h))
  ]

  any_of_Some : (xs : List A) → Some P xs → any test xs ≡ true
  any_of_Some [] s = absurd s
  any_of_Some (x ∷ xs) (inl p) = rw ((decides x).1 p) refl
  any_of_Some (x ∷ xs) (inr s) = elim (Bool-cases (test x)) [
    | inl e ↦ rw e refl
    | inr e ↦ rw e (any_of_Some xs s)
  ]

  -- A test that decides the property tells with `any` whether an element has it.
  pub any_iff_Some : (xs : List A) → (any test xs ≡ true) ↔ Some P xs
  any_iff_Some xs = (any-true xs, any_of_Some xs)

module _ {A : Type 0} (x : A) where
  pub In-append_left : (xs ys : List A) → In x xs → In x (xs ++ ys)
  In-append_left [] ys i = absurd i
  In-append_left (y ∷ xs) ys (inl e) = inl e
  In-append_left (y ∷ xs) ys (inr i) = inr (In-append_left xs ys i)

  pub In-append_right : (xs ys : List A) → In x ys → In x (xs ++ ys)
  In-append_right [] ys i = i
  In-append_right (y ∷ xs) ys i = inr (In-append_right xs ys i)

  pub In-filter : (p : A → Bool) (xs : List A) → In x xs → p x ≡ true → In x (filter p xs)
  In-filter p [] i h = absurd i
  In-filter p (y ∷ xs) (inl e) h = rw (ap p e ∙ h, filter) (inl e)
  In-filter p (y ∷ xs) (inr i) h = elim (Bool-cases (p y)) [
    | inl kept ↦ rw (kept, filter) (inr (In-filter p xs i h))
    | inr dropped ↦ rw (dropped, filter) (In-filter p xs i h)
  ]

module _ {A B : Type 0} (f : A → B) (x : A) where
  pub In-map : (xs : List A) → In x xs → In (f x) (map f xs)
  In-map [] i = absurd i
  In-map (y ∷ xs) (inl e) = inl (ap f e)
  In-map (y ∷ xs) (inr i) = inr (In-map xs i)
