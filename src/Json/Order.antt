-- ===== src/Json/Order.antt =====
-- `Array.prototype.sort` on strings: by UTF-16 code units, with no comparison function.
use mathlib.Core.Logic.{∥∥₁_elim}
use mathlib.Core.List.{Perm, Permᴰ}
use mathlib.Core.List.Perm
use mathlib.Core.Path.{ap₂}
use trominal.Shared.{
  Bool, true, false, Bool-cases, inl, inr, List, [], ◌∷◌, Text, ltb, ◌==◌, if◌then◌else◌, ◌≡◌, refl,
  ◌∙◌, subst, ◌↔◌, arith,
}

unfoldable pub text_le : Text → Text → Bool
text_le [] t = true
text_le (a ∷ s) [] = false
text_le (a ∷ s) (b ∷ t) = if a == b then text_le s t else ltb a b

insert : Text → List Text → List Text
insert x [] = x ∷ []
insert x (y ∷ ys) = if text_le x y then x ∷ y ∷ ys else y ∷ insert x ys

unfoldable pub sort : List Text → List Text
unfolding insert text_le
sort [] = []
sort (x ∷ xs) = insert x (sort xs)

text_le_total : (s t : Text) → text_le s t ≡ false → text_le t s ≡ true
unfolding text_le
text_le_total [] t h = ground arith
text_le_total (a ∷ s) [] h = refl
text_le_total (a ∷ s) (b ∷ t) h = ground (arith, text_le_total s t)

text_le_antisymm : (s t : Text) → text_le s t ≡ true → text_le t s ≡ true → s ≡ t
unfolding text_le
text_le_antisymm [] [] h k = refl
text_le_antisymm [] (b ∷ t) h k = ground arith
text_le_antisymm (a ∷ s) [] h k = ground arith
text_le_antisymm (a ∷ s) (b ∷ t) h k = ground (arith, text_le_antisymm s t)

text_le_trans : (s t u : Text) → text_le s t ≡ true → text_le t u ≡ true → text_le s u ≡ true
unfolding text_le
text_le_trans [] t u h k = refl
text_le_trans (a ∷ s) [] u h k = ground arith
text_le_trans (a ∷ s) (b ∷ t) [] h k = ground arith
text_le_trans (a ∷ s) (b ∷ t) (c ∷ u) h k = ground (arith, text_le_trans s t u)

insert-perm : (x : Text) (ys : List Text) → Perm (insert x ys) (x ∷ ys)
unfolding insert
insert-perm x [] = Perm.refl (x ∷ [])
insert-perm x (y ∷ ys) = elim (Bool-cases (text_le x y)) [
  | inl e ↦ rw e (Perm.refl (x ∷ y ∷ ys))
  | inr e ↦ rw e (Perm.trans (Perm.cons y (insert-perm x ys)) (Perm.swap x y ys))
]

-- Sorting keeps the elements.
pub sort-perm : (xs : List Text) → Perm (sort xs) xs
unfolding sort
sort-perm [] = Perm.refl []
sort-perm (x ∷ xs) = Perm.trans (insert-perm x (sort xs)) (Perm.cons x (sort-perm xs))

insert_comm : (x y : Text) (zs : List Text) → insert x (insert y zs) ≡ insert y (insert x zs)
unfolding insert
insert_comm x y [] = ground (arith, text_le_total x y, text_le_antisymm x y, text_le_total y x)
insert_comm x y (z ∷ zs) = ground (
  arith,
  insert_comm x y zs,
  text_le_total x y,
  text_le_total y x,
  text_le_antisymm x y,
  text_le_trans x y z,
  text_le_trans y x z,
  text_le_total x z,
  text_le_total y z,
)

sort_of_permᴰ : {xs ys : List Text} → Permᴰ xs ys → sort xs ≡ sort ys
unfolding sort
sort_of_permᴰ Permᴰ.nil = refl
sort_of_permᴰ (Permᴰ.cons e p) = ap₂ insert e (sort_of_permᴰ p)
sort_of_permᴰ (Permᴰ.swap {a = x} {b = y} {l = l} e f) =
    insert_comm x y (sort l) ∙ ap₂ (λ u v. insert u (insert v (sort l))) f e
sort_of_permᴰ (Permᴰ.trans p q) = sort_of_permᴰ p ∙ sort_of_permᴰ q

texts-set : IsSet (List Text)
texts-set = hlevel

-- The order in which the elements stand does not matter.
pub sort_of_perm : {xs ys : List Text} → Perm xs ys → sort xs ≡ sort ys
sort_of_perm p = ∥∥₁_elim p (texts-set _ _) sort_of_permᴰ

-- A list sorts to a sorted list exactly if it is a permutation of that.
pub sort-eq_iff_perm : (xs ys : List Text) → sort ys ≡ ys → (sort xs ≡ ys) ↔ Perm xs ys
sort-eq_iff_perm xs ys sorted = (
  (λ e.
      Perm.trans (Perm.symm (sort-perm xs))
        (subst (λ zs. Perm (sort xs) zs) e (Perm.refl (sort xs)))),
  (λ p. sort_of_perm p ∙ sorted),
)
