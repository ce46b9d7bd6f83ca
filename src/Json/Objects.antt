-- ===== src/Json/Objects.antt =====
-- Reading a property of an object after one was set.
use trominal.Shared.{
  true, false, Bool-cases, inl, inr, some, Text, text_eq, text_eq_iff, ◌≡◌, ◌≢◌, refl, sym, ◌∙◌,
}
use trominal.Json.{Value, Fields, field, end, get, put}

text_eq_refl : (s : Text) → text_eq s s ≡ true
text_eq_refl s = (text_eq_iff s s).1 refl

pub get-put : (key : Text) (value : Value) (fs : Fields) → get key (put key value fs) ≡ some value
unfolding get put
get-put key value end = rw (text_eq_refl key) refl
get-put key value (field k v fs) = elim (Bool-cases (text_eq k key)) [
  | inl same ↦ rw same (rw same refl)
  | inr other ↦ rw other (rw other (get-put key value fs))
]

text_eq-false : (s t : Text) → s ≢ t → text_eq s t ≡ false
text_eq-false s t other = elim (Bool-cases (text_eq s t)) [
  | inl e ↦ absurd (other ((text_eq_iff s t).0 e))
  | inr e ↦ e
]

pub get-put_other :
    (key other : Text) (value : Value) (fs : Fields)
    → other ≢ key
    → get key (put other value fs) ≡ get key fs
unfolding get put
get-put_other key other value end differ = rw (text_eq-false other key differ) refl
get-put_other key other value (field k v fs) differ = elim (Bool-cases (text_eq k other)) [
  | inl same ↦
      let away : text_eq k key ≡ false =
        text_eq-false k key (λ e. differ (sym ((text_eq_iff k other).0 same) ∙ e)) in
      rw same (rw away refl)
  | inr apart ↦ rw apart (elim (Bool-cases (text_eq k key)) [
    | inl here ↦ rw here refl
    | inr on ↦ rw on (get-put_other key other value fs differ)
  ])
]
