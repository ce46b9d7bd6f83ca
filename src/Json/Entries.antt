-- ===== src/Json/Entries.antt =====
-- `for (const [key, value] of Object.entries(o))` with a body that changes some state or throws.
use trominal.Shared.{
  Bool-cases, inl, inr, some, Text, text_eq, text_eq_iff, ◌≡◌, ◌≢◌, subst, All, Distinct,
}
use trominal.Shared.Results.{Result, ok, ◌>>=◌, >>=-eq-ok}
use trominal.Json.{Value, Fields, end, field, get, keys}

module _ {S E : Type 0} (body : Text → Value → S → Result E S) where
  unfoldable pub for_entries : Fields → S → Result E S
  for_entries end s = ok s
  for_entries (field key value entries) s = do next ← body key value s; for_entries entries next

  -- A property that the body keeps on these keys is kept by the loop.
  pub for_entries-keeps :
      (P : S → Type 0) (entries : Fields) (s : S) {last : S} (Q : Text → Type 0)
      → All Q (keys entries)
      → ((key : Text) (value : Value) (s next : S)
          → Q key
          → P s
          → body key value s ≡ ok next
          → P next)
      → P s
      → for_entries entries s ≡ ok last
      → P last
  unfolding for_entries keys
  for_entries-keeps P end s Q all keep p h = subst P (cc h) p
  for_entries-keeps P (field key value entries) s Q all keep p h =
      let (next, first, rest) = >>=-eq-ok (body key value s) (λ next. for_entries entries next) h in
      for_entries-keeps P entries next Q all.1 keep (keep key value s next all.0 p first) rest

  -- What the body brings about for one key, and keeps for all others, holds in the end.
  pub for_entries-at :
      (P : S → Type 0) (key : Text) (value : Value) (entries : Fields) (s : S) {last : S}
      → Distinct (keys entries)
      → get key entries ≡ some value
      → ((s next : S) → body key value s ≡ ok next → P next)
      → ((other : Text) (v : Value) (s next : S)
          → key ≢ other
          → P s
          → body other v s ≡ ok next
          → P next)
      → for_entries entries s ≡ ok last
      → P last
  unfolding for_entries keys get
  for_entries-at P key value end s distinct found bring keep h = absurd (cc found)
  for_entries-at P key value (field k v entries) s distinct found bring keep h =
      let (next, first, rest) = >>=-eq-ok (body k v s) (λ next. for_entries entries next) h in
      elim (Bool-cases (text_eq k key)) [
        | inl here ↦
            let same : k ≡ key = (text_eq_iff k key).0 here in
            let v_same : v ≡ value = cc (rw here at found) in
            for_entries-keeps P entries next (λ other. key ≢ other)
              (subst (λ t. All (λ y. t ≢ y) (keys entries)) same distinct.0) keep
              (bring s next (
                subst (λ t. body t value s ≡ ok next) same
                  (subst (λ w. body k w s ≡ ok next) v_same first)))
              rest
        | inr away ↦
            for_entries-at P key value entries next distinct.1 (rw away at found) bring keep rest
      ]
