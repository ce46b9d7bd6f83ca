-- ===== src/Crypto/Envelope/Binding.antt =====
-- `makeAd` of packages/crypto/src/envelope.ts: which rows share an associated data string.
use mathlib.Core.Path.{ap₂}
use mathlib.Core.Bool.{not}
use trominal.Shared.{◌||◌, [], ◌∷◌, ◌++◌, Text, codes, ◌==◌, length, ◌≡◌, ◌≢◌, refl, sym, ◌∙◌, All}
use trominal.Shared.Results.{ok, require-eq-ok}
use trominal.Crypto.Envelope.{ad_text, make_ad, empty_resource}

abbrev pub NoColon : Text → Type 0
NoColon = All (λ c. c ≢ b':')

-- The part before the first colon is determined.
pub split_at_colon :
    (s t : Text) {u v : Text}
    → NoColon s
    → NoColon t
    → s ++ (b':' ∷ u) ≡ t ++ (b':' ∷ v)
    → (s ≡ t) × (u ≡ v)
split_at_colon [] [] h k e = (refl, cc e)
split_at_colon [] (d ∷ t) h k e = absurd (k.0 (sym (cc e)))
split_at_colon (c ∷ s) [] h k e = absurd (h.0 (cc e))
split_at_colon (c ∷ s) (d ∷ t) {u} {v} h k e =
    let below : (s ≡ t) × (u ≡ v) = split_at_colon s t h.1 k.1 (cc e) in
    let here : c ≡ d = cc e in (ap₂ (λ x y. x ∷ y) here below.0, below.1)

pub append_cancel_left : (p : Text) {s t : Text} → p ++ s ≡ p ++ t → s ≡ t
append_cancel_left [] e = e
append_cancel_left (c ∷ p) e = append_cancel_left p (cc e)

pub make_ad-eq-ok : (type id : Text) {ad : Text} → make_ad type id ≡ ok ad → ad_text type id ≡ ad
unfolding make_ad
make_ad-eq-ok type id h =
    let guarded =
      require-eq-ok (not (length type == 0 || length id == 0)) empty_resource (ok (ad_text type id))
        h in
    cc guarded.1

-- Two rows share an associated data string only if they have the same type and the same id, for
-- types with no colon.
pub make_ad_injective :
    (type type' id id' : Text) {ad : Text}
    → NoColon type
    → NoColon type'
    → make_ad type id ≡ ok ad
    → make_ad type' id' ≡ ok ad
    → (type ≡ type') × (id ≡ id')
make_ad_injective type type' id id' h k p q = split_at_colon type type' h k (
    append_cancel_left (codes "trominal:v1:")
      (make_ad-eq-ok type id p ∙ sym (make_ad-eq-ok type' id' q)))
