-- ===== src/HostKeys/Pins.antt =====
-- Approval and comparison of host keys (apps/client/src/features/hosts/host-keys.ts).
use trominal.Shared.{
  true, false, Bool-cases, List, [], ◌∷◌, map, Text, text_eq, text_eq_iff, ◌≡◌, ◌≢◌, ◌↔◌, ◌⊎◌, inl,
  inr, refl, sym, subst, All, Some, In, Distinct, All-map, Some-map, All-In, any_iff_Some, arith,
}
use trominal.HostKeys.{
  ScannedHostKey, HostKeyPin, matching, unpinned, key_id, pin_id, has, approve, pins_after,
  pins_from_approval, compare_with_pins,
}

pub has_iff : (seen : List Text) (id : Text) → (has seen id ≡ true) ↔ In id seen
unfolding has
has_iff seen id = any_iff_Some (λ s. s ≡ id) (λ s. text_eq s id) (λ s. text_eq_iff s id) seen

has-false : (seen : List Text) (id : Text) → has seen id ≡ false → In id seen → ⊥
has-false seen id h i = absurd (cc (h, (has_iff seen id).1 i))

-- One of the presented keys has the id of a pin.
abbrev pub Approved : List HostKeyPin → List ScannedHostKey → Type 0
Approved pins presented = Some (λ key. In (key_id key) (map pin_id pins)) presented

no_pins : (presented : List ScannedHostKey) → Approved [] presented → ⊥
no_pins [] s = s
no_pins (key ∷ presented) (inl s) = s
no_pins (key ∷ presented) (inr s) = no_pins presented s

pub compare_with_pins_iff :
    (pins : List HostKeyPin) (presented : List ScannedHostKey)
    → ((compare_with_pins pins presented ≡ matching) ↔ Approved pins presented)
      × ((compare_with_pins pins presented ≡ unpinned) ↔ (pins ≡ []))
unfolding compare_with_pins
compare_with_pins_iff [] presented =
    (((λ e. absurd (cc e)), (λ s. absurd (no_pins presented s))), ((λ e. refl), (λ e. refl)))
compare_with_pins_iff (pin ∷ pins) presented =
    let ids = map pin_id (pin ∷ pins) in
    let (forth, back) =
      any_iff_Some (λ key. In (key_id key) ids) (λ key. has ids (key_id key))
        (λ key. has_iff ids (key_id key)) presented in
    (
      ((λ e. forth (ground arith)), (λ s. rw (back s) refl)),
      ((λ e. ground arith), (λ e. absurd (cc e))),
    )

-- The pins after `seen` have ids that are distinct and not in `seen`.
pins_after-Distinct :
    (now : Text) (seen : List Text) (keys : List ScannedHostKey)
    → Distinct (map pin_id (pins_after now seen keys))
      × All (λ id. In id seen → ⊥) (map pin_id (pins_after now seen keys))
unfolding pins_after
pins_after-Distinct now seen [] = (tt, tt)
pins_after-Distinct now seen (key ∷ keys) = elim (Bool-cases (has seen (key_id key))) [
  | inl e ↦ rw e (pins_after-Distinct now seen keys)
  | inr e ↦
      let (distinct, unseen) = pins_after-Distinct now (key_id key ∷ seen) keys in
      rw e (
        (
          All-map (λ id. In id (key_id key ∷ seen) → ⊥) (λ id. key_id key ≢ id)
              (map pin_id (pins_after now (key_id key ∷ seen) keys)) (λ id out same. out (inl same))
              unseen,
          distinct,
        ),
        (
          has-false seen (key_id key) e,
          All-map (λ id. In id (key_id key ∷ seen) → ⊥) (λ id. In id seen → ⊥)
              (map pin_id (pins_after now (key_id key ∷ seen) keys)) (λ id out i. out (inr i))
              unseen,
        ),
      )
]

-- A presented key that was not seen before is pinned.
pins_after_complete :
    (now : Text) (seen : List Text) (keys : List ScannedHostKey) (id : Text)
    → In id (map key_id keys)
    → In id seen ⊎ In id (map pin_id (pins_after now seen keys))
unfolding pins_after
pins_after_complete now seen [] id s = absurd s
pins_after_complete now seen (key ∷ keys) id (inl same) =
    elim (Bool-cases (has seen (key_id key))) [
      | inl e ↦ inl (subst (λ i. In i seen) same ((has_iff seen (key_id key)).0 e))
      | inr e ↦ rw e (inr (inl same))
    ]
pins_after_complete now seen (key ∷ keys) id (inr later) =
    elim (Bool-cases (has seen (key_id key))) [
      | inl e ↦ rw e (pins_after_complete now seen keys id later)
      | inr e ↦ rw e (
          skip (map pin_id (pins_after now (key_id key ∷ seen) keys))
            (pins_after_complete now (key_id key ∷ seen) keys id later))
    ]
  where
    skip :
        (rest : List Text)
        → In id (key_id key ∷ seen) ⊎ In id rest
        → In id seen ⊎ In id (key_id key ∷ rest)
    skip rest (inl (inl same)) = inr (inl same)
    skip rest (inl (inr i)) = inl i
    skip rest (inr i) = inr (inr i)

-- Every pin is one of the presented keys.
pins_after_sound :
    (now : Text) (seen : List Text) (keys : List ScannedHostKey)
    → All (λ pin. Some (λ key. approve now key ≡ pin) keys) (pins_after now seen keys)
unfolding pins_after
pins_after_sound now seen [] = tt
pins_after_sound now seen (key ∷ keys) = elim (Bool-cases (has seen (key_id key))) [
  | inl e ↦ rw e (weaken (pins_after now seen keys) (pins_after_sound now seen keys))
  | inr e ↦ rw e (
    inl refl,
    weaken (pins_after now (key_id key ∷ seen) keys)
        (pins_after_sound now (key_id key ∷ seen) keys),
  )
]
  where
    weaken :
        (pins : List HostKeyPin)
        → All (λ pin. Some (λ k. approve now k ≡ pin) keys) pins
        → All (λ pin. Some (λ k. approve now k ≡ pin) (key ∷ keys)) pins
    weaken pins =
        All-map (λ pin. Some (λ k. approve now k ≡ pin) keys)
          (λ pin. Some (λ k. approve now k ≡ pin) (key ∷ keys)) pins (λ pin s. inr s)

-- An approval pins every presented key, pins no other key, and pins none twice.
pub pins_from_approval-exact :
    (keys : List ScannedHostKey) (now : Text)
    → Distinct (map pin_id (pins_from_approval keys now))
      × All (λ pin. Some (λ key. approve now key ≡ pin) keys) (pins_from_approval keys now)
      × All (λ key. In (key_id key) (map pin_id (pins_from_approval keys now))) keys
unfolding pins_from_approval
pins_from_approval-exact keys now = (
  (pins_after-Distinct now [] keys).0,
  pins_after_sound now [] keys,
  every_key keys (λ id i. pinned id (pins_after_complete now [] keys id i)),
)
  where
    pinned :
        (id : Text)
        → In id [] ⊎ In id (map pin_id (pins_after now [] keys))
        → In id (map pin_id (pins_after now [] keys))
    pinned id (inl i) = absurd i
    pinned id (inr i) = i

    every_key :
        (ks : List ScannedHostKey)
        → ((id : Text) → In id (map key_id ks) → In id (map pin_id (pins_after now [] keys)))
        → All (λ key. In (key_id key) (map pin_id (pins_after now [] keys))) ks
    every_key [] f = tt
    every_key (k ∷ ks) f = (f (key_id k) (inl refl), every_key ks (λ id i. f id (inr i)))

-- The keys that were just approved are found again: the next comparison with the same server, or
-- with one of its keys, is a match.
pub compare_with_pins-pins_from_approval :
    (keys : List ScannedHostKey) (now : Text) (key : ScannedHostKey)
    → In key keys
    → (compare_with_pins (pins_from_approval keys now) keys ≡ matching)
      × (compare_with_pins (pins_from_approval keys now) (key ∷ []) ≡ matching)
compare_with_pins-pins_from_approval keys now key i =
    let pins = pins_from_approval keys now in
    let (_, _, all_pinned) = pins_from_approval-exact keys now in
    let pinned = All-In (λ k. In (key_id k) (map pin_id pins)) keys key all_pinned i in
    (
      (compare_with_pins_iff pins keys).0.1 (
          Some-map (λ k. k ≡ key) (λ k. In (key_id k) (map pin_id pins)) keys
            (λ k same. subst (λ k. In (key_id k) (map pin_id pins)) (sym same) pinned) i),
      (compare_with_pins_iff pins (key ∷ [])).0.1 (inl pinned),
    )
