-- ===== src/Session/TeamScope/Ownership.antt =====
-- Who owns a team key, and when its buffer is zeroed (apps/client/src/features/teams/store.ts).
use trominal.Shared.{
  ℕ, Bool, true, false, Bool-cases, ◌&&◌, List, Option, none, some, Text, if◌then◌else◌, ==_iff,
  ◌≡◌, ◌⊎◌, inl, inr, refl, sym, ap, ◌∙◌, All, All-map, In,
}
use mathlib.Core.Bool.{not}
use trominal.Session.TeamScope.{
  TeamScope, is_null, is_text, is_number, wipe_if_present, without_key, is_missing,
  set_personal_scope, set_team_scope, set_selected_team_key, set_selected_team_key_error,
  clear_selected_team_key, reconcile_team_ids, Step, personal, team, error, clear, reconcile,
  Reachable, start, hands, after,
}

-- A key that was handed over is the one in the store, or its buffer was zeroed.
abbrev pub IsAccountedFor : TeamScope → ℕ → Type 0
IsAccountedFor s k = (s.selected_team_key ≡ some k) ⊎ In k s.wiped

-- What a call may do to the keys: the store lets go of none that it does not zero.
abbrev Keeps : TeamScope → TeamScope → Type 0
Keeps s t = (k : ℕ) → IsAccountedFor s k → IsAccountedFor t k

In-wipe_if_present :
    (key : Option ℕ) (wiped : List ℕ) (k : ℕ) → In k wiped → In k (wipe_if_present key wiped)
In-wipe_if_present none wiped k i = i
In-wipe_if_present (some key) wiped k i = inr i

without_key-wipes :
    (team_id message : Option Text) (s : TeamScope) (k : ℕ)
    → IsAccountedFor s k
    → In k (without_key team_id message s).wiped
without_key-wipes team_id message s k (inl held) = rw held (inl refl)
without_key-wipes team_id message s k (inr zeroed) =
    In-wipe_if_present s.selected_team_key s.wiped k zeroed

without_key-Keeps :
    (team_id message : Option Text) (s : TeamScope) → Keeps s (without_key team_id message s)
without_key-Keeps team_id message s k i = inr (without_key-wipes team_id message s k i)

if-Keeps : (test : Bool) (s t : TeamScope) → Keeps s t → Keeps s (if test then s else t)
if-Keeps true s t h k i = i
if-Keeps false s t h k i = h k i

set_personal_scope-Keeps : (s : TeamScope) → Keeps s (set_personal_scope s)
unfolding set_personal_scope
set_personal_scope-Keeps s = if-Keeps _ s _ (without_key-Keeps none none s)

Step-Keeps : {s t : TeamScope} → Step s t → Keeps s t
unfolding set_team_scope set_selected_team_key_error clear_selected_team_key reconcile_team_ids
Step-Keeps (personal {s}) = set_personal_scope-Keeps s
Step-Keeps (team team_id {s}) = if-Keeps _ s _ (without_key-Keeps (some team_id) none s)
Step-Keeps (error message {s}) = if-Keeps _ s _ (without_key-Keeps s.selected_team_id message s)
Step-Keeps (clear {s}) = if-Keeps _ s _ (without_key-Keeps s.selected_team_id none s)
Step-Keeps (reconcile team_ids {s}) = elim (Bool-cases (is_missing s.selected_team_id team_ids)) [
  | inl e ↦ rw e (set_personal_scope-Keeps s)
  | inr e ↦ rw e (λ k i. i)
]

is_number-true : (n : Option ℕ) (k : ℕ) → is_number n k ≡ true → n ≡ some k
is_number-true none k h = absurd (cc h)
is_number-true (some n) k h = ap some ((==_iff n k).0 h)

set_selected_team_key-Keeps :
    (team_id : Text) (key_version k : ℕ) (s : TeamScope)
    → Keeps s (set_selected_team_key team_id key_version k s)
unfolding set_selected_team_key
set_selected_team_key-Keeps team_id key_version k s = if-Keeps _ s _ replaced
  where
    replaced : Keeps s (record {
      selected_team_id = s.selected_team_id;
      selected_team_key = some k;
      selected_team_key_team_id = some team_id;
      selected_team_key_version = some key_version;
      selected_team_key_error = none;
      wiped =
          if not (is_number s.selected_team_key k)
          then wipe_if_present s.selected_team_key s.wiped
          else s.wiped;
    })
    replaced j (inl held) = elim (Bool-cases (is_number s.selected_team_key k)) [
      | inl same ↦ inl (sym (is_number-true s.selected_team_key k same) ∙ held)
      | inr other ↦ inr (rw (other, held) (inl refl))
    ]
    replaced j (inr zeroed) = inr (elim (Bool-cases (is_number s.selected_team_key k)) [
      | inl same ↦ rw same zeroed
      | inr other ↦ rw other (In-wipe_if_present s.selected_team_key s.wiped j zeroed)
    ])

set_selected_team_key-holds :
    (team_id : Text) (key_version k : ℕ) (s : TeamScope)
    → (set_selected_team_key team_id key_version k s).selected_team_key ≡ some k
unfolding set_selected_team_key
set_selected_team_key-holds team_id key_version k s =
    elim (Bool-cases (is_number s.selected_team_key k)) [
      | inr other ↦ rw other refl
      | inl same ↦
          elim (Bool-cases (
            is_text s.selected_team_key_team_id team_id
            && is_number s.selected_team_key_version key_version
            && is_null s.selected_team_key_error)) [
              | inl unchanged ↦ rw (same, unchanged) (is_number-true s.selected_team_key k same)
              | inr changed ↦ rw (same, changed) refl
            ]
    ]

-- No call of the store loses a team key: every key that was ever handed over is the selected one,
-- or its buffer was zeroed.
pub Reachable-IsAccountedFor :
    {owned : List ℕ} {s : TeamScope} → Reachable owned s → All (IsAccountedFor s) owned
Reachable-IsAccountedFor start = tt
Reachable-IsAccountedFor (hands team_id key_version k {owned} {s} r) = (
  inl (set_selected_team_key-holds team_id key_version k s),
  All-map (IsAccountedFor s) (IsAccountedFor (set_selected_team_key team_id key_version k s)) owned
      (set_selected_team_key-Keeps team_id key_version k s) (Reachable-IsAccountedFor r),
)
Reachable-IsAccountedFor (after {owned} {s} {t} r step) =
    All-map (IsAccountedFor s) (IsAccountedFor t) owned (Step-Keeps step)
      (Reachable-IsAccountedFor r)
