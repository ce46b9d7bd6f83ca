-- ===== src/Session/TeamScope.antt =====
-- apps/client/src/features/teams/store.ts. A key is the number of its buffer, so that `===` on keys
-- is equality of numbers; `wiped` has the buffers that were zeroed.
pub mod Ownership
mod Tests
use trominal.Shared.{
  ℕ, Bool, true, false, ◌&&◌, List, [], ◌∷◌, Option, none, some, Text, text_eq, any, if◌then◌else◌,
  ◌==◌,
}
use mathlib.Core.Bool.{not}

pub record TeamScope : Type 0 where
  pub selected_team_id : Option Text
  pub selected_team_key : Option ℕ
  pub selected_team_key_team_id : Option Text
  pub selected_team_key_version : Option ℕ
  pub selected_team_key_error : Option Text
  pub wiped : List ℕ

abbrev pub initial : TeamScope
initial = record {
  selected_team_id = none;
  selected_team_key = none;
  selected_team_key_team_id = none;
  selected_team_key_version = none;
  selected_team_key_error = none;
  wiped = [];
}

abbrev pub is_null : {A : Type 0} → Option A → Bool
is_null none = true
is_null (some a) = false

-- `===` on the nullable fields
abbrev pub is_text : Option Text → Text → Bool
is_text none t = false
is_text (some s) t = text_eq s t

abbrev pub is_number : Option ℕ → ℕ → Bool
is_number none k = false
is_number (some n) k = n == k

abbrev pub is_message : Option Text → Option Text → Bool
is_message none none = true
is_message (some s) (some t) = text_eq s t
is_message _ _ = false

abbrev pub wipe_if_present : Option ℕ → List ℕ → List ℕ
wipe_if_present none wiped = wiped
wipe_if_present (some key) wiped = key ∷ wiped

abbrev pub without_key : Option Text → Option Text → TeamScope → TeamScope
without_key team_id message s = record {
  selected_team_id = team_id;
  selected_team_key = none;
  selected_team_key_team_id = none;
  selected_team_key_version = none;
  selected_team_key_error = message;
  wiped = wipe_if_present s.selected_team_key s.wiped;
}

abbrev pub has_no_key : TeamScope → Bool
has_no_key s =
    is_null s.selected_team_key
    && is_null s.selected_team_key_team_id
    && is_null s.selected_team_key_version

unfoldable pub set_personal_scope : TeamScope → TeamScope
set_personal_scope s =
    if is_null s.selected_team_id && has_no_key s && is_null s.selected_team_key_error
    then s
    else without_key none none s

unfoldable pub set_team_scope : Text → TeamScope → TeamScope
set_team_scope team_id s =
    if is_text s.selected_team_id team_id then s else without_key (some team_id) none s

unfoldable pub set_selected_team_key : Text → ℕ → ℕ → TeamScope → TeamScope
set_selected_team_key team_id key_version key s =
    if is_number s.selected_team_key key
      && is_text s.selected_team_key_team_id team_id
      && is_number s.selected_team_key_version key_version
      && is_null s.selected_team_key_error
    then s
    else record {
      selected_team_id = s.selected_team_id;
      selected_team_key = some key;
      selected_team_key_team_id = some team_id;
      selected_team_key_version = some key_version;
      selected_team_key_error = none;
      wiped =
          if not (is_number s.selected_team_key key)
          then wipe_if_present s.selected_team_key s.wiped
          else s.wiped;
    }

unfoldable pub set_selected_team_key_error : Option Text → TeamScope → TeamScope
set_selected_team_key_error message s =
    if has_no_key s && is_message s.selected_team_key_error message
    then s
    else without_key s.selected_team_id message s

unfoldable pub clear_selected_team_key : TeamScope → TeamScope
clear_selected_team_key s =
    if has_no_key s && is_null s.selected_team_key_error
    then s
    else without_key s.selected_team_id none s

abbrev pub is_missing : Option Text → List Text → Bool
is_missing none team_ids = false
is_missing (some id) team_ids = not (any (λ t. text_eq t id) team_ids)

unfoldable pub reconcile_team_ids : List Text → TeamScope → TeamScope
unfolding set_personal_scope
reconcile_team_ids team_ids s =
    if is_missing s.selected_team_id team_ids then set_personal_scope s else s

-- The calls that hand no key over.
pub data Step : TeamScope → TeamScope → Type 0 where
  personal : {s : TeamScope} → Step s (set_personal_scope s)
  team : (team_id : Text) {s : TeamScope} → Step s (set_team_scope team_id s)
  error : (message : Option Text) {s : TeamScope} → Step s (set_selected_team_key_error message s)
  clear : {s : TeamScope} → Step s (clear_selected_team_key s)
  reconcile : (team_ids : List Text) {s : TeamScope} → Step s (reconcile_team_ids team_ids s)

-- The states that the calls lead to, with the keys that were handed over on the way.
pub data Reachable : List ℕ → TeamScope → Type 0 where
  start : Reachable [] initial
  hands :
      (team_id : Text) (key_version k : ℕ) {owned : List ℕ} {s : TeamScope}
      → Reachable owned s
      → Reachable (k ∷ owned) (set_selected_team_key team_id key_version k s)
  after : {owned : List ℕ} {s t : TeamScope} → Reachable owned s → Step s t → Reachable owned t
