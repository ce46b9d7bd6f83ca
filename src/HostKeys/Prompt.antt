-- ===== src/HostKeys/Prompt.antt =====
-- apps/client/src/features/hosts/host-key-prompt.ts: the dialog's store. A promise that `ask` returned
-- is its number; `settled` has what each promise was resolved with, the latest first, and `asked`
-- the prompt of each promise.
pub mod Safety
use trominal.Shared.{
  ℕ, suc, Bool, true, false, ◌&&◌, List, [], ◌∷◌, Option, none, some, Text, text_eq, if◌then◌else◌,
}
use mathlib.Core.Bool.{not}
use trominal.HostKeys.{ScannedHostKey, HostKeyPin, Approvals}

pub data Mode : Type 0 where
  approving changed replacing : Mode

pub record HostKeyPrompt : Type 0 where
  pub mode : Mode
  pub host_id : Option Text
  pub label : Text
  pub endpoint : Text
  pub presented : List ScannedHostKey
  pub expected : List ScannedHostKey
  pub session_only : Bool

pub record State : Type 0 where
  pub prompt : Option HostKeyPrompt
  pub resolve : Option ℕ
  pub session_approvals : Approvals
  pub next : ℕ
  pub asked : List (ℕ × HostKeyPrompt)
  pub settled : List (ℕ × Bool)

abbrev pub initial : State
initial = record {
  prompt = none;
  resolve = none;
  session_approvals = λ id. none;
  next = 0;
  asked = [];
  settled = [];
}

-- `resolve?.(value)`
abbrev pub settle : Option ℕ → Bool → List (ℕ × Bool) → List (ℕ × Bool)
settle none value settled = settled
settle (some id) value settled = (id, value) ∷ settled

unfoldable pub ask : HostKeyPrompt → State → State
ask prompt s = record {
  prompt = some prompt;
  resolve = some s.next;
  session_approvals = s.session_approvals;
  next = suc s.next;
  asked = (s.next, prompt) ∷ s.asked;
  settled = settle s.resolve false s.settled;
}

abbrev pub is_changed : Mode → Bool
is_changed changed = true
is_changed _ = false

-- `prompt !== null && prompt.mode !== 'changed'`
abbrev pub accepts : Option HostKeyPrompt → Bool
accepts none = false
accepts (some prompt) = not (is_changed prompt.mode)

unfoldable pub answer : Bool → State → State
answer approved s = record {
  prompt = none;
  resolve = none;
  session_approvals = s.session_approvals;
  next = s.next;
  asked = s.asked;
  settled = settle s.resolve (approved && accepts s.prompt) s.settled;
}

abbrev pub put : Text → List HostKeyPin → Approvals → Approvals
put host_id pins approvals id = if text_eq id host_id then some pins else approvals id

unfoldable pub remember_for_session : Text → List HostKeyPin → State → State
remember_for_session host_id pins s = record {
  prompt = s.prompt;
  resolve = s.resolve;
  session_approvals = put host_id pins s.session_approvals;
  next = s.next;
  asked = s.asked;
  settled = s.settled;
}

-- What other code does with the store.
pub data Step : State → State → Type 0 where
  asks : (prompt : HostKeyPrompt) {s : State} → Step s (ask prompt s)
  answers : (approved : Bool) {s : State} → Step s (answer approved s)
  remembers :
      (host_id : Text) (pins : List HostKeyPin) {s : State}
      → Step s (remember_for_session host_id pins s)

pub data Reachable : State → Type 0 where
  start : Reachable initial
  then : {s t : State} → Reachable s → Step s t → Reachable t
