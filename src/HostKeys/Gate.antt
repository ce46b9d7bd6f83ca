-- ===== src/HostKeys/Gate.antt =====
-- apps/client/src/features/hosts/use-host-key-gate.ts: what every connection passes first. What the
-- user answers to a prompt, what the backend's scan returns, and whether the vault could save are
-- arguments; a run returns its result with what it asked, what it saved, and the session's approvals.
pub mod Approval
pub mod Mismatch
use trominal.Shared.{
  Bool, true, false, List, [], ◌∷◌, ◌++◌, map, Option, none, some, Text, codes, if◌then◌else◌,
  get_or_else,
}
use mathlib.Core.Bool.{not}
use trominal.Json.{Number}
use trominal.HostKeys.{
  ScannedHostKey, HostKeyPin, HostKeyPinPayload, HostItem, HostKeyProblem, unknown, changed,
  Approvals, Comparison, matching, changed_keys, unpinned, effective_pins, can_persist_pins,
  pins_from_approval, pin_payload, compare_with_pins,
}
use trominal.HostKeys.Prompt.{HostKeyPrompt, Mode, approving, replacing, put}
use trominal.HostKeys.Prompt

-- `a || b` on strings
abbrev or_else : Text → Text → Text
or_else [] b = b
or_else (c ∷ a) b = c ∷ a

unfoldable pub host_endpoint : HostItem → Text
host_endpoint host = at host.username ++ (host.hostname ++ (b':' ∷ or_else host.port (codes "22")))
  where
    at : Text → Text
    at [] = []
    at (c ∷ user) = (c ∷ user) ++ (b'@' ∷ [])

-- What the gate was made with, and what surrounds it.
pub record Context : Type 0 where
  pub team_id : Option Text
  pub can_update : Bool
  pub is_tauri : Bool
  -- The date of the approval.
  pub now : Text
  -- The answer that the dialog gives; it is `false` for a prompt of mode `changed`.
  pub answer : HostKeyPrompt → Bool
  -- `saveHostKeys` succeeds.
  pub can_save : Bool

pub record Run (A : Type 0) : Type 0 where
  -- `none` is a rejected promise.
  pub result : Option A
  pub asked : List HostKeyPrompt
  pub saved : List (Text × List HostKeyPin)
  pub session_approvals : Approvals

abbrev pub quietly : {A : Type 0} → A → Approvals → Run A
quietly value approvals = record {
  result = some value;
  asked = [];
  saved = [];
  session_approvals = approvals;
}

abbrev pub prompt_for :
    Context → HostItem → List ScannedHostKey → Mode → List ScannedHostKey → HostKeyPrompt
prompt_for context host presented mode expected = record {
  mode = mode;
  host_id = some host.id;
  label = or_else host.name host.hostname;
  endpoint = host_endpoint host;
  presented = presented;
  expected = expected;
  session_only = not (can_persist_pins host context.team_id context.can_update);
}

-- After the user approved: save where the record may be written, then remember.
abbrev pub store_pins :
    Context
    → HostItem
    → HostKeyPrompt
    → List HostKeyPin
    → Approvals
    → Run (Option (List HostKeyPin))
store_pins context host prompt pins approvals =
    let remembered = put host.id pins approvals in
    if can_persist_pins host context.team_id context.can_update
    then (if context.can_save
        then record {
          result = some (some pins);
          asked = prompt ∷ [];
          saved = (host.id, pins) ∷ [];
          session_approvals = remembered;
        }
        else record {
          result = none;
          asked = prompt ∷ [];
          saved = [];
          session_approvals = approvals;
        })
    else record {
      result = some (some pins);
      asked = prompt ∷ [];
      saved = [];
      session_approvals = remembered;
    }

unfoldable pub approve_and_store :
    Context
    → HostItem
    → List ScannedHostKey
    → Mode
    → List ScannedHostKey
    → Approvals
    → Run (Option (List HostKeyPin))
approve_and_store context host [] mode expected approvals = quietly none approvals
approve_and_store context host (key ∷ keys) mode expected approvals =
    let presented = key ∷ keys in
    let prompt = prompt_for context host presented mode expected in
    if context.answer prompt
    then store_pins context host prompt (pins_from_approval presented context.now) approvals
    else record {
      result = some none;
      asked = prompt ∷ [];
      saved = [];
      session_approvals = approvals;
    }

abbrev pub map_run : {A B : Type 0} → (A → B) → Run A → Run B
map_run f run = record {
  result = elim run.result [ none ↦ none | some a ↦ some (f a) ];
  asked = run.asked;
  saved = run.saved;
  session_approvals = run.session_approvals;
}

abbrev pub payload_of : Option (List HostKeyPin) → Option (List HostKeyPinPayload)
payload_of none = none
payload_of (some pins) = some (pin_payload pins)

-- `scan` is what `ssh_host_key_scan` returns, `none` when it fails.
unfoldable pub ensure_host_keys :
    Context
    → HostItem
    → Option (List ScannedHostKey)
    → Approvals
    → Run (Option (List HostKeyPinPayload))
ensure_host_keys context host scan approvals = elim (effective_pins host approvals) [
  | some existing ↦ quietly (some (pin_payload existing)) approvals
  | none ↦ if not context.is_tauri then quietly (some []) approvals else elim scan [
    | none ↦ record { result = none; asked = []; saved = []; session_approvals = approvals }
    | some presented ↦
        map_run payload_of (approve_and_store context host presented approving [] approvals)
  ]
]

pub data Verdict : Type 0 where
  match_found approved replaced declined : Verdict

abbrev pub verdict_of : Comparison → Option (List HostKeyPin) → Verdict
verdict_of state none = declined
verdict_of unpinned (some pins) = approved
verdict_of _ (some pins) = replaced

abbrev pub scanned_pin : HostKeyPin → ScannedHostKey
scanned_pin pin = record {
  key_type = pin.key_type;
  public_key = pin.public_key;
  fingerprint = pin.fingerprint;
}

-- What follows the comparison.
unfoldable pub verify_compared :
    Context
    → HostItem
    → List ScannedHostKey
    → List HostKeyPin
    → Approvals
    → Comparison
    → Run Verdict
verify_compared context host presented pins approvals matching = quietly match_found approvals
verify_compared context host presented pins approvals changed_keys =
    map_run (verdict_of changed_keys)
      (approve_and_store context host presented replacing (map scanned_pin pins) approvals)
verify_compared context host presented pins approvals unpinned =
    map_run (verdict_of unpinned)
      (approve_and_store context host presented approving (map scanned_pin pins) approvals)

unfoldable pub verify_from_editor :
    Context → HostItem → Option (List ScannedHostKey) → Approvals → Run Verdict
unfolding verify_compared
verify_from_editor context host none approvals = record {
  result = none;
  asked = [];
  saved = [];
  session_approvals = approvals;
}
verify_from_editor context host (some presented) approvals =
    let pins = get_or_else (effective_pins host approvals) [] in
    verify_compared context host presented pins approvals (compare_with_pins pins presented)

-- `number_text` is how a template literal writes a number.
abbrev changed_prompt : (Number → Text) → Option HostItem → HostKeyProblem → HostKeyPrompt
changed_prompt number_text none problem = record {
  mode = Prompt.changed;
  host_id = none;
  label = problem.host;
  endpoint = problem.host ++ (b':' ∷ number_text problem.port);
  presented = problem.presented;
  expected = problem.expected;
  session_only = false;
}
changed_prompt number_text (some host) problem = record {
  mode = Prompt.changed;
  host_id = some host.id;
  label = or_else host.name host.hostname;
  endpoint = host_endpoint host;
  presented = problem.presented;
  expected = elim problem.expected [ [] ↦ map scanned_pin host.host_keys | _ ↦ problem.expected ];
  session_only = false;
}

-- `none` is an error that is no host-key error. The dialog runs on after the return; what it comes
-- to is in the run.
unfoldable pub handle_host_key_error :
    (Number → Text) → Context → Option HostKeyProblem → Option HostItem → Approvals → Run Bool
handle_host_key_error number_text context none host approvals = quietly false approvals
handle_host_key_error number_text context (some problem) host approvals = elim problem.kind [
  | unknown ↦ elim host [
    | some h ↦ ran (approve_and_store context h problem.presented approving [] approvals)
    | none ↦ shows
  ]
  | changed ↦ shows
]
  where
    shows : Run Bool
    shows = record {
      result = some true;
      asked = changed_prompt number_text host problem ∷ [];
      saved = [];
      session_approvals = approvals;
    }

    ran : Run (Option (List HostKeyPin)) → Run Bool
    ran run = record {
      result = some true;
      asked = run.asked;
      saved = run.saved;
      session_approvals = run.session_approvals;
    }
