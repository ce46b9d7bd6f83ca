-- ===== src/HostKeys/Tests.antt =====
-- Runs of the host-key code, and its properties at concrete inputs.
use trominal.Shared.{
  true, false, [], ◌∷◌, map, none, some, Text, codes, ◌≡◌, refl, inl, inr, All, In, Some, Distinct,
}
use trominal.Shared
use trominal.Json.{nat, Value, string, array, object, cons, nil, field, end}
use trominal.Json
use trominal.HostKeys.{
  ScannedHostKey, HostKeyProblem, HostItem, changed, matching, changed_keys, parse_host_key_error,
  compare_with_pins, pins_from_approval, pins_after, pin_payload, effective_pins, can_persist_pins,
  approve, key_id, pin_id, Approvals, has,
}
use trominal.HostKeys.Pins.{pins_from_approval-exact, compare_with_pins-pins_from_approval}
use trominal.HostKeys.Prompt
use trominal.HostKeys.Prompt.{
  HostKeyPrompt, State, initial, ask, answer, approving, Reachable, start, then, asks, answers,
}
use trominal.HostKeys.Prompt.Safety.{TrueIsSafe, IsPending, Reachable-IsPending, Reachable-IsSafe}
use trominal.HostKeys.Gate.{
  Context, quietly, ensure_host_keys, verify_from_editor, handle_host_key_error, approved,
  match_found, approve_and_store, verify_compared, host_endpoint,
}
use trominal.HostKeys.Gate.Approval.{ensure_host_keys-again}
use trominal.HostKeys.Gate.Mismatch.{
  Untouched, handle_host_key_error-changed, verify_from_editor-again,
}

abbrev ed25519 : ScannedHostKey
ed25519 = record {
  key_type = codes "ssh-ed25519";
  public_key = codes "AAAA";
  fingerprint = codes "SHA256:a";
}

abbrev rsa : ScannedHostKey
rsa = record {
  key_type = codes "ssh-rsa";
  public_key = codes "BBBB";
  fingerprint = codes "SHA256:b";
}

abbrev now : Text
now = codes "2026-01-01"

abbrev host : HostItem
host = record {
  id = codes "h1";
  team_id = none;
  name = codes "db";
  hostname = codes "db.internal";
  port = [];
  username = codes "root";
  host_keys = [];
}

abbrev no_approvals : Approvals
no_approvals id = none

abbrev context : Context
context = record {
  team_id = none;
  can_update = true;
  is_tauri = true;
  now = now;
  answer = λ prompt. true;
  can_save = true;
}

abbrev error_value : Value
error_value = object (
    field (codes "kind") (string (codes "changed")) (
      field (codes "host") (string (codes "db")) (
        field (codes "presented")
          (array (
            cons
              (object (
                field (codes "keyType") (string (codes "ssh-rsa")) (
                  field (codes "publicKey") (string (codes "BBBB"))
                    (field (codes "fingerprint") (string (codes "SHA256:b")) end))))
              (cons (string []) nil)))
          end)))

abbrev problem : HostKeyProblem
problem = record {
  kind = changed;
  host = codes "db";
  port = nat 22;
  expected = [];
  presented = rsa ∷ [];
}

parse_run :
    parse_host_key_error (λ text. some error_value) (some (codes "Error: trominal-host-key:{}"))
    ≡ some problem
unfolding parse_host_key_error Shared.after_first Shared.strip_prefix Shared.text_eq Json.get
parse_run = refl

parse_other : parse_host_key_error (λ text. some error_value) (some (codes "timeout")) ≡ none
unfolding parse_host_key_error Shared.after_first Shared.strip_prefix
parse_other = refl

pins_run :
    pins_from_approval (ed25519 ∷ rsa ∷ ed25519 ∷ []) now
    ≡ approve now ed25519 ∷ approve now rsa ∷ []
unfolding pins_from_approval pins_after has Shared.text_eq
pins_run = refl

compare_run : compare_with_pins (approve now ed25519 ∷ []) (rsa ∷ []) ≡ changed_keys
unfolding compare_with_pins has Shared.text_eq
compare_run = refl

endpoint_run : host_endpoint host ≡ codes "root@db.internal:22"
unfolding host_endpoint
endpoint_run = refl

persist_run : can_persist_pins host (some (codes "t")) true ≡ false
unfolding can_persist_pins
persist_run = refl

pins_from_approval-exact_run :
    Distinct (map pin_id (pins_from_approval (rsa ∷ rsa ∷ []) now))
    × All
        (λ pin. Some (λ key. approve now key ≡ pin) (rsa ∷ rsa ∷ []))
        (pins_from_approval (rsa ∷ rsa ∷ []) now)
    × All
        (λ key. In (key_id key) (map pin_id (pins_from_approval (rsa ∷ rsa ∷ []) now)))
        (rsa ∷ rsa ∷ [])
pins_from_approval-exact_run = pins_from_approval-exact (rsa ∷ rsa ∷ []) now

compare_with_pins-pins_from_approval_run :
    (compare_with_pins (pins_from_approval (ed25519 ∷ rsa ∷ []) now) (ed25519 ∷ rsa ∷ [])
      ≡ matching)
    × (compare_with_pins (pins_from_approval (ed25519 ∷ rsa ∷ []) now) (rsa ∷ []) ≡ matching)
compare_with_pins-pins_from_approval_run =
    compare_with_pins-pins_from_approval (ed25519 ∷ rsa ∷ []) now rsa (inr (inl refl))

abbrev prompt : HostKeyPrompt
prompt = record {
  mode = approving;
  host_id = none;
  label = [];
  endpoint = [];
  presented = rsa ∷ [];
  expected = [];
  session_only = false;
}

abbrev after_answer : State
after_answer = answer true (ask prompt (ask prompt initial))

reached : Reachable after_answer
reached = then (then (then start (asks prompt)) (asks prompt)) (answers true)

settled_run : after_answer.settled ≡ (1, true) ∷ (0, false) ∷ []
unfolding ask answer
settled_run = refl

Reachable-IsPending_run : IsPending after_answer
Reachable-IsPending_run = Reachable-IsPending reached

Reachable-IsSafe_example : All (TrueIsSafe after_answer.asked) after_answer.settled
Reachable-IsSafe_example = Reachable-IsSafe reached

ensure_run :
    (ensure_host_keys context host (some (rsa ∷ [])) no_approvals).result
    ≡ some (some (pin_payload (approve now rsa ∷ [])))
unfolding ensure_host_keys effective_pins approve_and_store can_persist_pins pins_from_approval
    pins_after has Shared.text_eq
ensure_run = refl

ensure_host_keys-again_run :
    let after = (ensure_host_keys context host (some (rsa ∷ [])) no_approvals).session_approvals in
    ensure_host_keys context host none after
    ≡ quietly (some (pin_payload (approve now rsa ∷ []))) after
ensure_host_keys-again_run =
    ensure_host_keys-again context host (some (rsa ∷ [])) none no_approvals
      (pin_payload (approve now rsa ∷ [])) refl ensure_run

handle_host_key_error-changed_run :
    let run = handle_host_key_error (λ n. []) context (some problem) (some host) no_approvals in
    Untouched run no_approvals
    × (p : HostKeyPrompt) × (run.asked ≡ p ∷ [])
    × (p.mode ≡ Prompt.changed)
handle_host_key_error-changed_run =
    handle_host_key_error-changed (λ n. []) context problem (some host) no_approvals refl

verify_run : (verify_from_editor context host (some (rsa ∷ [])) no_approvals).result ≡ some approved
unfolding verify_from_editor verify_compared compare_with_pins effective_pins approve_and_store
    can_persist_pins pins_from_approval pins_after has Shared.text_eq
verify_run = refl

verify_from_editor-again_run :
    let after =
      (verify_from_editor context host (some (rsa ∷ [])) no_approvals).session_approvals in
    verify_from_editor context host (some (rsa ∷ [])) after ≡ quietly match_found after
verify_from_editor-again_run =
    verify_from_editor-again context host (rsa ∷ []) no_approvals (inl verify_run)
