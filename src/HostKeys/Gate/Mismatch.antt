-- ===== src/HostKeys/Gate/Mismatch.antt =====
-- Keys that do not match the approved ones (apps/client/src/features/hosts/use-host-key-gate.ts).
use trominal.Shared.{
  false, Option-cases, List, [], ◌∷◌, map, Option, none, some, Text, ◌≡◌, ◌⊎◌, inl, inr, refl, ◌∙◌,
  ap, get_or_else,
}
use trominal.Json.{Number}
use trominal.HostKeys.{
  ScannedHostKey, HostKeyPin, HostItem, HostKeyProblem, changed, Approvals, Comparison, matching,
  changed_keys, unpinned, effective_pins, pins_from_approval, pins_after, compare_with_pins,
}
use trominal.HostKeys.Pins.{compare_with_pins-pins_from_approval}
use trominal.HostKeys.Prompt
use trominal.HostKeys.Prompt.{HostKeyPrompt, Mode, approving, replacing}
use trominal.HostKeys.Gate.{
  Context, Run, quietly, prompt_for, approve_and_store, verify_compared, verify_from_editor,
  handle_host_key_error, map_run, match_found, approved, replaced, verdict_of, scanned_pin,
}
use trominal.HostKeys.Gate.Approval.{
  IsConsent, approve_and_store-IsConsent, effective_pins-remembered,
}

-- Nothing is saved and nothing is remembered.
abbrev pub Untouched : {A : Type 0} → Run A → Approvals → Type 0
Untouched run approvals = (run.saved ≡ []) × (run.session_approvals ≡ approvals)

pub approve_and_store-refused :
    (context : Context) (host : HostItem) (presented : List ScannedHostKey) (mode : Mode)
    (expected : List ScannedHostKey) (approvals : Approvals)
    → context.answer (prompt_for context host presented mode expected) ≡ false
    → Untouched (approve_and_store context host presented mode expected approvals) approvals
unfolding approve_and_store
approve_and_store-refused context host [] mode expected approvals refused = (refl, refl)
approve_and_store-refused context host (key ∷ keys) mode expected approvals refused =
    rw refused (refl, refl)

-- The error of a server whose key changed shows one prompt, of the kind that cannot be accepted,
-- and leaves the approvals and the vault alone, whatever the user answers.
pub handle_host_key_error-changed :
    (number_text : Number → Text) (context : Context) (problem : HostKeyProblem)
    (host : Option HostItem) (approvals : Approvals)
    → problem.kind ≡ changed
    → let run = handle_host_key_error number_text context (some problem) host approvals in
      Untouched run approvals
      × (prompt : HostKeyPrompt) × (run.asked ≡ prompt ∷ [])
      × (prompt.mode ≡ Prompt.changed)
unfolding handle_host_key_error
handle_host_key_error-changed number_text context problem none approvals e =
    rw (e, handle_host_key_error) ((refl, refl), _, refl, refl)
handle_host_key_error-changed number_text context problem (some host) approvals e =
    rw (e, handle_host_key_error) ((refl, refl), _, refl, refl)

stored_by :
    (run : Run (Option (List HostKeyPin))) (state : Comparison)
    → let result = (map_run (verdict_of state) run).result in
      (result ≡ some approved) ⊎ (result ≡ some replaced)
      → (stored : List HostKeyPin) × (run.result ≡ some (some stored))
stored_by run state h = elim (Option-cases run.result) [
  | inr (some stored, e) ↦ (stored, e)
  | inr (none, e) ↦ absurd (elim (rw e at h) [ inl d ↦ cc d | inr d ↦ cc d ])
  | inl e ↦ absurd (elim (rw e at h) [ inl d ↦ cc d | inr d ↦ cc d ])
]

verify_compared-IsConsent :
    (context : Context) (host : HostItem) (presented : List ScannedHostKey) (pins : List HostKeyPin)
    (approvals : Approvals) (state : Comparison)
    → let run = verify_compared context host presented pins approvals state in
      (run.result ≡ some approved) ⊎ (run.result ≡ some replaced)
      → (mode : Mode) × (stored : List HostKeyPin) × IsConsent context host presented mode
          (map scanned_pin pins)
          run.session_approvals
          stored
unfolding verify_compared
verify_compared-IsConsent context host presented pins approvals matching h =
    absurd (elim h [ inl e ↦ cc e | inr e ↦ cc e ])
verify_compared-IsConsent context host presented pins approvals changed_keys h =
    let run = approve_and_store context host presented replacing (map scanned_pin pins) approvals in
    let (stored, gave) = stored_by run changed_keys h in
    (
      replacing,
      stored,
      approve_and_store-IsConsent context host presented replacing (map scanned_pin pins) approvals
          stored gave,
    )
verify_compared-IsConsent context host presented pins approvals unpinned h =
    let run = approve_and_store context host presented approving (map scanned_pin pins) approvals in
    let (stored, gave) = stored_by run unpinned h in
    (
      approving,
      stored,
      approve_and_store-IsConsent context host presented approving (map scanned_pin pins) approvals
          stored gave,
    )

matches_again :
    (presented : List ScannedHostKey) (now : Text) (stored : List HostKeyPin) (pin : HostKeyPin)
    (rest : List HostKeyPin)
    → stored ≡ pins_from_approval presented now
    → stored ≡ pin ∷ rest
    → compare_with_pins stored presented ≡ matching
unfolding pins_from_approval pins_after
matches_again [] now stored pin rest e cons = absurd (cc (e, cons))
matches_again (key ∷ keys) now stored pin rest e cons =
    rw e (compare_with_pins-pins_from_approval (key ∷ keys) now key (inl refl)).0

-- What the editor calls approved or replaced was approved by the user, and is what the next check
-- finds: with the same presented keys it is a match, and the user is not asked.
pub verify_from_editor-again :
    (context : Context) (host : HostItem) (presented : List ScannedHostKey) (approvals : Approvals)
    → let run = verify_from_editor context host (some presented) approvals in
      (run.result ≡ some approved) ⊎ (run.result ≡ some replaced)
      → verify_from_editor context host (some presented) run.session_approvals
        ≡ quietly match_found run.session_approvals
unfolding verify_from_editor
verify_from_editor-again context host presented approvals h =
    let (mode, stored, consent) =
      verify_compared-IsConsent context host presented pins approvals
        (compare_with_pins pins presented) h in
    let (pin, rest, cons) = consent.not_empty in
    let found : effective_pins host after ≡ some stored =
      rw cons (effective_pins-remembered host after pin rest (consent.remembered ∙ ap some cons)) in
    rw (found, verify_from_editor)
      (rw (matches_again presented context.now stored pin rest consent.pinned cons) refl)
  where
    pins : List HostKeyPin
    pins = get_or_else (effective_pins host approvals) []

    after : Approvals
    after = (verify_from_editor context host (some presented) approvals).session_approvals
