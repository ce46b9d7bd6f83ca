-- ===== src/HostKeys/Gate/Approval.antt =====
-- Which keys a connection may be made with (apps/client/src/features/hosts/use-host-key-gate.ts).
use trominal.Shared.{
  true, false, Bool-cases, Option-cases, List, [], ◌∷◌, Option, none, some, Text, text_eq,
  text_eq_iff, ◌≡◌, inl, inr, refl, sym, subst, ◌∙◌, ap,
}
use trominal.HostKeys.{
  ScannedHostKey, HostKeyPin, HostKeyPinPayload, HostItem, Approvals, effective_pins,
  can_persist_pins, pins_from_approval, pins_after, has, pin_payload, approve, key_id,
}
use trominal.HostKeys.Prompt.{HostKeyPrompt, Mode, approving, put}
use trominal.HostKeys.Gate.{
  Context, Run, quietly, prompt_for, store_pins, approve_and_store, ensure_host_keys, map_run,
  payload_of,
}

-- The run of `approve_and_store` that gave pins: the user said yes, the pins are those of the
-- presented keys, and this session remembers them.
pub record IsConsent (context : Context) (host : HostItem) (presented : List ScannedHostKey)
    (mode : Mode) (expected : List ScannedHostKey) (approvals : Approvals) (pins : List HostKeyPin)
    : Type 0 where
  pub said_yes : context.answer (prompt_for context host presented mode expected) ≡ true
  pub pinned : pins ≡ pins_from_approval presented context.now
  pub remembered : approvals host.id ≡ some pins
  pub not_empty : (pin : HostKeyPin) × (rest : List HostKeyPin) × (pins ≡ pin ∷ rest)

text_eq_refl : (s : Text) → text_eq s s ≡ true
text_eq_refl s = (text_eq_iff s s).1 refl

put_same :
    (id : Text) (pins : List HostKeyPin) (approvals : Approvals)
    → put id pins approvals id ≡ some pins
put_same id pins approvals = rw (text_eq_refl id) refl

pins_from_approval-cons :
    (key : ScannedHostKey) (keys : List ScannedHostKey) (now : Text)
    → pins_from_approval (key ∷ keys) now ≡ approve now key ∷ pins_after now (key_id key ∷ []) keys
unfolding pins_from_approval pins_after has
pins_from_approval-cons key keys now = refl

pub store_pins-remembers :
    (context : Context) (host : HostItem) (prompt : HostKeyPrompt) (chosen pins : List HostKeyPin)
    (approvals : Approvals)
    → (store_pins context host prompt chosen approvals).result ≡ some (some pins)
    → (pins ≡ chosen)
      × ((store_pins context host prompt chosen approvals).session_approvals
          ≡ put host.id chosen approvals)
store_pins-remembers context host prompt chosen pins approvals h =
    elim (Bool-cases (can_persist_pins host context.team_id context.can_update)) [
      | inr may_not ↦ rw may_not (cc (rw may_not at h), refl)
      | inl may ↦ elim (Bool-cases context.can_save) [
        | inl saves ↦ rw (may, saves) (cc (rw (may, saves) at h), refl)
        | inr fails ↦ absurd (cc (rw (may, fails) at h))
      ]
    ]

pub approve_and_store-IsConsent :
    (context : Context) (host : HostItem) (presented : List ScannedHostKey) (mode : Mode)
    (expected : List ScannedHostKey) (approvals : Approvals) (pins : List HostKeyPin)
    → (approve_and_store context host presented mode expected approvals).result ≡ some (some pins)
    → IsConsent context host presented mode expected
        (approve_and_store context host presented mode expected approvals).session_approvals
        pins
unfolding approve_and_store
approve_and_store-IsConsent context host [] mode expected approvals pins h = absurd (cc h)
approve_and_store-IsConsent context host (key ∷ keys) mode expected approvals pins h =
    elim (Bool-cases (context.answer prompt)) [
      | inr refused ↦ absurd (cc (rw refused at h))
      | inl agreed ↦
          let (same, remembers) =
            store_pins-remembers context host prompt chosen pins approvals (rw agreed at h) in
          rw agreed (record {
            said_yes = agreed;
            pinned = same;
            remembered = rw (remembers, same) (put_same host.id chosen approvals);
            not_empty = (
              approve context.now key,
              pins_after context.now (key_id key ∷ []) keys,
              same ∙ pins_from_approval-cons key keys context.now,
            );
          })
    ]
  where
    prompt : HostKeyPrompt
    prompt = prompt_for context host (key ∷ keys) mode expected

    chosen : List HostKeyPin
    chosen = pins_from_approval (key ∷ keys) context.now

-- Where the keys come from that a connection is made with.
pub data Origin (context : Context) (host : HostItem) (scan : Option (List ScannedHostKey))
    (before after : Approvals) (payload : List HostKeyPinPayload) : Type 0 where
  -- They were approved before.
  known :
      (pins : List HostKeyPin)
      → effective_pins host before ≡ some pins
      → after ≡ before
      → payload ≡ pin_payload pins
      → Origin context host scan before after payload
  -- The web build has no native connections.
  web : context.is_tauri ≡ false → payload ≡ [] → Origin context host scan before after payload
  -- The user said yes to the keys that the server presented.
  consented :
      (presented : List ScannedHostKey) (pins : List HostKeyPin)
      → effective_pins host before ≡ none
      → scan ≡ some presented
      → IsConsent context host presented approving [] after pins
      → payload ≡ pin_payload pins
      → Origin context host scan before after payload

payload_of-eq-some :
    (run : Run (Option (List HostKeyPin))) (payload : List HostKeyPinPayload)
    → (map_run payload_of run).result ≡ some (some payload)
    → (pins : List HostKeyPin) × (run.result ≡ some (some pins)) × (payload ≡ pin_payload pins)
payload_of-eq-some run payload h = elim (Option-cases run.result) [
  | inl e ↦ absurd (cc (rw e at h))
  | inr (none, e) ↦ absurd (cc (rw e at h))
  | inr (some pins, e) ↦ (pins, e, cc (rw e at h))
]

ensure_host_keys-asks :
    (context : Context) (host : HostItem) (scan : Option (List ScannedHostKey))
    (approvals : Approvals) (presented : List ScannedHostKey)
    → effective_pins host approvals ≡ none
    → context.is_tauri ≡ true
    → scan ≡ some presented
    → ensure_host_keys context host scan approvals
      ≡ map_run payload_of (approve_and_store context host presented approving [] approvals)
unfolding ensure_host_keys approve_and_store
ensure_host_keys-asks context host scan approvals presented e desktop seen =
    rw (e, desktop, seen, ensure_host_keys) refl

ensure_host_keys-browses :
    (context : Context) (host : HostItem) (scan : Option (List ScannedHostKey))
    (approvals : Approvals)
    → effective_pins host approvals ≡ none
    → context.is_tauri ≡ false
    → ensure_host_keys context host scan approvals ≡ quietly (some []) approvals
unfolding ensure_host_keys
ensure_host_keys-browses context host scan approvals e browser =
    rw (e, browser, ensure_host_keys) refl

pub ensure_host_keys-Origin :
    (context : Context) (host : HostItem) (scan : Option (List ScannedHostKey))
    (approvals : Approvals) (payload : List HostKeyPinPayload)
    → (ensure_host_keys context host scan approvals).result ≡ some (some payload)
    → Origin context host scan approvals
        (ensure_host_keys context host scan approvals).session_approvals
        payload
unfolding ensure_host_keys
ensure_host_keys-Origin context host scan approvals payload h =
    elim (Option-cases (effective_pins host approvals)) [
      | inr (pins, e) ↦
          rw (e, ensure_host_keys) (known pins e refl (cc (rw (e, ensure_host_keys) at h)))
      | inl e ↦ elim (Bool-cases context.is_tauri) [
        | inr browser ↦
            let runs = ensure_host_keys-browses context host scan approvals e browser in
            let sent : payload ≡ [] = cc (sym (ap (λ r. r.result) runs) ∙ h) in
            subst (λ after. Origin context host scan approvals after payload)
              (sym (ap (λ r. r.session_approvals) runs)) (web browser sent)
        | inl desktop ↦ elim (Option-cases scan) [
          | inl failed ↦ absurd (cc (rw (e, desktop, failed, ensure_host_keys) at h))
          | inr (presented, seen) ↦
              let run = approve_and_store context host presented approving [] approvals in
              let runs =
                ensure_host_keys-asks context host scan approvals presented e desktop seen in
              let (pins, gave, same) =
                payload_of-eq-some run payload (sym (ap (λ r. r.result) runs) ∙ h) in
              subst (λ after. Origin context host scan approvals after payload)
                (sym (ap (λ r. r.session_approvals) runs))
                (consented presented pins e seen
                  (approve_and_store-IsConsent context host presented approving [] approvals pins
                    gave)
                  same)
        ]
      ]
    ]

pub effective_pins-remembered :
    (host : HostItem) (approvals : Approvals) (pin : HostKeyPin) (rest : List HostKeyPin)
    → approvals host.id ≡ some (pin ∷ rest)
    → effective_pins host approvals ≡ some (pin ∷ rest)
unfolding effective_pins
effective_pins-remembered host approvals pin rest e = rw (e, effective_pins) refl

ensure_host_keys-known :
    (context : Context) (host : HostItem) (scan : Option (List ScannedHostKey))
    (approvals : Approvals) (pins : List HostKeyPin)
    → effective_pins host approvals ≡ some pins
    → ensure_host_keys context host scan approvals ≡ quietly (some (pin_payload pins)) approvals
unfolding ensure_host_keys
ensure_host_keys-known context host scan approvals pins e = rw (e, ensure_host_keys) refl

-- On the desktop, the keys that a connection got serve the next one too: whatever the server
-- presents then, the same keys are sent and the user is not asked again.
pub ensure_host_keys-again :
    (context : Context) (host : HostItem) (scan scan' : Option (List ScannedHostKey))
    (approvals : Approvals) (payload : List HostKeyPinPayload)
    → context.is_tauri ≡ true
    → (ensure_host_keys context host scan approvals).result ≡ some (some payload)
    → let after = (ensure_host_keys context host scan approvals).session_approvals in
      ensure_host_keys context host scan' after ≡ quietly (some payload) after
ensure_host_keys-again context host scan scan' approvals payload desktop h =
    elim (ensure_host_keys-Origin context host scan approvals payload h) [
      | known pins e same sent ↦
          rw (same, sent) (ensure_host_keys-known context host scan' approvals pins e)
      | web browser sent ↦ absurd (cc (desktop, browser))
      | consented presented pins e seen consent sent ↦
          let (pin, rest, cons) = consent.not_empty in
          rw (sent, cons)
            (ensure_host_keys-known context host scan' after (pin ∷ rest)
              (effective_pins-remembered host after pin rest (consent.remembered ∙ ap some cons)))
    ]
  where
    after : Approvals
    after = (ensure_host_keys context host scan approvals).session_approvals
