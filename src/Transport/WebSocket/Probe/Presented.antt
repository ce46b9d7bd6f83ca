-- ===== src/Transport/WebSocket/Probe/Presented.antt =====
-- What a probe gives (packages/ssh-transport/src/websocket-transport.ts).
use trominal.Shared.{
  true, Bool-cases, List, [], ◌∷◌, Option, none, some, Text, codes, if-cases, Some, In, inl, inr,
  ◌⊎◌, ◌≡◌, refl, sym, ◌∙◌, subst,
}
use trominal.Json.{Value, string, Fields, get}
use trominal.Transport.WebSocket.{
  Failure, connect_failed, is_well_formed_host_key_fingerprint, is_type,
}
use trominal.Transport.WebSocket.Probe.{
  WebSshHostKey, WebSshProbeOptions, ProbeEvent, opened, errored, binary_message, ended,
  text_message, ProbeOutcome, waiting, presented, refused, Probe, initial, settle_once,
  well_formed_key, host_key_of, host_key_from_frame, key_outcome, settled, on_probe_event,
  probe_from, probe_web_ssh_host_key,
}

-- The proxy sent this key in a `host_key` frame.
abbrev pub IsPresentedBy : WebSshHostKey → ProbeEvent → Type 0
IsPresentedBy key (text_message frame) =
    (is_type frame (codes "host_key") ≡ true) × (host_key_from_frame frame ≡ some key)
IsPresentedBy key _ = ⊥

abbrev pub IsSettled : ProbeOutcome → Type 0
IsSettled waiting = ⊥
IsSettled _ = Unit {0}

well_formed_key_lem :
    (f k : Text) {key : WebSshHostKey}
    → well_formed_key f k ≡ some key
    → is_well_formed_host_key_fingerprint key.fingerprint ≡ true
well_formed_key_lem f k {key} h = elim (Bool-cases (is_well_formed_host_key_fingerprint f)) [
  | inl e ↦
      let same : record { fingerprint = f; key_type = k } ≡ key = cc (rw e at h) in
      subst (λ (w : WebSshHostKey). is_well_formed_host_key_fingerprint w.fingerprint ≡ true) same e
  | inr e ↦ absurd (cc (rw e at h))
]

settle_once-IsSettled :
    (earlier later : ProbeOutcome) → IsSettled later → IsSettled (settle_once earlier later)
settle_once-IsSettled waiting later h = h
settle_once-IsSettled (presented key) later h = tt
settle_once-IsSettled (refused failure) later h = tt

settle_once-keeps :
    (earlier later : ProbeOutcome) → IsSettled earlier → settle_once earlier later ≡ earlier
settle_once-keeps waiting later h = absurd h
settle_once-keeps (presented key) later h = refl
settle_once-keeps (refused failure) later h = refl

host_key_of_lem :
    (f k : Option Value) {key : WebSshHostKey}
    → host_key_of f k ≡ some key
    → is_well_formed_host_key_fingerprint key.fingerprint ≡ true
host_key_of_lem (some (string f)) (some (string k)) h = well_formed_key_lem f k h
host_key_of_lem _ _ h = absurd (cc h)

host_key_from_frame_lem :
    (frame : Option Fields) {key : WebSshHostKey}
    → host_key_from_frame frame ≡ some key
    → is_well_formed_host_key_fingerprint key.fingerprint ≡ true
host_key_from_frame_lem none h = absurd (cc h)
host_key_from_frame_lem (some frame) h =
    host_key_of_lem (get (codes "fingerprint") frame) (get (codes "key_type") frame) h

key_outcome-presented :
    (o : Option WebSshHostKey) {key : WebSshHostKey} → key_outcome o ≡ presented key → o ≡ some key
key_outcome-presented none h = absurd (cc h)
key_outcome-presented (some k) h = cc h

settle_once-presented :
    (earlier later : ProbeOutcome) {key : WebSshHostKey}
    → settle_once earlier later ≡ presented key
    → (earlier ≡ presented key) ⊎ (later ≡ presented key)
settle_once-presented waiting later h = inr h
settle_once-presented (presented k) later h = inl h
settle_once-presented (refused failure) later h = inl h

-- A refusal presents nothing.
refusal-presented :
    (earlier : ProbeOutcome) (failure : Failure) {key : WebSshHostKey} {P : Type 0}
    → settle_once earlier (refused failure) ≡ presented key
    → (earlier ≡ presented key) ⊎ P
refusal-presented earlier failure h = elim (settle_once-presented earlier (refused failure) h) [
  | inl e ↦ inl e
  | inr e ↦ absurd (cc e)
]

module _ (options : WebSshProbeOptions) where
  event-keeps :
      (event : ProbeEvent) (s : Probe)
      → IsSettled s.outcome
      → (on_probe_event options event s).outcome ≡ s.outcome
  unfolding on_probe_event
  event-keeps opened s h = refl
  event-keeps errored s h = settle_once-keeps s.outcome _ h
  event-keeps binary_message s h = refl
  event-keeps ended s h = settle_once-keeps s.outcome _ h
  event-keeps (text_message frame) s h =
      if-cases (λ (t : Probe). t.outcome ≡ s.outcome) (is_type frame (codes "host_key")) _ _
        (λ e. settle_once-keeps s.outcome _ h)
        (λ e.
          if-cases (λ (t : Probe). t.outcome ≡ s.outcome) (is_type frame (codes "error")) _ _
            (λ e. settle_once-keeps s.outcome _ h) (λ e. refl))

  from-keeps :
      (events : List ProbeEvent) (s : Probe)
      → IsSettled s.outcome
      → (probe_from options s events).outcome ≡ s.outcome
  unfolding probe_from
  from-keeps [] s h = refl
  from-keeps (event ∷ events) s h =
      let same = event-keeps event s h in
      from-keeps events (on_probe_event options event s) (subst IsSettled (sym same) h) ∙ same

  ended-IsSettled :
      (events : List ProbeEvent) (s : Probe)
      → In ended events
      → IsSettled (probe_from options s events).outcome
  unfolding probe_from on_probe_event
  ended-IsSettled [] s i = absurd i
  ended-IsSettled (event ∷ events) s (inl e) =
      let s' = settled (refused connect_failed) s in
      let over = settle_once-IsSettled s.outcome (refused connect_failed) tt in
      subst (λ ev. IsSettled (probe_from options (on_probe_event options ev s) events).outcome)
        (sym e) (subst IsSettled (sym (from-keeps events s' over)) over)
  ended-IsSettled (event ∷ events) s (inr i) =
      ended-IsSettled events (on_probe_event options event s) i

  event-presented :
      (event : ProbeEvent) (s : Probe) {key : WebSshHostKey}
      → (on_probe_event options event s).outcome ≡ presented key
      → (s.outcome ≡ presented key) ⊎ IsPresentedBy key event
  unfolding on_probe_event
  event-presented opened s h = inl h
  event-presented errored s h = refusal-presented s.outcome _ h
  event-presented binary_message s h = inl h
  event-presented ended s h = refusal-presented s.outcome _ h
  event-presented (text_message frame) s {key} h =
      elim (Bool-cases (is_type frame (codes "host_key"))) [
        | inl e ↦
            elim (settle_once-presented s.outcome (key_outcome (host_key_from_frame frame))
              (rw e at h)) [
                | inl before ↦ inl before
                | inr now ↦ inr (e, key_outcome-presented (host_key_from_frame frame) now)
              ]
        | inr other ↦ elim (Bool-cases (is_type frame (codes "error"))) [
          | inl e ↦ refusal-presented s.outcome _ (rw (other, e) at h)
          | inr e ↦ inl (rw (other, e) at h)
        ]
      ]

  from-presented :
      (events : List ProbeEvent) (s : Probe) {key : WebSshHostKey}
      → (probe_from options s events).outcome ≡ presented key
      → (s.outcome ≡ presented key) ⊎ Some (IsPresentedBy key) events
  unfolding probe_from
  from-presented [] s h = inl h
  from-presented (event ∷ events) s h =
      elim (from-presented events (on_probe_event options event s) h) [
        | inr later ↦ inr (inr later)
        | inl now ↦ elim (event-presented event s now) [
          | inl before ↦ inl before
          | inr here ↦ inr (inl here)
        ]
      ]

  Some-well_formed :
      (key : WebSshHostKey) (events : List ProbeEvent)
      → Some (IsPresentedBy key) events
      → is_well_formed_host_key_fingerprint key.fingerprint ≡ true
  Some-well_formed key [] h = absurd h
  Some-well_formed key (text_message frame ∷ events) (inl (e, here)) =
      host_key_from_frame_lem frame here
  Some-well_formed key (opened ∷ events) (inl here) = absurd here
  Some-well_formed key (errored ∷ events) (inl here) = absurd here
  Some-well_formed key (binary_message ∷ events) (inl here) = absurd here
  Some-well_formed key (ended ∷ events) (inl here) = absurd here
  Some-well_formed key (event ∷ events) (inr later) = Some-well_formed key events later

  -- A probe resolves only with a key that the proxy sent in a `host_key` frame and whose fingerprint is
  -- well formed.
  pub probe-presented :
      (events : List ProbeEvent) (key : WebSshHostKey)
      → (probe_web_ssh_host_key options events).outcome ≡ presented key
      → Some (IsPresentedBy key) events
        × (is_well_formed_host_key_fingerprint key.fingerprint ≡ true)
  probe-presented events key h = elim (from-presented events initial h) [
    | inl before ↦ absurd (cc before)
    | inr sent ↦ (sent, Some-well_formed key events sent)
  ]

  -- A probe whose socket has ended is settled, and what is settled stays as it is whatever follows.
  pub probe-IsSettled :
      (events later : List ProbeEvent)
      → In ended events
      → IsSettled (probe_web_ssh_host_key options events).outcome
        × ((probe_from options (probe_web_ssh_host_key options events) later).outcome
            ≡ (probe_web_ssh_host_key options events).outcome)
  probe-IsSettled events later i =
      let over = ended-IsSettled events initial i in
      (over, from-keeps later (probe_web_ssh_host_key options events) over)
