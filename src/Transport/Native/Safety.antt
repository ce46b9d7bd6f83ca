-- ===== src/Transport/Native/Safety.antt =====
-- What a session asks of the desktop backend, and when its private key is gone
-- (packages/ssh-transport/src/native-transport.ts).
use trominal.Shared.{
  List, [], ◌∷◌, ◌++◌, Option, none, some, Text, Bytes, get_or_else, if-cases, All, Some, ◌⊎◌, inl,
  inr, ◌≡◌, refl, ap, sym, ◌∙◌,
}
use trominal.HostKeys.{HostKeyPinPayload}
use trominal.Transport.Types.{SshConnectOptions}
use trominal.Transport.WebSocket.Invariant.{IsWiped, zeroed-IsWiped}
use trominal.Transport.Native.{
  Command, ssh_connect, ssh_write, ssh_resize, ssh_close, Phase, idle, loading, listening, asking,
  over, Pending, write_bytes, resize_to, Session, new_session, is_native, wipe_private_key,
  when_native, sent, closed_listening, not_started, close_on, close, Step, connects,
  listens_to_data, asks, fails_early, resolves, rejects, gets_data, gets_closed, writes, resizes,
  sends, quits, asks_close, quits_done, quits_failed, Reachable, start, after,
}

module _ (encode : Text → Bytes) (id : Text) (options : SshConnectOptions)
    (host_keys : Option (List HostKeyPinPayload)) where
  -- A connection is asked for this session, at the host of the options, with the approved keys.
  abbrev pub IsBound : Command → Type 0
  IsBound (ssh_connect request) =
      (request.session_id ≡ id)
      × (request.host ≡ options.host)
      × (request.port ≡ options.port)
      × (request.username ≡ options.username)
      × (request.host_keys ≡ get_or_else host_keys [])
  IsBound _ = Unit {0}

  abbrev pub IsConnect : Command → Type 0
  IsConnect (ssh_connect request) = Unit {0}
  IsConnect _ = ⊥

  -- What the id, the options, the pins, the phase and the requests of a session keep to.
  record Keeps (own_id : Text) (own : SshConnectOptions)
      (own_keys : Option (List HostKeyPinPayload)) (phase : Phase) (requests : List Command)
      : Type 0 where
    same_id : own_id ≡ id
    host : own.host ≡ options.host
    port : own.port ≡ options.port
    username : own.username ≡ options.username
    pins : own_keys ≡ host_keys
    bound : All IsBound requests
    spent : Some IsConnect requests → (phase ≡ asking) ⊎ ((phase ≡ over) × IsWiped own.auth)

  abbrev IsSafe : Session → Type 0
  IsSafe s = Keeps s.id s.options s.host_keys s.phase s.requests

  unasked :
      (s : Session)
      → IsSafe s
      → (p : Phase) → s.phase ≡ p
      → (p ≡ asking → ⊥)
      → (p ≡ over → ⊥)
      → Some IsConnect s.requests
      → ⊥
  unasked s o p e not_asking not_over h = elim (o.spent h) [
    | inl asked ↦ not_asking (sym e ∙ asked)
    | inr (ended, w) ↦ not_over (sym e ∙ ended)
  ]

  -- The phases before the request.
  moved :
      (s : Session) (p next : Phase)
      → s.phase ≡ p
      → (p ≡ asking → ⊥)
      → (p ≡ over → ⊥)
      → IsSafe s
      → IsSafe (record s { phase = next })
  moved s p next e not_asking not_over o = record {
    same_id = o.same_id;
    host = o.host;
    port = o.port;
    username = o.username;
    pins = o.pins;
    bound = o.bound;
    spent = λ h. absurd (unasked s o p e not_asking not_over h);
  }

  asked :
      (s : Session) (command : Command)
      → IsBound command
      → (IsConnect command → ⊥)
      → IsSafe s
      → IsSafe (record s { requests = command ∷ s.requests })
  asked s command b n o = record {
    same_id = o.same_id;
    host = o.host;
    port = o.port;
    username = o.username;
    pins = o.pins;
    bound = (b, o.bound);
    spent = spent_later;
  }
    where
      spent_later :
          Some IsConnect (command ∷ s.requests)
          → (s.phase ≡ asking) ⊎ ((s.phase ≡ over) × IsWiped s.options.auth)
      spent_later (inl c) = absurd (n c)
      spent_later (inr h) = o.spent h

  ask-IsSafe : (s : Session) → IsSafe s → IsSafe (closed_listening encode s)
  ask-IsSafe s o = record {
    same_id = o.same_id;
    host = o.host;
    port = o.port;
    username = o.username;
    pins = o.pins;
    bound = ((o.same_id, o.host, o.port, o.username, ap (λ k. get_or_else k []) o.pins), o.bound);
    spent = λ h. inl refl;
  }

  wipe-IsSafe : (s : Session) → IsSafe s → IsSafe (wipe_private_key s)
  unfolding wipe_private_key
  wipe-IsSafe s o = record {
    same_id = o.same_id;
    host = o.host;
    port = o.port;
    username = o.username;
    pins = o.pins;
    bound = o.bound;
    spent = λ h. elim (o.spent h) [
      | inl e ↦ inl e
      | inr (e, w) ↦ inr (e, zeroed-IsWiped s.options.auth)
    ];
  }

  settled : (s : Session) → IsSafe s → IsSafe (wipe_private_key (record s { phase = over }))
  unfolding wipe_private_key
  settled s o = record {
    same_id = o.same_id;
    host = o.host;
    port = o.port;
    username = o.username;
    pins = o.pins;
    bound = o.bound;
    spent = λ h. inr (refl, zeroed-IsWiped s.options.auth);
  }

  when_native-IsSafe :
      (command : Pending) (native : Option Text) (s : Session)
      → IsSafe s
      → IsSafe (when_native command native s)
  when_native-IsSafe command none s o = o
  when_native-IsSafe command (some native) s o = o

  close_on-IsSafe : (native : Option Text) (s : Session) → IsSafe s → IsSafe (close_on native s)
  close_on-IsSafe none s o = o
  close_on-IsSafe (some native) s o = o

  sent-IsSafe :
      (command : Pending) (later : List Pending) (s : Session)
      → IsSafe s
      → IsSafe (sent command later s)
  sent-IsSafe (write_bytes bytes) later s o =
      asked s (ssh_write s.native_session_id bytes) tt (λ c. c) o
  sent-IsSafe (resize_to cols rows) later s o =
      asked s (ssh_resize s.native_session_id cols rows) tt (λ c. c) o

  early-IsSafe :
      (s : Session)
      → (s.phase ≡ loading) ⊎ (s.phase ≡ listening)
      → IsSafe s
      → IsSafe (not_started s)
  early-IsSafe s (inl e) o = moved s loading over e (λ c. cc c) (λ c. cc c) o
  early-IsSafe s (inr e) o = moved s listening over e (λ c. cc c) (λ c. cc c) o

  Step-IsSafe : {s t : Session} → Step encode s t → IsSafe s → IsSafe t
  unfolding wipe_private_key close
  Step-IsSafe (connects {s} e) o = moved s idle loading e (λ c. cc c) (λ c. cc c) o
  Step-IsSafe (listens_to_data {s} e) o = moved s loading listening e (λ c. cc c) (λ c. cc c) o
  Step-IsSafe (asks {s} e) o = ask-IsSafe s o
  Step-IsSafe (fails_early {s} e) o = early-IsSafe s e o
  Step-IsSafe (resolves {s} e) o = settled s o
  Step-IsSafe (rejects {s} e) o = settled s o
  Step-IsSafe (gets_data other bytes {s} h) o =
      if-cases IsSafe (is_native s.native_session_id other) _ _ (λ e. o) (λ e. o)
  Step-IsSafe (gets_closed other reason {s} h) o =
      if-cases IsSafe (is_native s.native_session_id other) _ _ (λ e. o) (λ e. o)
  Step-IsSafe (writes bytes {s}) o = when_native-IsSafe (write_bytes bytes) s.native_session_id s o
  Step-IsSafe (resizes cols rows {s}) o =
      when_native-IsSafe (resize_to cols rows) s.native_session_id s o
  Step-IsSafe (sends command before later {s} e) o = sent-IsSafe command (before ++ later) s o
  Step-IsSafe (quits {s}) o =
      close_on-IsSafe s.native_session_id (wipe_private_key s) (wipe-IsSafe s o)
  Step-IsSafe (asks_close n {s} e) o = asked s (ssh_close s.native_session_id) tt (λ c. c) o
  Step-IsSafe (quits_done n {s} e) o = o
  Step-IsSafe (quits_failed n {s} e) o = o

  reached : {s : Session} → Reachable encode (new_session id options host_keys) s → IsSafe s
  reached start = record {
    same_id = refl;
    host = refl;
    port = refl;
    username = refl;
    pins = refl;
    bound = tt;
    spent = λ h. absurd h;
  }
  reached (after r step) = Step-IsSafe step (reached r)

  -- Whatever a session goes through, with its events, writes and closings in any order: each
  -- connection that it asks for carries its own id, the host, port and user of its options and exactly
  -- the approved host keys, none if there are none; and once one was asked for, the bytes of the
  -- private key are zero, except while the backend's answer is awaited.
  pub Reachable-IsBound :
      {s : Session}
      → Reachable encode (new_session id options host_keys) s
      → All IsBound s.requests
        × (Some IsConnect s.requests → (s.phase ≡ asking) ⊎ IsWiped s.options.auth)
  Reachable-IsBound {s} r = ((reached r).bound, wiped_later)
    where
      wiped_later : Some IsConnect s.requests → (s.phase ≡ asking) ⊎ IsWiped s.options.auth
      wiped_later h = elim ((reached r).spent h) [ inl e ↦ inl e | inr (e, w) ↦ inr w ]
