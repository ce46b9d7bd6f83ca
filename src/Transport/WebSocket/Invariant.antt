-- ===== src/Transport/WebSocket/Invariant.antt =====
-- What holds of a session, and the changes that keep it (packages/ssh-transport/src/websocket-transport.ts).
use trominal.Shared.{
  inl, inr, ℕ, Bool, true, false, List, [], ◌∷◌, map, Option, none, some, Text, Bytes, ◌≡◌, refl,
  sym, All, Some,
}
use trominal.Transport.WebSocket.{
  is_well_formed_host_key_fingerprint, is_connected, zeroed, wipe_private_key, opened_with, Session,
  Frame, connect_frame, Outcome,
}
use trominal.Transport.Types.{closed, connected, SshAuth, password, private_key}

-- The fingerprint a socket may be opened with.
abbrev pub IsPinned : Option Text → Type 0
IsPinned none = ⊥
IsPinned (some fingerprint) = is_well_formed_host_key_fingerprint fingerprint ≡ true

-- Credentials go out with the pinned fingerprint of the options and no other.
abbrev pub IsBound : Option Text → Frame → Type 0
IsBound pinned (connect_frame frame) = (pinned ≡ some frame.host_key_fingerprint) × IsPinned pinned
IsBound pinned _ = Unit

abbrev pub IsConnect : Frame → Type 0
IsConnect (connect_frame frame) = Unit
IsConnect _ = ⊥

abbrev pub IsWiped : Option SshAuth → Type 0
IsWiped (some (private_key pem passphrase)) = All (λ b. b ≡ 0) pem
IsWiped _ = Unit

-- Nothing but `connect` frames went out, and nothing came in.
pub record IsQuiet (s : Session) : Type 0 where
  pub only_connect : All IsConnect s.sent
  pub no_data : s.received ≡ []
  pub no_close : s.closes ≡ []

pub record IsSafe (pinned : Option Text) (s : Session) : Type 0 where
  pub same : s.options.host_key_fingerprint ≡ pinned
  pub socket : s.has_socket ≡ true → IsPinned pinned
  pub frames : All (IsBound pinned) s.sent
  pub live : is_connected s.state ≡ true → s.ready ≡ true
  pub quiet : s.ready ≡ false → IsQuiet s
  pub spent : Some IsConnect s.sent → IsWiped s.options.auth

zero_bytes : (bytes : Bytes) → All (λ (b : ℕ). b ≡ 0) (map (λ b. 0) bytes)
zero_bytes [] = tt
zero_bytes (b ∷ bytes) = (refl, zero_bytes bytes)

pub zeroed-IsWiped : (auth : Option SshAuth) → IsWiped (zeroed auth)
zeroed-IsWiped none = tt
zeroed-IsWiped (some (password p)) = tt
zeroed-IsWiped (some (private_key pem passphrase)) = zero_bytes pem

pub wipe-IsSafe :
    (pinned : Option Text) (s : Session) → IsSafe pinned s → IsSafe pinned (wipe_private_key s)
unfolding wipe_private_key
wipe-IsSafe pinned s o = record {
  same = o.same;
  socket = o.socket;
  frames = o.frames;
  live = o.live;
  quiet = λ h. record {
    only_connect = (o.quiet h).only_connect;
    no_data = (o.quiet h).no_data;
    no_close = (o.quiet h).no_close;
  };
  spent = λ h. zeroed-IsWiped s.options.auth;
}

pub open-IsSafe :
    (pinned token host_id fingerprint : Option Text) (s : Session)
    → fingerprint ≡ pinned
    → IsPinned pinned
    → IsSafe pinned s
    → IsSafe pinned (opened_with token host_id fingerprint s)
unfolding wipe_private_key
open-IsSafe pinned (some token) (some host_id) (some fingerprint) s e p o = record {
  same = o.same;
  socket = o.socket;
  frames = ((sym e, p), o.frames);
  live = o.live;
  quiet = λ h. record {
    only_connect = (tt, (o.quiet h).only_connect);
    no_data = (o.quiet h).no_data;
    no_close = (o.quiet h).no_close;
  };
  spent = λ h. zeroed-IsWiped s.options.auth;
}
open-IsSafe pinned none host_id fingerprint s e p o = o
open-IsSafe pinned (some token) none fingerprint s e p o = o
open-IsSafe pinned (some token) (some host_id) none s e p o = o

-- The state and the outcome may change as long as `connected` comes with `ready`.
module _ (pinned : Option Text) (s : Session) (o : IsSafe pinned s) where
  pub settled : (outcome : Outcome) → IsSafe pinned (record s { outcome = outcome })
  settled outcome = record {
    same = o.same;
    socket = o.socket;
    frames = o.frames;
    live = o.live;
    quiet = λ h. record {
      only_connect = (o.quiet h).only_connect;
      no_data = (o.quiet h).no_data;
      no_close = (o.quiet h).no_close;
    };
    spent = o.spent;
  }

  pub readied :
      (outcome : Outcome)
      → IsSafe pinned (record s { ready = true; state = connected; outcome = outcome })
  readied outcome = record {
    same = o.same;
    socket = o.socket;
    frames = o.frames;
    live = λ h. refl;
    quiet = λ h. absurd (cc h);
    spent = o.spent;
  }

  pub ended :
      (has_socket : Bool)
      → (has_socket ≡ true → s.has_socket ≡ true)
      → IsSafe pinned (record s { state = closed; has_socket = has_socket })
  ended has_socket k = record {
    same = o.same;
    socket = λ h. o.socket (k h);
    frames = o.frames;
    live = λ h. absurd (cc h);
    quiet = λ h. record {
      only_connect = (o.quiet h).only_connect;
      no_data = (o.quiet h).no_data;
      no_close = (o.quiet h).no_close;
    };
    spent = o.spent;
  }

  -- Once ready, data and the end are passed on and frames without credentials go out.
  pub received :
      s.ready ≡ true
      → (chunks closes : List Text)
      → IsSafe pinned (record s { received = chunks; closes = closes })
  received r chunks closes = record {
    same = o.same;
    socket = o.socket;
    frames = o.frames;
    live = o.live;
    quiet = λ h. absurd (cc (r, h));
    spent = o.spent;
  }

  pub sends :
      s.ready ≡ true
      → (frame : Frame) → IsBound pinned frame
      → (IsConnect frame → ⊥)
      → IsSafe pinned (record s { sent = frame ∷ s.sent })
  sends r frame b n = record {
    same = o.same;
    socket = o.socket;
    frames = (b, o.frames);
    live = o.live;
    quiet = λ h. absurd (cc (r, h));
    spent = λ h. elim h [ inl c ↦ absurd (n c) | inr h ↦ o.spent h ];
  }
