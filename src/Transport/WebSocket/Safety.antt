-- ===== src/Transport/WebSocket/Safety.antt =====
-- What a session sends and when it counts as connected (packages/ssh-transport/src/websocket-transport.ts).
use trominal.Shared.{
  true, false, if-cases, [], ◌∷◌, Option, none, some, Text, ◌≡◌, refl, subst, All, Some,
}
use trominal.Transport.WebSocket.{
  open_socket, fail, Failure, no_url, no_token, no_host_id, host_key_unknown, invalid_frame,
  is_well_formed_host_key_fingerprint, is_connected, wipe_private_key, connect_pinned, connect_with,
  connect, Session, new_session, rejected, Reachable, start, after,
}
use trominal.Transport.Types.{SshConnectOptions}
use trominal.Transport.WebSocket.Invariant.{
  IsPinned, IsBound, IsConnect, IsWiped, IsQuiet, IsSafe, wipe-IsSafe, settled,
}
use trominal.Transport.WebSocket.Steps.{Step-IsSafe}

new-IsSafe :
    (options : SshConnectOptions) → IsSafe options.host_key_fingerprint (new_session options)
new-IsSafe options = record {
  same = refl;
  socket = λ h. absurd (cc h);
  frames = tt;
  live = λ h. absurd (cc h);
  quiet = λ h. record { only_connect = tt; no_data = refl; no_close = refl };
  spent = λ h. absurd h;
}

socket-IsSafe :
    (options : SshConnectOptions)
    → IsPinned options.host_key_fingerprint
    → IsSafe options.host_key_fingerprint (open_socket (new_session options))
socket-IsSafe options p = record {
  same = refl;
  socket = λ h. p;
  frames = tt;
  live = λ h. absurd (cc h);
  quiet = λ h. record { only_connect = tt; no_data = refl; no_close = refl };
  spent = λ h. absurd h;
}

fail-IsSafe :
    (options : SshConnectOptions) (failure : Failure)
    → IsSafe options.host_key_fingerprint (fail failure (new_session options))
fail-IsSafe options failure = settled _ _ (new-IsSafe options) (rejected failure)

refuse-IsSafe :
    (options : SshConnectOptions) (failure : Failure)
    → IsSafe options.host_key_fingerprint (fail failure (wipe_private_key (new_session options)))
refuse-IsSafe options failure =
    settled _ _ (wipe-IsSafe _ _ (new-IsSafe options)) (rejected failure)

connect_pinned-IsSafe :
    (options : SshConnectOptions) (fingerprint : Option Text)
    → fingerprint ≡ options.host_key_fingerprint
    → IsSafe options.host_key_fingerprint (connect_pinned fingerprint (new_session options))
connect_pinned-IsSafe options none e = refuse-IsSafe options host_key_unknown
connect_pinned-IsSafe options (some []) e = refuse-IsSafe options host_key_unknown
connect_pinned-IsSafe options (some (c ∷ fingerprint)) e =
    if-cases (IsSafe options.host_key_fingerprint)
      (is_well_formed_host_key_fingerprint (c ∷ fingerprint)) _ _
      (λ h. socket-IsSafe options (subst IsPinned e h)) (λ h. refuse-IsSafe options invalid_frame)

connect_with-IsSafe :
    (options : SshConnectOptions) (url token host_id : Option Text)
    → IsSafe options.host_key_fingerprint
        (connect_with url token host_id options.host_key_fingerprint (new_session options))
connect_with-IsSafe options none token host_id = fail-IsSafe options no_url
connect_with-IsSafe options (some url) none host_id = fail-IsSafe options no_token
connect_with-IsSafe options (some url) (some token) none = fail-IsSafe options no_host_id
connect_with-IsSafe options (some url) (some token) (some host_id) =
    connect_pinned-IsSafe options options.host_key_fingerprint refl

Reachable-IsSafe :
    (options : SshConnectOptions) {s : Session}
    → Reachable options s
    → IsSafe options.host_key_fingerprint s
unfolding connect
Reachable-IsSafe options start =
    connect_with-IsSafe options options.websocket_url options.websocket_token options.host_id
Reachable-IsSafe options (after r step) =
    Step-IsSafe options.host_key_fingerprint step (Reachable-IsSafe options r)

-- Whatever a session goes through, every `connect` frame it has sent, which is the frame with the
-- credentials, names the fingerprint of the options, and that fingerprint is well formed.
pub credentials_need_pin :
    (options : SshConnectOptions) {s : Session}
    → Reachable options s
    → All (IsBound options.host_key_fingerprint) s.sent
credentials_need_pin options r = (Reachable-IsSafe options r).frames

-- Whatever a session goes through, once a `connect` frame was sent no byte of the private key is left.
pub Reachable-IsWiped :
    (options : SshConnectOptions) {s : Session}
    → Reachable options s
    → Some IsConnect s.sent
    → IsWiped s.options.auth
Reachable-IsWiped options r h = (Reachable-IsSafe options r).spent h

-- Whatever a session goes through, it counts as connected only after the proxy said `ready`, and
-- before that only `connect` frames go out and the listeners get neither data nor the end.
pub nothing_before_ready :
    (options : SshConnectOptions) {s : Session}
    → Reachable options s
    → (is_connected s.state ≡ true → s.ready ≡ true) × (s.ready ≡ false → IsQuiet s)
nothing_before_ready options r = let o = Reachable-IsSafe options r in (o.live, o.quiet)
