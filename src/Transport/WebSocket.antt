-- ===== src/Transport/WebSocket.antt =====
-- packages/ssh-transport/src/websocket-transport.ts: a session over the proxy's WebSocket. The socket
-- is the record of what was sent; `received` and `closes` are what the emitter passed to its listeners,
-- the latest first. A text message comes with what `parseControlFrame` gives for it.
pub mod Invariant
pub mod Steps
pub mod Safety
pub mod Probe
mod Tests
use trominal.Shared.{
  ℕ, Bool, true, false, ◌&&◌, ◌||◌, List, [], ◌∷◌, map, Option, none, some, Text, Bytes, codes,
  text_eq, strip_prefix, every, leb, length, take, drop, get_or_else, if◌then◌else◌, ◌==◌, ◌≡◌,
}
use trominal.Shared.Options
use trominal.Transport.Types.{
  SshSessionState, closed, connected, connecting, SshAuth, private_key, SshConnectOptions,
}
use trominal.Json.{Value, string, Fields, get}

pub record ConnectFrame : Type 0 where
  pub token : Text
  pub host_id : Text
  pub host : Text
  pub port : ℕ
  pub host_key_fingerprint : Text
  pub username : Text
  pub cols : ℕ
  pub rows : ℕ
  pub auth : Option SshAuth

pub data Frame : Type 0 where
  connect_frame : ConnectFrame → Frame
  data_frame : Bytes → Frame
  resize_frame : (cols rows : ℕ) → Frame

-- An error of `connect`: thrown before the socket is made, or the code of a `WebSshError`.
pub data Failure : Type 0 where
  no_url no_token no_host_id host_key_unknown invalid_frame connect_failed : Failure
  reported : Text → Failure

pub data Outcome : Type 0 where
  pending resolved : Outcome
  rejected : Failure → Outcome

pub record Session : Type 0 where
  pub options : SshConnectOptions
  pub state : SshSessionState
  pub has_socket : Bool
  pub opened : Bool
  pub ready : Bool
  pub outcome : Outcome
  pub sent : List Frame
  pub received : List Bytes
  pub closes : List Text

abbrev pub new_session : SshConnectOptions → Session
new_session options = record {
  options = options;
  state = closed;
  has_socket = false;
  opened = false;
  ready = false;
  outcome = pending;
  sent = [];
  received = [];
  closes = [];
}

abbrev pub is_base64 : ℕ → Bool
is_base64 c =
    (leb b'A' c && leb c b'Z')
    || (leb b'a' c && leb c b'z')
    || (leb b'0' c && leb c b'9')
    || (c == b'+')
    || (c == b'/')

-- `=?$`
abbrev pub is_padding : Text → Bool
is_padding [] = true
is_padding (c ∷ []) = c == b'='
is_padding _ = false

abbrev pub is_digest : Option Text → Bool
is_digest none = false
is_digest (some s) =
    (length (take 43 s) == 43) && every is_base64 (take 43 s) && is_padding (drop 43 s)

-- `/^SHA256:[A-Za-z0-9+/]{43}=?$/`
unfoldable pub is_well_formed_host_key_fingerprint : Text → Bool
is_well_formed_host_key_fingerprint value = is_digest (strip_prefix (codes "SHA256:") value)

abbrev pub zeroed : Option SshAuth → Option SshAuth
zeroed (some (private_key pem passphrase)) = some (private_key (map (λ b. 0) pem) passphrase)
zeroed auth = auth

unfoldable pub wipe_private_key : Session → Session
wipe_private_key s = record s { options = record (s.options) { auth = zeroed s.options.auth } }

abbrev pub fail : Failure → Session → Session
fail failure s = record s { outcome = rejected failure }

-- What follows the guards of `connect`, up to the promise.
abbrev pub open_socket : Session → Session
open_socket s = record s {
  state = connecting;
  has_socket = true;
  opened = true;
  ready = false;
  outcome = pending;
}

abbrev pub connect_pinned : Option Text → Session → Session
connect_pinned none s = fail host_key_unknown (wipe_private_key s)
connect_pinned (some []) s = fail host_key_unknown (wipe_private_key s)
connect_pinned (some (c ∷ fingerprint)) s =
    if is_well_formed_host_key_fingerprint (c ∷ fingerprint)
    then open_socket s
    else fail invalid_frame (wipe_private_key s)

abbrev pub connect_with : (url token host_id fingerprint : Option Text) → Session → Session
connect_with none token host_id fingerprint s = fail no_url s
connect_with (some url) none host_id fingerprint s = fail no_token s
connect_with (some url) (some token) none fingerprint s = fail no_host_id s
connect_with (some url) (some token) (some host_id) fingerprint s = connect_pinned fingerprint s

unfoldable pub connect : Session → Session
connect s =
    connect_with s.options.websocket_url s.options.websocket_token s.options.host_id
      s.options.host_key_fingerprint s

abbrev pub frame_of : SshConnectOptions → Text → Text → Text → ConnectFrame
frame_of options token host_id fingerprint = record {
  token = token;
  host_id = host_id;
  host = options.host;
  port = options.port;
  host_key_fingerprint = fingerprint;
  username = options.username;
  cols = get_or_else options.cols 80;
  rows = get_or_else options.rows 24;
  auth = options.auth;
}

-- The three options were checked by `connect`, which alone installs the handlers.
abbrev pub opened_with : (token host_id fingerprint : Option Text) → Session → Session
opened_with (some token) (some host_id) (some fingerprint) s =
    wipe_private_key
      (record s { sent = connect_frame (frame_of s.options token host_id fingerprint) ∷ s.sent })
opened_with _ _ _ s = s

unfoldable pub on_open : Session → Session
on_open s = opened_with s.options.websocket_token s.options.host_id s.options.host_key_fingerprint s

abbrev pub settle : Outcome → Outcome → Outcome
settle pending outcome = outcome
settle earlier outcome = earlier

unfoldable pub on_error : Session → Session
on_error s =
    if s.ready then s else record s { outcome = settle s.outcome (rejected connect_failed) }

abbrev is_string : Option Value → Text → Bool
is_string (some (string s)) t = text_eq s t
is_string _ t = false

abbrev pub is_type : Option Fields → Text → Bool
is_type none t = false
is_type (some fields) t = is_string (get (codes "type") fields) t

abbrev text_or : Option Value → Text → Text
text_or (some (string s)) t = s
text_or _ t = t

abbrev pub frame_text : Option Fields → Text → Text → Text
frame_text none name t = t
frame_text (some fields) name t = text_or (get name fields) t

abbrev pub emit_close : Text → Session → Session
emit_close reason s = record s { closes = reason ∷ s.closes }

-- A text message with its parsed frame, and its UTF-8 bytes.
unfoldable pub on_text : Option Fields → Bytes → Session → Session
on_text frame bytes s =
    if is_type frame (codes "ready")
    then record s { ready = true; state = connected; outcome = settle s.outcome resolved }
    else if is_type frame (codes "error")
    then (if s.ready
        then emit_close (frame_text frame (codes "message") (codes "SSH error")) s
        else record s {
          outcome =
              settle s.outcome
                (rejected (reported (frame_text frame (codes "code") (codes "session_failed"))));
        })
    else if s.ready
    then record s { received = bytes ∷ s.received }
    else s

unfoldable pub on_binary : Bytes → Session → Session
on_binary bytes s = if s.ready then record s { received = bytes ∷ s.received } else s

-- `reason` is `event.reason || \`closed:${event.code}\``.
unfoldable pub on_close : Text → Session → Session
unfolding wipe_private_key
on_close reason s =
    let ended = wipe_private_key (record s { state = closed }) in
    if s.ready
    then emit_close reason ended
    else record ended { outcome = settle s.outcome (rejected connect_failed) }

abbrev pub is_connected : SshSessionState → Bool
is_connected connected = true
is_connected _ = false

unfoldable pub write : Bytes → Session → Session
write bytes s =
    if is_connected s.state && s.has_socket
    then record s { sent = data_frame bytes ∷ s.sent }
    else s

unfoldable pub resize : (cols rows : ℕ) → Session → Session
resize cols rows s =
    if is_connected s.state && s.has_socket
    then record s { sent = resize_frame cols rows ∷ s.sent }
    else s

unfoldable pub close : Session → Session
unfolding wipe_private_key
close s = record (wipe_private_key s) { state = closed; has_socket = false }

-- The calls on a session after its one `connect`, and the events of the socket, which gives no
-- `open` and no message after it was closed.
pub data Step : Session → Session → Type 0 where
  opens : {s : Session} → s.has_socket ≡ true → Step s (on_open s)
  errs : {s : Session} → s.opened ≡ true → Step s (on_error s)
  gets_text :
      (frame : Option Fields) (bytes : Bytes) {s : Session}
      → s.has_socket ≡ true
      → Step s (on_text frame bytes s)
  gets_binary : (bytes : Bytes) {s : Session} → s.has_socket ≡ true → Step s (on_binary bytes s)
  ends : (reason : Text) {s : Session} → s.opened ≡ true → Step s (on_close reason s)
  writes : (bytes : Bytes) {s : Session} → Step s (write bytes s)
  resizes : (cols rows : ℕ) {s : Session} → Step s (resize cols rows s)
  quits : {s : Session} → Step s (close s)

pub data Reachable (options : SshConnectOptions) : Session → Type 0 where
  start : Reachable options (connect (new_session options))
  after : {s t : Session} → Reachable options s → Step s t → Reachable options t
