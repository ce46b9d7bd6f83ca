-- ===== src/Transport/Native.antt =====
-- packages/ssh-transport/src/native-transport.ts: a session of the desktop backend. `connect` is cut at
-- its awaits; `requests` is what the backend was asked, `received` and `closes` what the emitter passed
-- to its listeners, the latest first.
pub mod Safety
mod Tests
use trominal.Shared.{
  ℕ, Bool, true, false, List, [], ◌∷◌, Option, none, some, Text, Bytes, codes, text_eq, get_or_else,
  if◌then◌else◌, suc, ◌++◌, ◌⊎◌, ◌≡◌,
}
use trominal.Transport.Types.{
  SshSessionState, closed, connected, connecting, SshAuth, private_key, SshConnectOptions,
}
use trominal.Transport.WebSocket.{zeroed}
use trominal.HostKeys.{HostKeyPinPayload}

-- The request of `ssh_connect`; the pins are the approved host keys.
pub record ConnectRequest : Type 0 where
  pub session_id : Text
  pub host : Text
  pub port : ℕ
  pub username : Text
  pub cols : ℕ
  pub rows : ℕ
  pub private_key_pem : Option Bytes
  pub passphrase : Option Bytes
  pub host_keys : List HostKeyPinPayload

pub data Command : Type 0 where
  ssh_connect : ConnectRequest → Command
  ssh_write : Option Text → Bytes → Command
  ssh_resize : Option Text → (cols rows : ℕ) → Command
  ssh_close : Option Text → Command

-- Where `connect` is: not called, before each listener is installed, waiting for the backend, over.
pub data Phase : Type 0 where
  idle loading listening asking over : Phase

pub data Pending : Type 0 where
  write_bytes : Bytes → Pending
  resize_to : (cols rows : ℕ) → Pending

pub record Session : Type 0 where
  pub id : Text
  pub options : SshConnectOptions
  pub host_keys : Option (List HostKeyPinPayload)
  pub state : SshSessionState
  pub native_session_id : Option Text
  pub has_data_listener : Bool
  pub has_closed_listener : Bool
  pub phase : Phase
  pub requests : List Command
  pub received : List Bytes
  pub closes : List Text
  -- `write` and `resize` whose import of the backend is under way, and the calls of `close` that wait
  -- for it and those that wait for its answer.
  pub pending : List Pending
  pub closing : ℕ
  pub stopping : ℕ

abbrev pub new_session : Text → SshConnectOptions → Option (List HostKeyPinPayload) → Session
new_session id options host_keys = record {
  id = id;
  options = options;
  host_keys = host_keys;
  state = closed;
  native_session_id = none;
  has_data_listener = false;
  has_closed_listener = false;
  phase = idle;
  requests = [];
  received = [];
  closes = [];
  pending = [];
  closing = 0;
  stopping = 0;
}

abbrev pub is_native : Option Text → Text → Bool
is_native none id = false
is_native (some native) id = text_eq id native

unfoldable pub wipe_private_key : Session → Session
wipe_private_key s = record s { options = record (s.options) { auth = zeroed s.options.auth } }

abbrev pub cleanup_listeners : Session → Session
cleanup_listeners s = record s { has_data_listener = false; has_closed_listener = false }

abbrev pub private_key_payload : Option SshAuth → Option Bytes
private_key_payload (some (private_key pem passphrase)) = some pem
private_key_payload _ = none

-- An empty passphrase counts as none.
abbrev pub passphrase_payload : (Text → Bytes) → Option SshAuth → Option Bytes
passphrase_payload encode (some (private_key pem (some (c ∷ s)))) = some (encode (c ∷ s))
passphrase_payload encode _ = none

abbrev pub request_of : (Text → Bytes) → Session → ConnectRequest
request_of encode s = record {
  session_id = s.id;
  host = s.options.host;
  port = s.options.port;
  username = s.options.username;
  cols = get_or_else s.options.cols 80;
  rows = get_or_else s.options.rows 24;
  private_key_pem = private_key_payload s.options.auth;
  passphrase = passphrase_payload encode s.options.auth;
  host_keys = get_or_else s.host_keys [];
}

-- The parts of `connect`.
abbrev pub connect : Session → Session
connect s = record s { state = connecting; native_session_id = some s.id; phase = loading }

abbrev pub data_listening : Session → Session
data_listening s = record s { has_data_listener = true; phase = listening }

abbrev pub closed_listening : (Text → Bytes) → Session → Session
closed_listening encode s = record s {
  has_closed_listener = true;
  phase = asking;
  requests = ssh_connect (request_of encode s) ∷ s.requests;
}

abbrev pub resolved : Session → Session
resolved s = wipe_private_key (record s { state = connected; phase = over })

abbrev pub rejected : Session → Session
rejected s =
    wipe_private_key
      (cleanup_listeners (record s { native_session_id = none; state = closed; phase = over }))

-- An import or a listener that fails before the `try`.
abbrev pub not_started : Session → Session
not_started s = record s { phase = over }

abbrev pub on_data : Text → Bytes → Session → Session
on_data id bytes s =
    if is_native s.native_session_id id then record s { received = bytes ∷ s.received } else s

abbrev pub on_closed : Text → Text → Session → Session
on_closed id reason s =
    if is_native s.native_session_id id
    then cleanup_listeners
        (record s { native_session_id = none; state = closed; closes = reason ∷ s.closes })
    else s

abbrev pub when_native : Pending → Option Text → Session → Session
when_native command none s = s
when_native command (some native) s = record s { pending = command ∷ s.pending }

abbrev pub write : Bytes → Session → Session
write bytes s = when_native (write_bytes bytes) s.native_session_id s

abbrev pub resize : ℕ → ℕ → Session → Session
resize cols rows s = when_native (resize_to cols rows) s.native_session_id s

-- The id is read when the import is there.
abbrev pub command_of : Option Text → Pending → Command
command_of native (write_bytes bytes) = ssh_write native bytes
command_of native (resize_to cols rows) = ssh_resize native cols rows

abbrev pub sent : Pending → List Pending → Session → Session
sent command later s = record s {
  pending = later;
  requests = command_of s.native_session_id command ∷ s.requests;
}

-- The end of `close`.
abbrev pub close_done : Session → Session
close_done s = record (cleanup_listeners s) {
  native_session_id = none;
  state = closed;
  closes = codes "client closed" ∷ s.closes;
}

abbrev pub close_on : Option Text → Session → Session
close_on none s = close_done s
close_on (some native) s = record s { closing = suc s.closing }

unfoldable pub close : Session → Session
unfolding wipe_private_key
close s = close_on s.native_session_id (wipe_private_key s)

abbrev pub close_sent : ℕ → Session → Session
close_sent closing s = record s {
  closing = closing;
  stopping = suc s.stopping;
  requests = ssh_close s.native_session_id ∷ s.requests;
}

-- `connect` is called once. Writes are sent in any order that their imports come.
pub data Step (encode : Text → Bytes) : Session → Session → Type 0 where
  connects : {s : Session} → s.phase ≡ idle → Step encode s (connect s)
  listens_to_data : {s : Session} → s.phase ≡ loading → Step encode s (data_listening s)
  asks : {s : Session} → s.phase ≡ listening → Step encode s (closed_listening encode s)
  fails_early :
      {s : Session} → (s.phase ≡ loading) ⊎ (s.phase ≡ listening) → Step encode s (not_started s)
  resolves : {s : Session} → s.phase ≡ asking → Step encode s (resolved s)
  rejects : {s : Session} → s.phase ≡ asking → Step encode s (rejected s)
  gets_data :
      (id : Text) (bytes : Bytes) {s : Session}
      → s.has_data_listener ≡ true
      → Step encode s (on_data id bytes s)
  gets_closed :
      (id reason : Text) {s : Session}
      → s.has_closed_listener ≡ true
      → Step encode s (on_closed id reason s)
  writes : (bytes : Bytes) {s : Session} → Step encode s (write bytes s)
  resizes : (cols rows : ℕ) {s : Session} → Step encode s (resize cols rows s)
  sends :
      (command : Pending) (before later : List Pending) {s : Session}
      → s.pending ≡ before ++ (command ∷ later)
      → Step encode s (sent command (before ++ later) s)
  quits : {s : Session} → Step encode s (close s)
  asks_close : (n : ℕ) {s : Session} → s.closing ≡ suc n → Step encode s (close_sent n s)
  quits_done :
      (n : ℕ) {s : Session}
      → s.stopping ≡ suc n
      → Step encode s (close_done (record s { stopping = n }))
  quits_failed :
      (n : ℕ) {s : Session} → s.stopping ≡ suc n → Step encode s (record s { stopping = n })

pub data Reachable (encode : Text → Bytes) (first : Session) : Session → Type 0 where
  start : Reachable encode first first
  after : {s t : Session} → Reachable encode first s → Step encode s t → Reachable encode first t
