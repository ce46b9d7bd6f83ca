-- ===== src/Transport/WebSocket/Tests.antt =====
-- Runs of a session (packages/ssh-transport/src/websocket-transport.ts).
use trominal.Shared.{
  text_eq, strip_prefix, true, false, [], ◌∷◌, Option, none, some, Text, codes, ◌≡◌, refl, All,
  Some, inl,
}
use trominal.Json.{get, field, end, Fields, string}
use trominal.Transport.Types.{SshConnectOptions, private_key}
use trominal.Transport.WebSocket.{
  is_well_formed_host_key_fingerprint, connect, on_open, on_text, write, is_connected,
  wipe_private_key, Session, new_session, data_frame, rejected, invalid_frame, Reachable, start,
  after, opens, gets_text, writes, connect_frame, frame_of,
}
use trominal.Transport.WebSocket.Invariant.{IsBound, IsConnect, IsWiped, IsQuiet}
use trominal.Transport.WebSocket.Safety.{
  credentials_need_pin, Reachable-IsWiped, nothing_before_ready,
}

abbrev digest : Text
digest = codes "OvoVOrZkJ5hv6JxPqVdVWTXWyF0AhHVVnQ8h0J4vUaE"

abbrev fingerprint : Text
fingerprint = codes "SHA256:OvoVOrZkJ5hv6JxPqVdVWTXWyF0AhHVVnQ8h0J4vUaE"

well_formed_run : is_well_formed_host_key_fingerprint fingerprint ≡ true
unfolding is_well_formed_host_key_fingerprint strip_prefix
well_formed_run = refl

padded_run :
    is_well_formed_host_key_fingerprint
      (codes "SHA256:OvoVOrZkJ5hv6JxPqVdVWTXWyF0AhHVVnQ8h0J4vUaE=")
    ≡ true
unfolding is_well_formed_host_key_fingerprint strip_prefix
padded_run = refl

no_prefix_run : is_well_formed_host_key_fingerprint digest ≡ false
unfolding is_well_formed_host_key_fingerprint strip_prefix
no_prefix_run = refl

abbrev options_with : Option Text → SshConnectOptions
options_with pinned = record {
  host_id = some (codes "h1");
  host = codes "example.org";
  port = 22;
  username = codes "root";
  auth = some (private_key (7 ∷ 9 ∷ []) none);
  websocket_url = some (codes "wss://proxy");
  websocket_token = some (codes "t");
  host_key_fingerprint = pinned;
  cols = none;
  rows = some 40;
}

unpinned_run :
    (connect (new_session (options_with none))).options.auth ≡ some (private_key (0 ∷ 0 ∷ []) none)
unfolding connect wipe_private_key
unpinned_run = refl

malformed_run :
    (connect (new_session (options_with (some digest)))).outcome ≡ rejected invalid_frame
unfolding connect wipe_private_key is_well_formed_host_key_fingerprint strip_prefix
malformed_run = refl

abbrev options : SshConnectOptions
options = options_with (some fingerprint)

abbrev opened : Session
opened = on_open (connect (new_session options))

opened_run :
    opened.sent ≡ connect_frame (frame_of options (codes "t") (codes "h1") fingerprint) ∷ []
unfolding connect on_open wipe_private_key is_well_formed_host_key_fingerprint strip_prefix
opened_run = refl

abbrev frame : Text → Option Fields
frame type = some (field (codes "type") (string type) end)

abbrev ready_session : Session
ready_session = on_text (frame (codes "ready")) [] opened

-- Before `ready` a write is dropped, afterwards it goes out.
write_run :
    (write (1 ∷ []) opened ≡ opened)
    × ((write (1 ∷ []) ready_session).sent ≡ data_frame (1 ∷ []) ∷ opened.sent)
unfolding connect on_open on_text write wipe_private_key is_well_formed_host_key_fingerprint
    strip_prefix get text_eq
write_run = (refl, refl)

opened-Reachable : Reachable options opened
unfolding connect is_well_formed_host_key_fingerprint strip_prefix
opened-Reachable = after start (opens refl)

ready-Reachable : Reachable options ready_session
unfolding connect on_open wipe_private_key is_well_formed_host_key_fingerprint strip_prefix
ready-Reachable = after opened-Reachable (gets_text (frame (codes "ready")) [] refl)

written-Reachable : Reachable options (write (1 ∷ []) ready_session)
written-Reachable = after ready-Reachable (writes (1 ∷ []))

credentials_need_pin_example :
    All (IsBound options.host_key_fingerprint) (write (1 ∷ []) ready_session).sent
credentials_need_pin_example = credentials_need_pin options written-Reachable

opened_sent : Some IsConnect opened.sent
unfolding connect on_open wipe_private_key is_well_formed_host_key_fingerprint strip_prefix
opened_sent = inl tt

Reachable-IsWiped_example : IsWiped opened.options.auth
Reachable-IsWiped_example = Reachable-IsWiped options opened-Reachable opened_sent

nothing_before_ready_run :
    (is_connected opened.state ≡ true → opened.ready ≡ true)
    × (opened.ready ≡ false → IsQuiet opened)
nothing_before_ready_run = nothing_before_ready options opened-Reachable
