-- ===== src/Transport/Native/Tests.antt =====
-- A session that connects, one that ends while it connects, and one whose listener fails
-- (packages/ssh-transport/src/native-transport.ts).
use trominal.Shared.{List, [], ◌∷◌, none, some, Text, Bytes, codes, All, Some, ◌⊎◌, inl, ◌≡◌, refl}
use trominal.Shared
use trominal.HostKeys.{HostKeyPinPayload}
use trominal.Transport.Types.{private_key, SshConnectOptions, connected, connecting}
use trominal.Transport.WebSocket.Invariant.{IsWiped}
use trominal.Transport.Native
use trominal.Transport.Native.{
  Session, asking, new_session, connect, data_listening, closed_listening, resolved, not_started,
  on_closed, Reachable, start, after, connects, listens_to_data, asks, resolves, fails_early,
}
use trominal.Transport.Native.Safety.{IsBound, IsConnect, Reachable-IsBound}

abbrev encode : Text → Bytes
encode s = s

abbrev options : SshConnectOptions
options = record {
  host_id = none;
  host = codes "db";
  port = 22;
  username = codes "root";
  auth = some (private_key (1 ∷ 2 ∷ []) none);
  websocket_url = none;
  websocket_token = none;
  host_key_fingerprint = none;
  cols = none;
  rows = none;
}

abbrev pins : List HostKeyPinPayload
pins = record { key_type = codes "ssh-ed25519"; public_key = codes "AAAA" } ∷ []

abbrev fresh : Session
fresh = new_session (codes "s") options (some pins)

abbrev waiting : Session
waiting = closed_listening encode (data_listening (connect fresh))

waiting-Reachable : Reachable encode fresh waiting
waiting-Reachable = after (after (after start (connects refl)) (listens_to_data refl)) (asks refl)

Reachable-IsBound_example :
    All (IsBound encode (codes "s") options (some pins)) (resolved waiting).requests
    × (Some (IsConnect encode (codes "s") options (some pins)) (resolved waiting).requests
        → ((resolved waiting).phase ≡ asking) ⊎ IsWiped (resolved waiting).options.auth)
Reachable-IsBound_example =
    Reachable-IsBound encode (codes "s") options (some pins)
      (after waiting-Reachable (resolves refl))

-- The session ends before the answer to `ssh_connect` is there, and then counts as connected.
ended_first_run :
    ((resolved (on_closed (codes "s") (codes "exit") waiting)).state ≡ connected)
    × ((resolved (on_closed (codes "s") (codes "exit") waiting)).native_session_id ≡ none)
unfolding Native.wipe_private_key Shared.text_eq
ended_first_run = (refl, refl)

-- A listener that cannot be installed leaves the state and the private key as they are.
failed_early_run :
    ((not_started (connect fresh)).state ≡ connecting)
    × ((not_started (connect fresh)).options.auth ≡ some (private_key (1 ∷ 2 ∷ []) none))
failed_early_run = (refl, refl)

failed_early-Reachable : Reachable encode fresh (not_started (connect fresh))
failed_early-Reachable = after (after start (connects refl)) (fails_early (inl refl))
