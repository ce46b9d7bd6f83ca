-- ===== src/Transport/WebSocket/Probe/Tests.antt =====
-- A probe on concrete frames (packages/ssh-transport/src/websocket-transport.ts).
use trominal.Shared.{
  true, List, [], ◌∷◌, ◌++◌, some, Text, codes, replicate, Some, inl, inr, ◌≡◌, refl,
}
use trominal.Shared
use trominal.Json
use trominal.Json.{Fields, string, field, end}
use trominal.Transport.WebSocket
use trominal.Transport.WebSocket.{is_well_formed_host_key_fingerprint}
use trominal.Transport.WebSocket.Probe
use trominal.Transport.WebSocket.Probe.{
  WebSshHostKey, WebSshProbeOptions, ProbeEvent, opened, ended, text_message, presented, probe_from,
  probe_web_ssh_host_key,
}
use trominal.Transport.WebSocket.Probe.Presented.{
  IsPresentedBy, IsSettled, probe-presented, probe-IsSettled,
}

abbrev options : WebSshProbeOptions
options = record { websocket_token = codes "t"; host_id = codes "h"; host = codes "db"; port = 22 }

abbrev fingerprint : Text
fingerprint = codes "SHA256:" ++ replicate 43 65

abbrev frame : Fields
frame = field (codes "type") (string (codes "host_key")) (
    field (codes "fingerprint") (string fingerprint)
      (field (codes "key_type") (string (codes "ssh-ed25519")) end))

abbrev key : WebSshHostKey
key = record { fingerprint = fingerprint; key_type = codes "ssh-ed25519" }

abbrev events : List ProbeEvent
events = opened ∷ text_message (some frame) ∷ ended ∷ []

presented_run : (probe_web_ssh_host_key options events).outcome ≡ presented key
unfolding probe_from Probe.on_probe_event Shared.text_eq Json.get
    WebSocket.is_well_formed_host_key_fingerprint Shared.strip_prefix
presented_run = refl

probe-presented_example :
    Some (IsPresentedBy key) events × (is_well_formed_host_key_fingerprint fingerprint ≡ true)
probe-presented_example = probe-presented options events key presented_run

probe-IsSettled_run :
    IsSettled (probe_web_ssh_host_key options events).outcome
    × ((probe_from options (probe_web_ssh_host_key options events) (ended ∷ [])).outcome
        ≡ (probe_web_ssh_host_key options events).outcome)
probe-IsSettled_run = probe-IsSettled options events (ended ∷ []) (inr (inr (inl refl)))
