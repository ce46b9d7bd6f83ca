-- ===== src/Transport/WebSocket/Probe.antt =====
-- `probeWebSshHostKey` of packages/ssh-transport/src/websocket-transport.ts: a run is the events of the
-- socket in their order. A text message comes with what `parseControlFrame` gives for it.
pub mod Presented
mod Tests
use trominal.Shared.{ℕ, suc, List, [], ◌∷◌, Option, none, some, Text, codes, if◌then◌else◌}
use trominal.Json.{Value, string, Fields, get}
use trominal.Transport.WebSocket.{
  Failure, connect_failed, reported, is_well_formed_host_key_fingerprint, is_type, frame_text,
}

pub record WebSshHostKey : Type 0 where
  pub fingerprint : Text
  pub key_type : Text

pub record WebSshProbeOptions : Type 0 where
  pub websocket_token : Text
  pub host_id : Text
  pub host : Text
  pub port : ℕ

pub data ProbeEvent : Type 0 where
  opened errored binary_message ended : ProbeEvent
  text_message : Option Fields → ProbeEvent

pub data ProbeOutcome : Type 0 where
  waiting : ProbeOutcome
  presented : WebSshHostKey → ProbeOutcome
  refused : Failure → ProbeOutcome

-- A probe frame has the options and nothing else. `closings` counts the calls of `socket.close`.
pub record Probe : Type 0 where
  pub outcome : ProbeOutcome
  pub sent : List WebSshProbeOptions
  pub closings : ℕ

abbrev pub initial : Probe
initial = record { outcome = waiting; sent = []; closings = 0 }

abbrev pub settle_once : ProbeOutcome → ProbeOutcome → ProbeOutcome
settle_once waiting outcome = outcome
settle_once (presented key) outcome = presented key
settle_once (refused failure) outcome = refused failure

abbrev pub well_formed_key : Text → Text → Option WebSshHostKey
well_formed_key fingerprint key_type =
    if is_well_formed_host_key_fingerprint fingerprint
    then some (record { fingerprint = fingerprint; key_type = key_type })
    else none

abbrev pub host_key_of : Option Value → Option Value → Option WebSshHostKey
host_key_of (some (string fingerprint)) (some (string key_type)) =
    well_formed_key fingerprint key_type
host_key_of _ _ = none

abbrev pub host_key_from_frame : Option Fields → Option WebSshHostKey
host_key_from_frame none = none
host_key_from_frame (some frame) =
    host_key_of (get (codes "fingerprint") frame) (get (codes "key_type") frame)

abbrev pub key_outcome : Option WebSshHostKey → ProbeOutcome
key_outcome none = refused (reported (codes "host_key_unavailable"))
key_outcome (some key) = presented key

abbrev pub settled : ProbeOutcome → Probe → Probe
settled outcome s = record s { outcome = settle_once s.outcome outcome }

abbrev pub on_probe_text : Option Fields → Probe → Probe
on_probe_text frame s =
    if is_type frame (codes "host_key")
    then record (settled (key_outcome (host_key_from_frame frame)) s) { closings = suc s.closings }
    else if is_type frame (codes "error")
    then settled (refused (reported (frame_text frame (codes "code") (codes "session_failed")))) s
    else s

unfoldable pub on_probe_event : WebSshProbeOptions → ProbeEvent → Probe → Probe
on_probe_event options opened s = record s { sent = options ∷ s.sent }
on_probe_event options errored s = settled (refused connect_failed) s
on_probe_event options binary_message s = s
on_probe_event options (text_message frame) s = on_probe_text frame s
on_probe_event options ended s = settled (refused connect_failed) s

unfoldable pub probe_from : WebSshProbeOptions → Probe → List ProbeEvent → Probe
unfolding on_probe_event
probe_from options s [] = s
probe_from options s (event ∷ events) = probe_from options (on_probe_event options event s) events

abbrev pub probe_web_ssh_host_key : WebSshProbeOptions → List ProbeEvent → Probe
probe_web_ssh_host_key options events = probe_from options initial events
