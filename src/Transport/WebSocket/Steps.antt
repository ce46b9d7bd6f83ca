-- ===== src/Transport/WebSocket/Steps.antt =====
-- Every step of a session keeps the invariant (packages/ssh-transport/src/websocket-transport.ts).
use trominal.Shared.{
  and_true, if◌then◌else◌, true, false, if-cases, ◌∷◌, Option, Text, Bytes, codes, ◌≡◌, ◌&&◌,
}
use trominal.Json.{Fields}
use trominal.Transport.WebSocket.{
  is_connected, is_type, frame_text, settle, wipe_private_key, on_open, on_error, on_text,
  on_binary, on_close, write, resize, close, Session, Frame, data_frame, resize_frame, resolved,
  rejected, reported, connect_failed, Step, opens, errs, gets_text, gets_binary, ends, writes,
  resizes, quits,
}
use trominal.Transport.WebSocket.Invariant.{
  IsBound, IsConnect, IsSafe, wipe-IsSafe, open-IsSafe, settled, readied, ended, received, sends,
}

opened-IsSafe :
    (pinned : Option Text) (s : Session)
    → s.has_socket ≡ true
    → IsSafe pinned s
    → IsSafe pinned (on_open s)
unfolding on_open
opened-IsSafe pinned s h o =
    open-IsSafe pinned s.options.websocket_token s.options.host_id s.options.host_key_fingerprint s
      o.same (o.socket h) o

binary-IsSafe :
    (pinned : Option Text) (s : Session) (bytes : Bytes)
    → IsSafe pinned s
    → IsSafe pinned (on_binary bytes s)
unfolding on_binary
binary-IsSafe pinned s bytes o =
    if-cases (IsSafe pinned) s.ready _ _ (λ r. received pinned s o r (bytes ∷ s.received) s.closes)
      (λ r. o)

text-IsSafe :
    (pinned : Option Text) (s : Session) (frame : Option Fields) (bytes : Bytes)
    → IsSafe pinned s
    → IsSafe pinned (on_text frame bytes s)
unfolding on_text on_binary
text-IsSafe pinned s frame bytes o =
    if-cases (IsSafe pinned) (is_type frame (codes "ready")) _ _
      (λ e. readied pinned s o (settle s.outcome resolved))
      (λ e.
        if-cases (IsSafe pinned) (is_type frame (codes "error")) _ _
          (λ e.
            if-cases (IsSafe pinned) s.ready _ _
              (λ r.
                received pinned s o r s.received
                  (frame_text frame (codes "message") (codes "SSH error") ∷ s.closes))
              (λ r. settled pinned s o (
                settle s.outcome (
                  rejected (reported (frame_text frame (codes "code") (codes "session_failed")))))))
          (λ e. binary-IsSafe pinned s bytes o))

error-IsSafe : (pinned : Option Text) (s : Session) → IsSafe pinned s → IsSafe pinned (on_error s)
unfolding on_error
error-IsSafe pinned s o =
    if-cases (IsSafe pinned) s.ready _ _ (λ r. o)
      (λ r. settled pinned s o (settle s.outcome (rejected connect_failed)))

close-IsSafe :
    (pinned : Option Text) (s : Session) (reason : Text)
    → IsSafe pinned s
    → IsSafe pinned (on_close reason s)
unfolding on_close wipe_private_key
close-IsSafe pinned s reason o =
    let w = wipe-IsSafe pinned _ (ended pinned s o s.has_socket (λ h. h)) in
    if-cases (IsSafe pinned) s.ready _ _ (λ r. received pinned _ w r s.received (reason ∷ s.closes))
      (λ r. settled pinned _ w (settle s.outcome (rejected connect_failed)))

sends-IsSafe :
    (pinned : Option Text) (s : Session) (frame : Frame)
    → IsBound pinned frame
    → (IsConnect frame → ⊥)
    → IsSafe pinned s
    → IsSafe pinned
        (if is_connected s.state && s.has_socket then record s { sent = frame ∷ s.sent } else s)
sends-IsSafe pinned s frame b n o =
    if-cases (IsSafe pinned) (is_connected s.state && s.has_socket) _ _
      (λ e. sends pinned s o (o.live ((and_true e).0)) frame b n) (λ e. o)

pub Step-IsSafe :
    (pinned : Option Text) {s t : Session} → Step s t → IsSafe pinned s → IsSafe pinned t
unfolding write resize close wipe_private_key
Step-IsSafe pinned (opens {s} h) o = opened-IsSafe pinned s h o
Step-IsSafe pinned (errs {s} h) o = error-IsSafe pinned s o
Step-IsSafe pinned (gets_text frame bytes {s} h) o = text-IsSafe pinned s frame bytes o
Step-IsSafe pinned (gets_binary bytes {s} h) o = binary-IsSafe pinned s bytes o
Step-IsSafe pinned (ends reason {s} h) o = close-IsSafe pinned s reason o
Step-IsSafe pinned (writes bytes {s}) o = sends-IsSafe pinned s (data_frame bytes) tt (λ h. h) o
Step-IsSafe pinned (resizes cols rows {s}) o =
    sends-IsSafe pinned s (resize_frame cols rows) tt (λ h. h) o
Step-IsSafe pinned (quits {s}) o =
    ended pinned _ (wipe-IsSafe pinned s o) false (λ h. absurd (cc h))
