-- ===== src/Session/Tunnels.antt =====
-- apps/client/src/features/tunnels/runtime.ts: the tunnels that run. The set keeps the order of insertion.
use trominal.Shared.{Bool, not, any, List, [], ◌∷◌, ◌++◌, filter, Text, text_eq, if◌then◌else◌}

abbrev pub track_tunnel_session : Text → List Text → List Text
track_tunnel_session [] running = running
track_tunnel_session (c ∷ id) running =
    if any (λ tracked. text_eq tracked (c ∷ id)) running
    then running
    else running ++ ((c ∷ id) ∷ [])

abbrev pub untrack_tunnel_session : Text → List Text → List Text
untrack_tunnel_session id running = filter (λ tracked. not (text_eq tracked id)) running

-- What stays tracked, and the tunnels that the desktop is asked to close.
abbrev pub close_all_tunnel_sessions : Bool → List Text → List Text × List Text
close_all_tunnel_sessions is_tauri running = ([], if is_tauri then running else [])
