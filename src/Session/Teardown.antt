-- ===== src/Session/Teardown.antt =====
-- apps/client/src/lib/session-teardown.ts over the stores that it empties. What it asks of the sessions
-- and of the desktop is returned; the outcome of these requests changes nothing.
pub mod Closing
mod Tests
use trominal.Shared.{ℕ, Bool, List, [], map, filter, Text, if◌then◌else◌}
use trominal.Session.VaultStore
use trominal.Session.VaultStore.{VaultStore}
use trominal.Session.Terminal.{Terminal, reset_all}
use trominal.Session.Transfers.{Transfer, is_unfinished}
use trominal.Session.Tunnels.{close_all_tunnel_sessions}

pub record Workspace : Type 0 where
  pub vault : VaultStore
  pub terminal : Terminal
  pub transfers : List Transfer
  pub tunnels : List Text

pub record Requests : Type 0 where
  pub closed_sessions : List ℕ
  pub closed_tunnels : List Text
  pub cancelled_transfers : List Text

abbrev pub cancelled_ids : Bool → List Transfer → List Text
cancelled_ids is_tauri items =
    if is_tauri then map (λ (item : Transfer). item.input.id) (filter is_unfinished items) else []

unfoldable pub teardown_session : Bool → Workspace → Workspace × Requests
unfolding VaultStore.teardown
teardown_session is_tauri w =
    let (terminal, sessions) = reset_all w.terminal in
    let (tunnels, closed) = close_all_tunnel_sessions is_tauri w.tunnels in
    (
      record {
        vault = VaultStore.teardown w.vault;
        terminal = terminal;
        transfers = [];
        tunnels = tunnels;
      },
      record {
        closed_sessions = sessions;
        closed_tunnels = closed;
        cancelled_transfers = cancelled_ids is_tauri w.transfers;
      },
    )
