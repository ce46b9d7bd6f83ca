-- ===== src/Session/Teardown/Tests.antt =====
-- A workspace with a tab, a tunnel and transfers (apps/client/src/lib/session-teardown.ts).
use trominal.Shared.{true, [], ◌∷◌, ◌+◌, List, length, none, some, Text, codes, ◌≡◌, refl}
use trominal.Shared
use trominal.Json.{Value}
use trominal.Transport.Types.{connected}
use trominal.Session.VaultStore
use trominal.Session.VaultStore.{start}
use trominal.Session.VaultStore.Locking.{Forgets}
use trominal.Session.Terminal
use trominal.Session.Terminal.{
  TerminalTab, Terminal, local, Reachable, adds, removes, add_tab, remove_tab,
}
use trominal.Session.Terminal.Focus.{IsFocusedOn, Reachable-IsFocusedOn}
use trominal.Session.Transfers.{Transfer, upload, active, done, summarize_transfers}
use trominal.Session.Transfers.{clear}
use trominal.Session.Transfers.Counting.{summarize_transfers-counts}
use trominal.Session.Teardown.{Workspace, teardown_session}
use trominal.Session.Teardown.Closing.{Ends, teardown_session-Ends}

abbrev stringify : Value → Text
stringify value = codes "null"

abbrev tab : Text → TerminalTab
tab id = record { id = id; status = connected; session = some 3; kind = local (codes "zsh") }

abbrev two_tabs : Terminal
two_tabs = add_tab (tab (codes "b")) (add_tab (tab (codes "a")) Terminal.initial)

two_tabs-Reachable : Reachable two_tabs
two_tabs-Reachable = adds (tab (codes "b")) (adds (tab (codes "a")) Terminal.start)

Reachable-IsFocusedOn_run :
    IsFocusedOn (remove_tab (codes "b") two_tabs).tabs (remove_tab (codes "b") two_tabs).active_id
Reachable-IsFocusedOn_run = Reachable-IsFocusedOn (removes (codes "b") two_tabs-Reachable)

removed_run : (remove_tab (codes "b") two_tabs).active_id ≡ some (codes "a")
unfolding Shared.text_eq
removed_run = refl

abbrev transfer : Transfer
transfer = record {
  input = record {
    id = codes "t";
    direction = upload;
    name = codes "f";
    from_path = codes "/f";
    to_path = codes "/g";
    host_label = codes "db";
  };
  status = active;
  error_message = none;
  started_at = some 1;
  finished_at = none;
}

abbrev workspace : Workspace
workspace = record {
  vault = VaultStore.initial;
  terminal = two_tabs;
  transfers = transfer ∷ record transfer { status = done } ∷ [];
  tunnels = codes "n" ∷ [];
}

requests_run : (teardown_session true workspace).1 ≡ record {
  closed_sessions = 3 ∷ 3 ∷ [];
  closed_tunnels = codes "n" ∷ [];
  cancelled_transfers = codes "t" ∷ [];
}
unfolding teardown_session
requests_run = refl

teardown_session-Ends_example :
    Forgets [] [] (teardown_session true workspace).0.vault
    × Ends true workspace (teardown_session true workspace).0 (teardown_session true workspace).1
teardown_session-Ends_example = teardown_session-Ends stringify true workspace start

abbrev queue : List Transfer
queue = workspace.transfers

summarize_transfers-counts_run :
    ((summarize_transfers queue).active_count
        + (summarize_transfers queue).pending_count
        + (summarize_transfers queue).done_count
        + (summarize_transfers queue).failed_count
      ≡ length queue)
    × ((summarize_transfers queue).active_count + (summarize_transfers queue).pending_count
        ≡ length (clear queue))
summarize_transfers-counts_run = summarize_transfers-counts queue
