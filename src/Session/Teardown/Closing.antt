-- ===== src/Session/Teardown/Closing.antt =====
-- The end of a session empties every store and closes what runs (apps/client/src/lib/session-teardown.ts).
use trominal.Shared.{
  ℕ, Bool, true, List, [], ◌∷◌, filter, Option, none, some, Text, In, inl, inr, ◌≡◌, refl, ap,
  In-append_left, In-append_right, In-filter, In-map, ◌∙◌,
}
use trominal.Json.{Value}
use trominal.Session.VaultStore
use trominal.Session.VaultStore.Locking.{Forgets, teardown-Forgets}
use trominal.Session.Terminal.{TerminalTab, live_session, sessions_of}
use trominal.Session.Transfers.{Transfer, is_unfinished}
use trominal.Session.Teardown.{Workspace, Requests, teardown_session}

In-live_session : (session : Option ℕ) (k : ℕ) → session ≡ some k → In k (live_session session)
In-live_session none k e = absurd (cc e)
In-live_session (some l) k e = inl (cc e)

In-sessions_of :
    (tabs : List TerminalTab) (tab : TerminalTab) (k : ℕ)
    → In tab tabs
    → tab.session ≡ some k
    → In k (sessions_of tabs)
In-sessions_of [] tab k i e = absurd i
In-sessions_of (first ∷ tabs) tab k (inl same) e =
    In-append_left k (live_session first.session) (sessions_of tabs)
      (In-live_session first.session k (ap (λ (t : TerminalTab). t.session) same ∙ e))
In-sessions_of (first ∷ tabs) tab k (inr i) e =
    In-append_right k (live_session first.session) (sessions_of tabs)
      (In-sessions_of tabs tab k i e)

-- Nothing of the account is left in the stores, and what ran is asked to end.
pub record Ends (is_tauri : Bool) (w after : Workspace) (asked : Requests) : Type 0 where
  pub no_material : after.vault.material ≡ none
  pub no_team : after.vault.team.selected_team_id ≡ none
  pub no_tab : after.terminal.tabs ≡ []
  pub no_active : after.terminal.active_id ≡ none
  pub no_transfer : after.transfers ≡ []
  pub no_tunnel : after.tunnels ≡ []
  pub sessions_closed :
      (tab : TerminalTab) (session : ℕ)
      → In tab w.terminal.tabs
      → tab.session ≡ some session
      → In session asked.closed_sessions
  pub tunnels_closed : (id : Text) → In id w.tunnels → is_tauri ≡ true → In id asked.closed_tunnels
  pub transfers_cancelled :
      (item : Transfer)
      → In item w.transfers
      → is_unfinished item ≡ true
      → is_tauri ≡ true
      → In item.input.id asked.cancelled_transfers

module _ (stringify : Value → Text) {keys team_keys : List ℕ} where
  -- The end of a session, in any state that the vault reaches, leaves no secret, no vault material
  -- and no team scope in memory, no tab, no
  -- transfer and no tunnel in the stores; the session of each tab is closed, and on the desktop each
  -- tunnel that ran is closed and each transfer that was not finished is cancelled.
  pub teardown_session-Ends :
      (is_tauri : Bool) (w : Workspace)
      → VaultStore.Reachable stringify keys team_keys w.vault
      → Forgets keys team_keys (teardown_session is_tauri w).0.vault
        × Ends is_tauri w (teardown_session is_tauri w).0 (teardown_session is_tauri w).1
  unfolding teardown_session
  teardown_session-Ends is_tauri w r = (
    (teardown-Forgets stringify w.vault r).0,
    record {
      no_material = (teardown-Forgets stringify w.vault r).1;
      no_team = (teardown-Forgets stringify w.vault r).3;
      no_tab = refl;
      no_active = refl;
      no_transfer = refl;
      no_tunnel = refl;
      sessions_closed = In-sessions_of w.terminal.tabs;
      tunnels_closed = λ id i desktop. rw desktop i;
      transfers_cancelled = λ item i unfinished desktop. rw desktop (
          In-map (λ (t : Transfer). t.input.id) item (filter is_unfinished w.transfers)
            (In-filter item is_unfinished w.transfers i unfinished));
    },
  )
