-- ===== src/Session/Terminal.antt =====
-- apps/client/src/stores/terminal.ts: the tabs of the terminal. A session is a number.
pub mod Focus
use trominal.Shared.{
  ℕ, not, List, [], ◌∷◌, ◌++◌, map, filter, Option, none, some, Text, text_eq, get_or_else,
  if◌then◌else◌, In,
}
use trominal.Transport.Types.{SshSessionState}

pub data TabKind : Type 0 where
  host : Text → TabKind
  local : Text → TabKind

pub record TerminalTab : Type 0 where
  pub id : Text
  pub status : SshSessionState
  pub session : Option ℕ
  pub kind : TabKind

-- `undefined` as `none`; the session may be set to `null`.
pub record Patch : Type 0 where
  pub status : Option SshSessionState
  pub session : Option (Option ℕ)

pub record Terminal : Type 0 where
  pub tabs : List TerminalTab
  pub active_id : Option Text

abbrev pub initial : Terminal
initial = record { tabs = []; active_id = none }

abbrev pub set_active : Option Text → Terminal → Terminal
set_active id s = record s { active_id = id }

abbrev pub add_tab : TerminalTab → Terminal → Terminal
add_tab tab s = record { tabs = s.tabs ++ (tab ∷ []); active_id = some tab.id }

abbrev pub patched : Text → Patch → TerminalTab → TerminalTab
patched id patch tab =
    if text_eq tab.id id
    then record tab {
      status = get_or_else patch.status tab.status;
      session = get_or_else patch.session tab.session;
    }
    else tab

abbrev pub patch_tab : Text → Patch → Terminal → Terminal
patch_tab id patch s = record s { tabs = map (patched id patch) s.tabs }

-- `tabs[0]?.id ?? null`
abbrev pub first_id : List TerminalTab → Option Text
first_id [] = none
first_id (tab ∷ tabs) = some tab.id

abbrev pub active_after : Text → List TerminalTab → Option Text → Option Text
active_after id tabs none = none
active_after id tabs (some active) = if text_eq active id then first_id tabs else some active

abbrev pub without : Text → List TerminalTab → List TerminalTab
without id tabs = filter (λ tab. not (text_eq tab.id id)) tabs

abbrev pub remove_tab : Text → Terminal → Terminal
remove_tab id s = record {
  tabs = without id s.tabs;
  active_id = active_after id (without id s.tabs) s.active_id;
}

abbrev pub live_session : Option ℕ → List ℕ
live_session none = []
live_session (some session) = session ∷ []

abbrev pub sessions_of : List TerminalTab → List ℕ
sessions_of [] = []
sessions_of (tab ∷ tabs) = live_session tab.session ++ sessions_of tabs

-- The sessions that `resetAll` closes; the store becomes `initial`.
abbrev pub reset_all : Terminal → Terminal × List ℕ
reset_all s = (initial, sessions_of s.tabs)

-- The tab bar activates a tab that it shows.
pub data Reachable : Terminal → Type 0 where
  start : Reachable initial
  activates :
      (id : Text) {s : Terminal}
      → Reachable s
      → In id (map (λ (tab : TerminalTab). tab.id) s.tabs)
      → Reachable (set_active (some id) s)
  deactivates : {s : Terminal} → Reachable s → Reachable (set_active none s)
  adds : (tab : TerminalTab) {s : Terminal} → Reachable s → Reachable (add_tab tab s)
  patches :
      (id : Text) (patch : Patch) {s : Terminal} → Reachable s → Reachable (patch_tab id patch s)
  removes : (id : Text) {s : Terminal} → Reachable s → Reachable (remove_tab id s)
