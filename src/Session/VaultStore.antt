-- ===== src/Session/VaultStore.antt =====
-- apps/client/src/stores/vault.ts. A key is the number of its buffer and a timer the number that
-- `setTimeout` returned; `timers` are the armed ones, `wiped` the buffers that were zeroed, and
-- `decrypted` the query results and mutation inputs that lib/query-client.ts caches.
pub mod Invariant
pub mod Ownership
pub mod Locking
mod Tests
use trominal.Shared.{
  ℕ, suc, ◌*◌, Bool, true, false, ◌&&◌, ◌||◌, List, [], ◌∷◌, Option, none, some, Text, text_eq,
  filter, get_or_else, if◌then◌else◌, ◌==◌, leb, ◌≡◌, In,
}
use mathlib.Core.Bool.{not}
use trominal.Json.{Value}
use trominal.Session.TeamScope.{
  TeamScope, set_selected_team_key, clear_selected_team_key, set_personal_scope, wipe_if_present,
}
use trominal.Session.TeamScope

pub record UserVaultMaterial : Type 0 where
  pub kdf_salt : Text
  pub kdf_params : Value
  pub private_key_ciphertext : Text
  pub private_key_nonce : Text
  pub vault_version : Option ℕ

pub record VaultStore : Type 0 where
  pub key : Option ℕ
  pub is_locked : Bool
  pub material : Option UserVaultMaterial
  pub vault_version : ℕ
  pub auto_lock_ms : ℕ
  pub lock_timer_id : Option ℕ
  pub wiped : List ℕ
  pub timers : List ℕ
  pub next_timer : ℕ
  pub decrypted : List ℕ
  pub team : TeamScope

abbrev pub initial : VaultStore
initial = record {
  key = none;
  is_locked = true;
  material = none;
  vault_version = 0;
  auto_lock_ms = 15 * 60 * 1000;
  lock_timer_id = none;
  wiped = [];
  timers = [];
  next_timer = 0;
  decrypted = [];
  team = TeamScope.initial;
}

-- `clearTimeout` of an id that is not armed does nothing.
abbrev pub clear_timer : Option ℕ → List ℕ → List ℕ
clear_timer none timers = timers
clear_timer (some id) timers = filter (λ t. not (t == id)) timers

unfoldable pub lock : VaultStore → VaultStore
lock s = record s {
  key = none;
  is_locked = true;
  lock_timer_id = none;
  wiped = wipe_if_present s.key s.wiped;
  timers = clear_timer s.lock_timer_id s.timers;
  decrypted = [];
  team = clear_selected_team_key s.team;
}

unfoldable pub reset_idle : VaultStore → VaultStore
reset_idle s =
    let cleared = clear_timer s.lock_timer_id s.timers in
    if s.is_locked || leb s.auto_lock_ms 0
    then record s { lock_timer_id = none; timers = cleared }
    else record s {
      lock_timer_id = some s.next_timer;
      timers = s.next_timer ∷ cleared;
      next_timer = suc s.next_timer;
    }

unfoldable pub set_auto_lock_ms : ℕ → VaultStore → VaultStore
unfolding reset_idle
set_auto_lock_ms ms s =
    let set = record s { auto_lock_ms = ms } in if not set.is_locked then reset_idle set else set

-- `if (previous !== null && previous !== key) wipe(previous)`
abbrev pub wipe_previous : Option ℕ → ℕ → List ℕ → List ℕ
wipe_previous none key wiped = wiped
wipe_previous (some previous) key wiped = if not (previous == key) then previous ∷ wiped else wiped

-- What `unlock` does to the store once the key is derived and verified.
unfoldable pub commit_unlock : ℕ → VaultStore → VaultStore
unfolding reset_idle
commit_unlock key s =
    reset_idle
      (record s { key = some key; is_locked = false; wiped = wipe_previous s.key key s.wiped })

unfoldable pub adopt_key : ℕ → VaultStore → VaultStore
unfolding reset_idle
adopt_key key s = reset_idle (record s { key = some key; is_locked = false })

-- `vaultVersion ?? material.vault_version ?? get().vaultVersion`
abbrev pub version_or : Option ℕ → UserVaultMaterial → ℕ → ℕ
version_or vault_version material current =
    get_or_else vault_version (get_or_else material.vault_version current)

unfoldable pub replace_key : ℕ → UserVaultMaterial → Option ℕ → VaultStore → VaultStore
unfolding reset_idle
replace_key key material vault_version s = reset_idle (record s {
  key = some key;
  is_locked = false;
  material = some material;
  vault_version = version_or vault_version material s.vault_version;
  wiped = wipe_previous s.key key s.wiped;
})

module _ (stringify : Value → Text) where
  abbrev pub key_material_changed : Option UserVaultMaterial → UserVaultMaterial → Bool
  key_material_changed none next = false
  key_material_changed (some previous) next =
      not (text_eq previous.kdf_salt next.kdf_salt)
      || not (text_eq (stringify previous.kdf_params) (stringify next.kdf_params))

  unfoldable pub set_material : UserVaultMaterial → Option ℕ → VaultStore → VaultStore
  unfolding lock
  set_material material vault_version s =
      let set = record s {
        material = some material;
        vault_version = version_or vault_version material s.vault_version;
      } in
      if not s.is_locked && key_material_changed s.material material then lock set else set

-- The idle timer: its id is no longer armed, and its callback locks.
unfoldable pub fire : ℕ → VaultStore → VaultStore
unfolding lock
fire id s = lock (record s { timers = filter (λ t. not (t == id)) s.timers })

-- The part of `teardownSession` that concerns keys and cached data.
unfoldable pub teardown : VaultStore → VaultStore
unfolding lock
teardown s =
    let locked = lock s in
    record locked {
      material = none;
      vault_version = 0;
      team = set_personal_scope locked.team;
      decrypted = [];
    }

module _ (stringify : Value → Text) where
  -- What happens to the store. A key is adopted when there is none, at the end of a registration;
  -- a query result is cached only while the vault is unlocked, since locking cancels the fetches.
  pub data Step : VaultStore → VaultStore → Type 0 where
    locks : {s : VaultStore} → Step s (lock s)
    idles : {s : VaultStore} → Step s (reset_idle s)
    sets_auto_lock : (ms : ℕ) {s : VaultStore} → Step s (set_auto_lock_ms ms s)
    sets_material :
        (material : UserVaultMaterial) (version : Option ℕ) {s : VaultStore}
        → Step s (set_material stringify material version s)
    fires : (id : ℕ) {s : VaultStore} → In id s.timers → Step s (fire id s)
    tears_down : {s : VaultStore} → Step s (teardown s)
    caches :
        (item : ℕ) {s : VaultStore}
        → s.is_locked ≡ false
        → Step s (record s { decrypted = item ∷ s.decrypted })
    scopes :
        {s : VaultStore} {team : TeamScope}
        → TeamScope.Step s.team team
        → Step s (record s { team = team })

  -- The states that are reached, with the vault keys and the team keys that were handed over.
  pub data Reachable : List ℕ → List ℕ → VaultStore → Type 0 where
    start : Reachable [] [] initial
    unlocks :
        (key : ℕ) {keys team_keys : List ℕ} {s : VaultStore}
        → Reachable keys team_keys s
        → Reachable (key ∷ keys) team_keys (commit_unlock key s)
    adopts :
        (key : ℕ) {keys team_keys : List ℕ} {s : VaultStore}
        → s.key ≡ none
        → Reachable keys team_keys s
        → Reachable (key ∷ keys) team_keys (adopt_key key s)
    replaces :
        (key : ℕ) (material : UserVaultMaterial) (version : Option ℕ) {keys team_keys : List ℕ}
        {s : VaultStore}
        → Reachable keys team_keys s
        → Reachable (key ∷ keys) team_keys (replace_key key material version s)
    selects_team_key :
        (team_id : Text) (version key : ℕ) {keys team_keys : List ℕ} {s : VaultStore}
        → Reachable keys team_keys s
        → Reachable keys
            (key ∷ team_keys)
            (record s { team = set_selected_team_key team_id version key s.team })
    after :
        {keys team_keys : List ℕ} {s t : VaultStore}
        → Reachable keys team_keys s
        → Step s t
        → Reachable keys team_keys t
