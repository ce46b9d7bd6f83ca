-- ===== src/Session/VaultStore/Locking.antt =====
-- What is left in memory after a lock, an idle timeout and the end of a session
-- (apps/client/src/stores/vault.ts and lib/session-teardown.ts).
use trominal.Shared.{
  ℕ, true, false, Bool-cases, if-cases, ◌&&◌, List, [], Option, none, some, Text, ◌≡◌, inl, inr,
  refl, sym, subst, arith, All, All-map, In,
}
use mathlib.Core.Bool.{not}
use trominal.Json.{Value}
use trominal.Session.TeamScope
use trominal.Session.TeamScope.{
  TeamScope, is_null, has_no_key, without_key, set_personal_scope, clear_selected_team_key, clear,
  personal, hands,
}
use trominal.Session.TeamScope.Ownership
use trominal.Session.TeamScope.Ownership.{Reachable-IsAccountedFor}
use trominal.Session.VaultStore.{
  VaultStore, UserVaultMaterial, version_or, wipe_previous, lock, reset_idle, set_auto_lock_ms,
  commit_unlock, adopt_key, replace_key, key_material_changed, set_material, fire, teardown, Step,
  locks, idles, sets_auto_lock, sets_material, fires, tears_down, caches, scopes, Reachable, start,
  unlocks, adopts, replaces, selects_team_key, after,
}
use trominal.Session.VaultStore.Invariant.{
  IsConsistent-Tracks, fire-no_timer, clear_timer-Tracks, Reachable-IsConsistent,
}
use trominal.Session.VaultStore.Ownership.{
  IsAccountedFor, vault_keys-IsAccountedFor, reset_idle-key, lock-wipes,
}

module _ (stringify : Value → Text) where
  reset_idle-team :
      (team_keys : List ℕ) (s : VaultStore)
      → TeamScope.Reachable team_keys s.team
      → TeamScope.Reachable team_keys (reset_idle s).team
  reset_idle-team team_keys s r = subst (TeamScope.Reachable team_keys) (sym (reset_idle-key s).1) r

  Step-team :
      (team_keys : List ℕ) {s t : VaultStore}
      → Step stringify s t
      → TeamScope.Reachable team_keys s.team
      → TeamScope.Reachable team_keys t.team
  unfolding lock set_auto_lock_ms set_material fire teardown
  Step-team team_keys (locks {s}) r = TeamScope.after r clear
  Step-team team_keys (idles {s}) r = reset_idle-team team_keys s r
  Step-team team_keys (sets_auto_lock ms {s}) r =
      let set : VaultStore = record s { auto_lock_ms = ms } in
      if-cases (λ (t : VaultStore). TeamScope.Reachable team_keys t.team) (not s.is_locked)
        (reset_idle set) set (λ e. reset_idle-team team_keys set r) (λ e. r)
  Step-team team_keys (sets_material material version {s}) r =
      let set : VaultStore = record s {
        material = some material;
        vault_version = version_or version material s.vault_version;
      } in
      if-cases (λ (t : VaultStore). TeamScope.Reachable team_keys t.team)
        (not s.is_locked && key_material_changed stringify s.material material) (lock set) set
        (λ e. TeamScope.after r clear) (λ e. r)
  Step-team team_keys (fires id {s} i) r = TeamScope.after r clear
  Step-team team_keys (tears_down {s}) r = TeamScope.after (TeamScope.after r clear) personal
  Step-team team_keys (caches item u) r = r
  Step-team team_keys (scopes step) r = TeamScope.after r step

  -- The team store is only changed by its own calls.
  Reachable-team :
      {keys team_keys : List ℕ} {s : VaultStore}
      → Reachable stringify keys team_keys s
      → TeamScope.Reachable team_keys s.team
  unfolding commit_unlock adopt_key replace_key
  Reachable-team start = TeamScope.start
  Reachable-team (unlocks key {keys} {team_keys} {s} r) =
      reset_idle-team team_keys
        (record s { key = some key; is_locked = false; wiped = wipe_previous s.key key s.wiped })
        (Reachable-team r)
  Reachable-team (adopts key {keys} {team_keys} {s} free r) =
      reset_idle-team team_keys (record s { key = some key; is_locked = false }) (Reachable-team r)
  Reachable-team (replaces key material version {keys} {team_keys} {s} r) =
      reset_idle-team team_keys
        (record s {
          key = some key;
          is_locked = false;
          material = some material;
          vault_version = version_or version material s.vault_version;
          wiped = wipe_previous s.key key s.wiped;
        })
        (Reachable-team r)
  Reachable-team (selects_team_key team_id version key r) =
      hands team_id version key (Reachable-team r)
  Reachable-team (after {keys} {team_keys} r step) = Step-team team_keys step (Reachable-team r)

is_null-true : {A : Type 0} (o : Option A) → is_null o ≡ true → o ≡ none
is_null-true none h = refl
is_null-true (some a) h = absurd (cc h)

clear_selected_team_key-none :
    (s : TeamScope) → (clear_selected_team_key s).selected_team_key ≡ none
unfolding clear_selected_team_key
clear_selected_team_key-none s = elim (Bool-cases (is_null s.selected_team_key)) [
  | inl e ↦
      if-cases (λ (t : TeamScope). t.selected_team_key ≡ none)
        (has_no_key s && is_null s.selected_team_key_error) s
        (without_key s.selected_team_id none s) (λ h. is_null-true s.selected_team_key e)
        (λ h. refl)
  | inr e ↦ rw e refl
]

set_personal_scope-none :
    (s : TeamScope) → s.selected_team_key ≡ none → (set_personal_scope s).selected_team_key ≡ none
unfolding set_personal_scope
set_personal_scope-none s e =
    if-cases (λ (t : TeamScope). t.selected_team_key ≡ none)
      (is_null s.selected_team_id && has_no_key s && is_null s.selected_team_key_error) s
      (without_key none none s) (λ h. e) (λ h. refl)

set_personal_scope-personal : (s : TeamScope) → (set_personal_scope s).selected_team_id ≡ none
unfolding set_personal_scope
set_personal_scope-personal s = elim (Bool-cases (is_null s.selected_team_id)) [
  | inl e ↦
      if-cases (λ (t : TeamScope). t.selected_team_id ≡ none)
        (is_null s.selected_team_id && has_no_key s && is_null s.selected_team_key_error) s
        (without_key none none s) (λ h. is_null-true s.selected_team_id e) (λ h. refl)
  | inr e ↦ rw e refl
]

-- No secret is left: the vault is locked without key, timer or decrypted data, and the buffers of
-- all vault keys and all team keys that were ever handed over are zeroed.
pub record Forgets (keys team_keys : List ℕ) (s : VaultStore) : Type 0 where
  pub is_locked : s.is_locked ≡ true
  pub no_key : s.key ≡ none
  pub no_timer : s.timers ≡ []
  pub no_plaintext : s.decrypted ≡ []
  pub no_team_key : s.team.selected_team_key ≡ none
  pub keys_wiped : All (λ k. In k s.wiped) keys
  pub team_keys_wiped : All (λ k. In k s.team.wiped) team_keys

team_wiped :
    (team : TeamScope) (keys : List ℕ)
    → TeamScope.Reachable keys team
    → team.selected_team_key ≡ none
    → All (λ k. In k team.wiped) keys
team_wiped team keys r e =
    All-map (Ownership.IsAccountedFor team) (λ k. In k team.wiped) keys zeroed
      (Reachable-IsAccountedFor r)
  where
    zeroed : (k : ℕ) → Ownership.IsAccountedFor team k → In k team.wiped
    zeroed k (inl held) = absurd (cc (e, held))
    zeroed k (inr i) = i

module _ (stringify : Value → Text) {keys team_keys : List ℕ} (s : VaultStore)
    (r : Reachable stringify keys team_keys s) where
  pub lock-Forgets : Forgets keys team_keys (lock s)
  unfolding lock
  lock-Forgets = record {
    is_locked = refl;
    no_key = refl;
    no_timer =
        clear_timer-Tracks s.lock_timer_id s.timers
          (IsConsistent-Tracks s (Reachable-IsConsistent stringify r));
    no_plaintext = refl;
    no_team_key = clear_selected_team_key-none s.team;
    keys_wiped =
        All-map (IsAccountedFor s) (λ k. In k (lock s).wiped) keys (lock-wipes s)
          (vault_keys-IsAccountedFor stringify r);
    team_keys_wiped =
        team_wiped (clear_selected_team_key s.team) team_keys
          (Step-team stringify team_keys (locks {s = s}) (Reachable-team stringify r))
          (clear_selected_team_key-none s.team);
  }

  -- So does the idle timer, when it fires.
  pub fire-Forgets : (id : ℕ) → In id s.timers → Forgets keys team_keys (fire id s)
  unfolding fire lock
  fire-Forgets id armed = record {
    is_locked = refl;
    no_key = refl;
    no_timer = fire-no_timer id s (Reachable-IsConsistent stringify r) armed;
    no_plaintext = refl;
    no_team_key = clear_selected_team_key-none s.team;
    keys_wiped = lock-Forgets.keys_wiped;
    team_keys_wiped = lock-Forgets.team_keys_wiped;
  }

  -- The end of a session, whether by logout, by a rejected refresh token or by a switch of servers,
  -- leaves no secret behind and drops the vault material and the team scope of the account.
  pub teardown-Forgets :
      Forgets keys team_keys (teardown s)
      × ((teardown s).material ≡ none)
      × ((teardown s).vault_version ≡ 0)
      × ((teardown s).team.selected_team_id ≡ none)
  unfolding teardown lock
  teardown-Forgets = (
    record {
      is_locked = refl;
      no_key = refl;
      no_timer = lock-Forgets.no_timer;
      no_plaintext = refl;
      no_team_key =
          set_personal_scope-none (clear_selected_team_key s.team)
            (clear_selected_team_key-none s.team);
      keys_wiped = lock-Forgets.keys_wiped;
      team_keys_wiped =
          team_wiped (set_personal_scope (clear_selected_team_key s.team)) team_keys
            (TeamScope.after (TeamScope.after (Reachable-team stringify r) clear) personal)
            (set_personal_scope-none (clear_selected_team_key s.team)
              (clear_selected_team_key-none s.team));
    },
    refl,
    refl,
    set_personal_scope-personal (clear_selected_team_key s.team),
  )

  -- For an unlocked vault, new material whose salt or parameters differ from the stored ones leaves
  -- no secret behind, and any other material leaves the key as it is.
  pub set_material-Forgets :
      (material : UserVaultMaterial) (version : Option ℕ)
      → s.is_locked ≡ false
      → (key_material_changed stringify s.material material ≡ true
          → Forgets keys team_keys (set_material stringify material version s))
        × (key_material_changed stringify s.material material ≡ false
            → (set_material stringify material version s).key ≡ s.key)
  unfolding set_material lock
  set_material-Forgets material version unlocked = (
    λ changed.
        if-cases (Forgets keys team_keys)
          (not s.is_locked && key_material_changed stringify s.material material) (lock set) set
          (λ e. forgotten) (λ e. absurd (ground (arith, e))),
    λ same.
        if-cases (λ (t : VaultStore). t.key ≡ s.key)
          (not s.is_locked && key_material_changed stringify s.material material) (lock set) set
          (λ e. absurd (ground (arith, e))) (λ e. refl),
  )
    where
      set : VaultStore
      set = record s {
        material = some material;
        vault_version = version_or version material s.vault_version;
      }

      forgotten : Forgets keys team_keys (lock set)
      forgotten = record {
        is_locked = refl;
        no_key = refl;
        no_timer = lock-Forgets.no_timer;
        no_plaintext = refl;
        no_team_key = lock-Forgets.no_team_key;
        keys_wiped = lock-Forgets.keys_wiped;
        team_keys_wiped = lock-Forgets.team_keys_wiped;
      }
