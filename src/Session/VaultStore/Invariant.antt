-- ===== src/Session/VaultStore/Invariant.antt =====
-- What holds in every state of the vault store (apps/client/src/stores/vault.ts).
use trominal.Shared.{
  ℕ, if-cases, In, true, false, Bool-cases, ◌&&◌, List, [], ◌∷◌, Option, none, some, Text, ◌==◌,
  leb, ◌<◌, filter, ◌≡◌, inl, inr, refl, ap, arith,
}
use mathlib.Core.Bool.{not}
use trominal.Json.{Value}
use trominal.Session.TeamScope.{TeamScope}
use trominal.Session.VaultStore.{
  version_or, VaultStore, UserVaultMaterial, clear_timer, lock, reset_idle, set_auto_lock_ms,
  commit_unlock, adopt_key, replace_key, key_material_changed, set_material, fire, teardown, Step,
  locks, idles, sets_auto_lock, sets_material, fires, tears_down, caches, scopes, Reachable, start,
  unlocks, adopts, replaces, selects_team_key, after,
}

-- The armed timers are the one that the store knows, if it knows one.
abbrev pub Tracks : Option ℕ → List ℕ → Type 0
Tracks none timers = timers ≡ []
Tracks (some id) timers = timers ≡ id ∷ []

-- A locked vault has no key, no timer and no decrypted data; an unlocked one has a key, and exactly
-- one armed timer unless auto-lock is off.
pub data IsConsistent (s : VaultStore) : Type 0 where
  locked :
      s.is_locked ≡ true
      → s.key ≡ none
      → s.lock_timer_id ≡ none
      → s.timers ≡ []
      → s.decrypted ≡ []
      → IsConsistent s
  unguarded :
      (key : ℕ)
      → s.is_locked ≡ false
      → s.key ≡ some key
      → s.auto_lock_ms ≡ 0
      → s.lock_timer_id ≡ none
      → s.timers ≡ []
      → IsConsistent s
  guarded :
      (key id : ℕ)
      → s.is_locked ≡ false
      → s.key ≡ some key
      → 0 < s.auto_lock_ms
      → s.lock_timer_id ≡ some id
      → s.timers ≡ id ∷ []
      → IsConsistent s

pub IsConsistent-Tracks : (s : VaultStore) → IsConsistent s → Tracks s.lock_timer_id s.timers
IsConsistent-Tracks s (locked l k t ts d) = rw t ts
IsConsistent-Tracks s (unguarded key l k a t ts) = rw t ts
IsConsistent-Tracks s (guarded key id l k a t ts) = rw t ts

pub clear_timer-Tracks :
    (id : Option ℕ) (timers : List ℕ) → Tracks id timers → clear_timer id timers ≡ []
clear_timer-Tracks none timers h = h
clear_timer-Tracks (some id) timers h = rw h (ground arith)

lock-IsConsistent : (s : VaultStore) → Tracks s.lock_timer_id s.timers → IsConsistent (lock s)
unfolding lock
lock-IsConsistent s h = locked refl refl refl (clear_timer-Tracks s.lock_timer_id s.timers h) refl

-- An unlocked vault with a key is consistent after `resetIdle`, however its timers stood.
reset_idle-unlocked :
    (s : VaultStore) (key : ℕ)
    → s.is_locked ≡ false
    → s.key ≡ some key
    → Tracks s.lock_timer_id s.timers
    → IsConsistent (reset_idle s)
unfolding reset_idle
reset_idle-unlocked s key l k h = elim (Bool-cases (leb s.auto_lock_ms 0)) [
  | inl off ↦
      rw (l, off)
        (unguarded key refl k (ground arith) refl (clear_timer-Tracks s.lock_timer_id s.timers h))
  | inr on ↦
      rw (l, on)
        (guarded key s.next_timer refl k (ground arith) refl
          (ap (λ ts. s.next_timer ∷ ts) (clear_timer-Tracks s.lock_timer_id s.timers h)))
]

reset_idle-IsConsistent : (s : VaultStore) → IsConsistent s → IsConsistent (reset_idle s)
unfolding reset_idle
reset_idle-IsConsistent s (locked l k t ts d) = rw l (locked refl k refl (rw t ts) d)
reset_idle-IsConsistent s (unguarded key l k a t ts) = reset_idle-unlocked s key l k (rw t ts)
reset_idle-IsConsistent s (guarded key id l k a t ts) = reset_idle-unlocked s key l k (rw t ts)

set_auto_lock_ms-IsConsistent :
    (ms : ℕ) (s : VaultStore) → IsConsistent s → IsConsistent (set_auto_lock_ms ms s)
unfolding set_auto_lock_ms
set_auto_lock_ms-IsConsistent ms s consistent =
    if-cases IsConsistent (not s.is_locked) (reset_idle (record s { auto_lock_ms = ms }))
      (record s { auto_lock_ms = ms }) (unlocked consistent) (stays consistent)
  where
    unlocked :
        IsConsistent s
        → not s.is_locked ≡ true
        → IsConsistent (reset_idle (record s { auto_lock_ms = ms }))
    unlocked (locked l k t ts d) u = absurd (ground arith)
    unlocked (unguarded key l k a t ts) u =
        reset_idle-unlocked (record s { auto_lock_ms = ms }) key l k (rw t ts)
    unlocked (guarded key id l k a t ts) u =
        reset_idle-unlocked (record s { auto_lock_ms = ms }) key l k (rw t ts)

    stays : IsConsistent s → not s.is_locked ≡ false → IsConsistent (record s { auto_lock_ms = ms })
    stays (locked l k t ts d) u = locked l k t ts d
    stays (unguarded key l k a t ts) u = absurd (ground arith)
    stays (guarded key id l k a t ts) u = absurd (ground arith)

commit_unlock-IsConsistent :
    (key : ℕ) (s : VaultStore) → IsConsistent s → IsConsistent (commit_unlock key s)
unfolding commit_unlock
commit_unlock-IsConsistent key s consistent =
    reset_idle-unlocked _ key refl refl (IsConsistent-Tracks s consistent)

adopt_key-IsConsistent :
    (key : ℕ) (s : VaultStore) → IsConsistent s → IsConsistent (adopt_key key s)
unfolding adopt_key
adopt_key-IsConsistent key s consistent =
    reset_idle-unlocked _ key refl refl (IsConsistent-Tracks s consistent)

replace_key-IsConsistent :
    (key : ℕ) (material : UserVaultMaterial) (version : Option ℕ) (s : VaultStore)
    → IsConsistent s
    → IsConsistent (replace_key key material version s)
unfolding replace_key
replace_key-IsConsistent key material version s consistent =
    reset_idle-unlocked _ key refl refl (IsConsistent-Tracks s consistent)

set_material-IsConsistent :
    (stringify : Value → Text) (material : UserVaultMaterial) (version : Option ℕ) (s : VaultStore)
    → IsConsistent s
    → IsConsistent (set_material stringify material version s)
unfolding set_material
set_material-IsConsistent stringify material version s consistent =
    if-cases IsConsistent (not s.is_locked && key_material_changed stringify s.material material)
      (lock set) set (λ e. lock-IsConsistent set (IsConsistent-Tracks s consistent))
      (λ e. same consistent)
  where
    set : VaultStore
    set = record s {
      material = some material;
      vault_version = version_or version material s.vault_version;
    }

    same :
        IsConsistent s
        → IsConsistent (record s {
          material = some material;
          vault_version = version_or version material s.vault_version;
        })
    same (locked l k t ts d) = locked l k t ts d
    same (unguarded key l k a t ts) = unguarded key l k a t ts
    same (guarded key id l k a t ts) = guarded key id l k a t ts

fired : (id armed : ℕ) → clear_timer (some armed) (filter (λ t. not (t == id)) (armed ∷ [])) ≡ []
fired id armed = ground arith

pub fire-no_timer :
    (id : ℕ) (s : VaultStore) → IsConsistent s → In id s.timers → (fire id s).timers ≡ []
unfolding fire lock
fire-no_timer id s (locked l k t ts d) i = absurd (rw ts at i)
fire-no_timer id s (unguarded key l k a t ts) i = absurd (rw ts at i)
fire-no_timer id s (guarded key armed l k a t ts) i = rw (t, ts) (fired id armed)

fire-IsConsistent :
    (id : ℕ) (s : VaultStore) → IsConsistent s → In id s.timers → IsConsistent (fire id s)
unfolding fire lock
fire-IsConsistent id s c i = locked refl refl refl (fire-no_timer id s c i) refl

Step-IsConsistent :
    (stringify : Value → Text) {s t : VaultStore}
    → Step stringify s t
    → IsConsistent s
    → IsConsistent t
unfolding teardown lock
Step-IsConsistent stringify (locks {s}) c = lock-IsConsistent s (IsConsistent-Tracks s c)
Step-IsConsistent stringify (idles {s}) c = reset_idle-IsConsistent s c
Step-IsConsistent stringify (sets_auto_lock ms {s}) c = set_auto_lock_ms-IsConsistent ms s c
Step-IsConsistent stringify (sets_material material version {s}) c =
    set_material-IsConsistent stringify material version s c
Step-IsConsistent stringify (fires id {s} i) c = fire-IsConsistent id s c i
Step-IsConsistent stringify (tears_down {s}) c =
    locked refl refl refl (clear_timer-Tracks s.lock_timer_id s.timers (IsConsistent-Tracks s c))
      refl
Step-IsConsistent stringify (caches item u) (locked l k t ts d) = absurd (cc (l, u))
Step-IsConsistent stringify (caches item u) (unguarded key l k a t ts) = unguarded key l k a t ts
Step-IsConsistent stringify (caches item u) (guarded key id l k a t ts) = guarded key id l k a t ts
Step-IsConsistent stringify (scopes step) (locked l k t ts d) = locked l k t ts d
Step-IsConsistent stringify (scopes step) (unguarded key l k a t ts) = unguarded key l k a t ts
Step-IsConsistent stringify (scopes step) (guarded key id l k a t ts) = guarded key id l k a t ts

with_team :
    (team : TeamScope) (s : VaultStore) → IsConsistent s → IsConsistent (record s { team = team })
with_team team s (locked l k t ts d) = locked l k t ts d
with_team team s (unguarded key l k a t ts) = unguarded key l k a t ts
with_team team s (guarded key id l k a t ts) = guarded key id l k a t ts

pub Reachable-IsConsistent :
    (stringify : Value → Text) {keys team_keys : List ℕ} {s : VaultStore}
    → Reachable stringify keys team_keys s
    → IsConsistent s
Reachable-IsConsistent stringify start = locked refl refl refl refl refl
Reachable-IsConsistent stringify (unlocks key {keys} {team_keys} {s} r) =
    commit_unlock-IsConsistent key s (Reachable-IsConsistent stringify r)
Reachable-IsConsistent stringify (adopts key {keys} {team_keys} {s} e r) =
    adopt_key-IsConsistent key s (Reachable-IsConsistent stringify r)
Reachable-IsConsistent stringify (replaces key material version {keys} {team_keys} {s} r) =
    replace_key-IsConsistent key material version s (Reachable-IsConsistent stringify r)
Reachable-IsConsistent stringify (selects_team_key team_id version key {keys} {team_keys} {s} r) =
    with_team _ s (Reachable-IsConsistent stringify r)
Reachable-IsConsistent stringify (after r step) =
    Step-IsConsistent stringify step (Reachable-IsConsistent stringify r)
