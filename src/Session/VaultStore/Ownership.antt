-- ===== src/Session/VaultStore/Ownership.antt =====
-- What becomes of the keys that the vault store was given (apps/client/src/stores/vault.ts and
-- lib/session-teardown.ts).
use trominal.Shared.{
  ℕ, filter, false, Bool-cases, if-cases, ◌||◌, ◌&&◌, List, ◌∷◌, Option, none, some, Text, ◌==◌,
  ==_iff, leb, ◌≡◌, ◌⊎◌, inl, inr, refl, sym, ap, ◌∙◌, All, All-map, In,
}
use mathlib.Core.Bool.{not}
use trominal.Json.{Value}
use trominal.Session.TeamScope.{wipe_if_present}
use trominal.Session.VaultStore.{
  VaultStore, UserVaultMaterial, version_or, wipe_previous, lock, reset_idle, set_auto_lock_ms,
  commit_unlock, adopt_key, replace_key, key_material_changed, set_material, fire, teardown, Step,
  locks, idles, sets_auto_lock, sets_material, fires, tears_down, caches, scopes, Reachable, start,
  unlocks, adopts, replaces, selects_team_key, after,
}

-- A key that was handed over is the vault's key, or its buffer was zeroed.
abbrev pub IsAccountedFor : VaultStore → ℕ → Type 0
IsAccountedFor s k = (s.key ≡ some k) ⊎ In k s.wiped

abbrev Keeps : VaultStore → VaultStore → Type 0
Keeps s t = (k : ℕ) → IsAccountedFor s k → IsAccountedFor t k

In-wipe_if_present :
    (key : Option ℕ) (wiped : List ℕ) (k : ℕ)
    → (key ≡ some k) ⊎ In k wiped
    → In k (wipe_if_present key wiped)
In-wipe_if_present none wiped k (inl e) = absurd (cc e)
In-wipe_if_present none wiped k (inr i) = i
In-wipe_if_present (some key) wiped k (inl e) = inl (cc e)
In-wipe_if_present (some key) wiped k (inr i) = inr i

In-wipe_previous :
    (previous : Option ℕ) (key : ℕ) (wiped : List ℕ) (k : ℕ)
    → (previous ≡ some k) ⊎ In k wiped
    → (◌≡◌ {A = Option ℕ} (some key) (some k)) ⊎ In k (wipe_previous previous key wiped)
In-wipe_previous none key wiped k (inl e) = absurd (cc e)
In-wipe_previous none key wiped k (inr i) = inr i
In-wipe_previous (some previous) key wiped k (inl e) = elim (Bool-cases (previous == key)) [
  | inl same ↦ inl (ap some (sym ((==_iff previous key).0 same)) ∙ e)
  | inr other ↦ inr (rw other (inl (cc e)))
]
In-wipe_previous (some previous) key wiped k (inr i) =
    inr (
      if-cases (λ w. In k w) (not (previous == key)) (previous ∷ wiped) wiped (λ e. inr i) (λ e. i))

pub lock-wipes : (s : VaultStore) (k : ℕ) → IsAccountedFor s k → In k (lock s).wiped
unfolding lock
lock-wipes s k i = In-wipe_if_present s.key s.wiped k i

reset_idle-Keeps : (s : VaultStore) → Keeps s (reset_idle s)
unfolding reset_idle
reset_idle-Keeps s =
    if-cases (Keeps s) (s.is_locked || leb s.auto_lock_ms 0) _ _ (λ e k i. i) (λ e k i. i)

commit_unlock-Keeps : (key : ℕ) (s : VaultStore) → Keeps s (commit_unlock key s)
unfolding commit_unlock
commit_unlock-Keeps key s k i =
    reset_idle-Keeps
      (record s { key = some key; is_locked = false; wiped = wipe_previous s.key key s.wiped }) k
      (In-wipe_previous s.key key s.wiped k i)

replace_key-Keeps :
    (key : ℕ) (material : UserVaultMaterial) (version : Option ℕ) (s : VaultStore)
    → Keeps s (replace_key key material version s)
unfolding replace_key
replace_key-Keeps key material version s k i =
    reset_idle-Keeps
      (record s {
        key = some key;
        is_locked = false;
        material = some material;
        vault_version = version_or version material s.vault_version;
        wiped = wipe_previous s.key key s.wiped;
      })
      k (In-wipe_previous s.key key s.wiped k i)

adopt_key-Keeps : (key : ℕ) (s : VaultStore) → s.key ≡ none → Keeps s (adopt_key key s)
unfolding adopt_key
adopt_key-Keeps key s free k (inl e) = absurd (cc (free, e))
adopt_key-Keeps key s free k (inr i) =
    reset_idle-Keeps (record s { key = some key; is_locked = false }) k (inr i)

Step-Keeps : (stringify : Value → Text) {s t : VaultStore} → Step stringify s t → Keeps s t
unfolding set_auto_lock_ms set_material fire teardown
Step-Keeps stringify (locks {s}) k i = inr (lock-wipes s k i)
Step-Keeps stringify (idles {s}) k i = reset_idle-Keeps s k i
Step-Keeps stringify (sets_auto_lock ms {s}) k i =
    if-cases (Keeps s) (not s.is_locked) (reset_idle (record s { auto_lock_ms = ms }))
      (record s { auto_lock_ms = ms }) (λ e. reset_idle-Keeps (record s { auto_lock_ms = ms }))
      (λ e k i. i) k i
Step-Keeps stringify (sets_material material version {s}) k i =
    let set : VaultStore = record s {
      material = some material;
      vault_version = version_or version material s.vault_version;
    } in
    if-cases (Keeps s) (not s.is_locked && key_material_changed stringify s.material material)
      (lock set) set (λ e k i. inr (lock-wipes set k i)) (λ e k i. i) k i
Step-Keeps stringify (fires id {s} armed) k i =
    inr (lock-wipes (record s { timers = filter (λ t. not (t == id)) s.timers }) k i)
Step-Keeps stringify (tears_down {s}) k i = inr (lock-wipes s k i)
Step-Keeps stringify (caches item u) k i = i
Step-Keeps stringify (scopes step) k i = i

pub reset_idle-key :
    (s : VaultStore) → ((reset_idle s).key ≡ s.key) × ((reset_idle s).team ≡ s.team)
unfolding reset_idle
reset_idle-key s =
    if-cases (λ (t : VaultStore). (t.key ≡ s.key) × (t.team ≡ s.team))
      (s.is_locked || leb s.auto_lock_ms 0) _ _ (λ e. (refl, refl)) (λ e. (refl, refl))

-- Every vault key that was ever handed to the store is its present key, or its buffer was zeroed,
-- if a key is adopted only by a store that has none.
pub vault_keys-IsAccountedFor :
    (stringify : Value → Text) {keys team_keys : List ℕ} {s : VaultStore}
    → Reachable stringify keys team_keys s
    → All (IsAccountedFor s) keys
unfolding commit_unlock adopt_key replace_key
vault_keys-IsAccountedFor stringify start = tt
vault_keys-IsAccountedFor stringify (unlocks key {keys} {team_keys} {s} r) = (
  inl
      (reset_idle-key (record s {
        key = some key;
        is_locked = false;
        wiped = wipe_previous s.key key s.wiped;
      })).0,
  All-map (IsAccountedFor s) (IsAccountedFor (commit_unlock key s)) keys (commit_unlock-Keeps key s)
      (vault_keys-IsAccountedFor stringify r),
)
vault_keys-IsAccountedFor stringify (adopts key {keys} {team_keys} {s} free r) = (
  inl (reset_idle-key (record s { key = some key; is_locked = false })).0,
  All-map (IsAccountedFor s) (IsAccountedFor (adopt_key key s)) keys (adopt_key-Keeps key s free)
      (vault_keys-IsAccountedFor stringify r),
)
vault_keys-IsAccountedFor stringify (replaces key material version {keys} {team_keys} {s} r) = (
  inl
      (reset_idle-key (record s {
        key = some key;
        is_locked = false;
        material = some material;
        vault_version = version_or version material s.vault_version;
        wiped = wipe_previous s.key key s.wiped;
      })).0,
  All-map (IsAccountedFor s) (IsAccountedFor (replace_key key material version s)) keys
      (replace_key-Keeps key material version s) (vault_keys-IsAccountedFor stringify r),
)
vault_keys-IsAccountedFor stringify (selects_team_key team_id version key r) =
    vault_keys-IsAccountedFor stringify r
vault_keys-IsAccountedFor stringify (after {keys} {team_keys} {s} {t} r step) =
    All-map (IsAccountedFor s) (IsAccountedFor t) keys (Step-Keeps stringify step)
      (vault_keys-IsAccountedFor stringify r)
