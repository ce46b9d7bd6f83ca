-- ===== src/Session/VaultStore/Tests.antt =====
-- Runs of the vault store, and its properties at concrete inputs.
use trominal.Shared.{true, false, [], ◌∷◌, none, some, Text, codes, ◌≡◌, refl, All, In, inl}
use trominal.Shared
use trominal.Json.{Value, null, string}
use trominal.Session.TeamScope.{set_selected_team_key}
use trominal.Session.VaultStore.{
  VaultStore, UserVaultMaterial, initial, lock, reset_idle, set_auto_lock_ms, commit_unlock,
  replace_key, key_material_changed, set_material, fire, teardown, Reachable, start, unlocks,
  selects_team_key, after, sets_material,
}
use trominal.Session.VaultStore.Ownership.{IsAccountedFor, vault_keys-IsAccountedFor}
use trominal.Session.VaultStore.Locking.{
  Forgets, fire-Forgets, teardown-Forgets, set_material-Forgets,
}

-- A stand-in for `JSON.stringify` that tells the two values of the tests apart.
abbrev stringify : Value → Text
stringify (string s) = b'"' ∷ s
stringify _ = codes "null"

abbrev material : UserVaultMaterial
material = record {
  kdf_salt = codes "c2FsdA==";
  kdf_params = null;
  private_key_ciphertext = [];
  private_key_nonce = [];
  vault_version = some 4;
}

abbrev rotated : UserVaultMaterial
rotated = record material { kdf_salt = codes "bmV3" }

abbrev with_material : VaultStore
with_material = set_material stringify material none initial

abbrev unlocked : VaultStore
unlocked = commit_unlock 5 with_material

abbrev in_team : VaultStore
in_team = record unlocked { team = set_selected_team_key (codes "t") 1 9 unlocked.team }

in_team-Reachable : Reachable stringify (5 ∷ []) (9 ∷ []) in_team
in_team-Reachable =
    selects_team_key (codes "t") 1 9 (unlocks 5 (after start (sets_material material none)))

version_run : unlocked.vault_version ≡ 4
unfolding set_material commit_unlock reset_idle
version_run = refl

timer_run : unlocked.timers ≡ 0 ∷ []
unfolding set_material commit_unlock reset_idle
timer_run = refl

reset_run : (reset_idle unlocked).timers ≡ 1 ∷ []
unfolding set_material commit_unlock reset_idle
reset_run = refl

auto_lock_off : (set_auto_lock_ms 0 unlocked).timers ≡ []
unfolding set_material commit_unlock reset_idle set_auto_lock_ms
auto_lock_off = refl

replace_run : (replace_key 6 rotated none unlocked).wiped ≡ 5 ∷ []
unfolding set_material commit_unlock reset_idle replace_key
replace_run = refl

rotated_run : (set_material stringify rotated none unlocked).is_locked ≡ true
unfolding set_material commit_unlock reset_idle lock Shared.text_eq
rotated_run = refl

unlocked_run : in_team.is_locked ≡ false
unfolding set_material commit_unlock reset_idle
unlocked_run = refl

armed : In 0 in_team.timers
unfolding set_material commit_unlock reset_idle
armed = inl refl

vault_keys-IsAccountedFor_example : All (IsAccountedFor in_team) (5 ∷ [])
vault_keys-IsAccountedFor_example = vault_keys-IsAccountedFor stringify in_team-Reachable

fire-Forgets_run : Forgets (5 ∷ []) (9 ∷ []) (fire 0 in_team)
fire-Forgets_run = fire-Forgets stringify in_team in_team-Reachable 0 armed

teardown-Forgets_run :
    Forgets (5 ∷ []) (9 ∷ []) (teardown in_team)
    × ((teardown in_team).material ≡ none)
    × ((teardown in_team).vault_version ≡ 0)
    × ((teardown in_team).team.selected_team_id ≡ none)
teardown-Forgets_run = teardown-Forgets stringify in_team in_team-Reachable

set_material-Forgets_run :
    (key_material_changed stringify in_team.material rotated ≡ true
      → Forgets (5 ∷ []) (9 ∷ []) (set_material stringify rotated none in_team))
    × (key_material_changed stringify in_team.material rotated ≡ false
        → (set_material stringify rotated none in_team).key ≡ in_team.key)
set_material-Forgets_run =
    set_material-Forgets stringify in_team in_team-Reachable rotated none unlocked_run
