-- ===== src/Session/TeamScope/Tests.antt =====
-- Runs of the team store, and its property at a concrete input.
use trominal.Shared.{[], ◌∷◌, codes, ◌≡◌, refl, All}
use trominal.Shared
use trominal.Session.TeamScope.{
  TeamScope, initial, set_team_scope, set_selected_team_key, reconcile_team_ids, set_personal_scope,
  clear_selected_team_key, Reachable, start, hands, after, team, clear,
}
use trominal.Session.TeamScope.Ownership.{IsAccountedFor, Reachable-IsAccountedFor}

abbrev two_keys : TeamScope
two_keys =
    set_selected_team_key (codes "t") 2 8
      (set_selected_team_key (codes "t") 1 7 (set_team_scope (codes "t") initial))

replaced_run : two_keys.wiped ≡ 7 ∷ []
unfolding set_selected_team_key set_team_scope Shared.text_eq
replaced_run = refl

same_key_run : set_selected_team_key (codes "t") 2 8 two_keys ≡ two_keys
unfolding set_selected_team_key set_team_scope Shared.text_eq
same_key_run = refl

reconcile_run : (reconcile_team_ids (codes "u" ∷ []) two_keys).wiped ≡ 8 ∷ 7 ∷ []
unfolding reconcile_team_ids set_personal_scope set_selected_team_key set_team_scope Shared.text_eq
reconcile_run = refl

reached : Reachable (8 ∷ 7 ∷ []) (clear_selected_team_key two_keys)
reached =
    after (hands (codes "t") 2 8 (hands (codes "t") 1 7 (after start (team (codes "t"))))) clear

Reachable-IsAccountedFor_example :
    All (IsAccountedFor (clear_selected_team_key two_keys)) (8 ∷ 7 ∷ [])
Reachable-IsAccountedFor_example = Reachable-IsAccountedFor reached
