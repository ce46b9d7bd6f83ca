-- ===== src/Vault/Records/Binding.antt =====
-- To which row the associated data of a vault record binds its ciphertexts
-- (apps/client/src/features/vault/model.ts).
use mathlib.Core.Bool.{not}
use trominal.Shared.{
  ◌==◌, ◌&&◌, arith, Bool, true, false, List, [], ◌∷◌, ◌++◌, Option, none, some, Text, codes,
  text_eq, if◌then◌else◌, ◌≡◌, refl, sym, ap, ◌∙◌,
}
use trominal.Shared
use trominal.Shared.Results.{ok}
use trominal.Crypto.Envelope.{make_ad}
use trominal.Crypto.Envelope.Binding.{NoColon, make_ad_injective, split_at_colon}
use trominal.Vault.Records.{
  Resource, groups, hosts, host_credentials, snippets, identities, tunnels, ai_settings,
  ad_resource, personal_record_ad, team_record_ad, scoped_ad,
}

-- The type part of the associated data, and the id part.
abbrev pub type_part : Resource → Option Text → Text
type_part resource none = ad_resource resource
type_part resource (some team_id) = codes "team_" ++ ad_resource resource

abbrev pub id_part : Text → Option Text → Text
id_part id none = id
id_part id (some team_id) = id ++ (b':' ∷ team_id)

-- The resource and the scope that a type part names.
abbrev search : Text → List (Bool × Resource) → Option (Bool × Resource)
search t [] = none
search t ((false, r) ∷ rest) = if text_eq t (ad_resource r) then some (false, r) else search t rest
search t ((true, r) ∷ rest) =
    if text_eq t (codes "team_" ++ ad_resource r) then some (true, r) else search t rest

abbrev every_type : List (Bool × Resource)
every_type =
    (false, groups)
    ∷ (false, hosts)
    ∷ (false, host_credentials)
    ∷ (false, snippets)
    ∷ (false, identities)
    ∷ (false, tunnels)
    ∷ (false, ai_settings)
    ∷ (true, groups)
    ∷ (true, hosts)
    ∷ (true, host_credentials)
    ∷ (true, snippets)
    ∷ (true, identities)
    ∷ (true, tunnels)
    ∷ (true, ai_settings)
    ∷ []

abbrev is_team : Option Text → Bool
is_team none = false
is_team (some team_id) = true

search-type_part :
    (resource : Resource) (team_id : Option Text)
    → search (type_part resource team_id) every_type ≡ some (is_team team_id, resource)
unfolding Shared.text_eq
search-type_part groups none = refl
search-type_part groups (some t) = refl
search-type_part hosts none = refl
search-type_part hosts (some t) = refl
search-type_part host_credentials none = refl
search-type_part host_credentials (some t) = refl
search-type_part snippets none = refl
search-type_part snippets (some t) = refl
search-type_part identities none = refl
search-type_part identities (some t) = refl
search-type_part tunnels none = refl
search-type_part tunnels (some t) = refl
search-type_part ai_settings none = refl
search-type_part ai_settings (some t) = refl

has_no_colon : Text → Bool
has_no_colon [] = true
has_no_colon (c ∷ s) = not (c == b':') && has_no_colon s

has_no_colon_sound : (s : Text) → has_no_colon s ≡ true → NoColon s
unfolding has_no_colon
has_no_colon_sound [] h = tt
has_no_colon_sound (c ∷ s) h =
    ((λ e. absurd (ground (arith, e))), has_no_colon_sound s (ground arith))

has_no_colon-type_part :
    (resource : Resource) (team_id : Option Text) → has_no_colon (type_part resource team_id) ≡ true
unfolding has_no_colon
has_no_colon-type_part groups none = refl
has_no_colon-type_part groups (some t) = refl
has_no_colon-type_part hosts none = refl
has_no_colon-type_part hosts (some t) = refl
has_no_colon-type_part host_credentials none = refl
has_no_colon-type_part host_credentials (some t) = refl
has_no_colon-type_part snippets none = refl
has_no_colon-type_part snippets (some t) = refl
has_no_colon-type_part identities none = refl
has_no_colon-type_part identities (some t) = refl
has_no_colon-type_part tunnels none = refl
has_no_colon-type_part tunnels (some t) = refl
has_no_colon-type_part ai_settings none = refl
has_no_colon-type_part ai_settings (some t) = refl

type_part-NoColon :
    (resource : Resource) (team_id : Option Text) → NoColon (type_part resource team_id)
type_part-NoColon resource team_id =
    has_no_colon_sound (type_part resource team_id) (has_no_colon-type_part resource team_id)

scoped_ad-make_ad :
    (resource : Resource) (id : Text) (team_id : Option Text)
    → scoped_ad resource id team_id ≡ make_ad (type_part resource team_id) (id_part id team_id)
unfolding personal_record_ad team_record_ad
scoped_ad-make_ad resource id none = refl
scoped_ad-make_ad resource id (some team_id) = refl

id_part_injective :
    (id id' : Text) (team_id team_id' : Option Text)
    → NoColon id
    → NoColon id'
    → is_team team_id ≡ is_team team_id'
    → id_part id team_id ≡ id_part id' team_id'
    → (id ≡ id') × (team_id ≡ team_id')
id_part_injective id id' none none n n' same e = (e, refl)
id_part_injective id id' none (some t) n n' same e = absurd (cc same)
id_part_injective id id' (some t) none n n' same e = absurd (cc same)
id_part_injective id id' (some t) (some t') n n' same e =
    let (ids, teams) = split_at_colon id id' n n' e in (ids, ap some teams)

-- Two records share their associated data only if they are the same resource, with the same id, in
-- the same personal vault or the same team, for ids without a colon.
pub scoped_ad_injective :
    (resource resource' : Resource) (id id' : Text) (team_id team_id' : Option Text) {ad : Text}
    → NoColon id
    → NoColon id'
    → scoped_ad resource id team_id ≡ ok ad
    → scoped_ad resource' id' team_id' ≡ ok ad
    → (resource ≡ resource') × (id ≡ id') × (team_id ≡ team_id')
scoped_ad_injective resource resource' id id' team_id team_id' {ad} n n' h k =
    let (types, ids) =
      make_ad_injective (type_part resource team_id) (type_part resource' team_id')
        (id_part id team_id) (id_part id' team_id') (type_part-NoColon resource team_id)
        (type_part-NoColon resource' team_id') (sym (scoped_ad-make_ad resource id team_id) ∙ h)
        (sym (scoped_ad-make_ad resource' id' team_id') ∙ k) in
    let found : some (is_team team_id, resource) ≡ some (is_team team_id', resource') =
      sym (search-type_part resource team_id)
      ∙ ap (λ t. search t every_type) types
      ∙ search-type_part resource' team_id' in
    let pair : ◌≡◌ {A = Bool × Resource} (is_team team_id, resource) (is_team team_id', resource') =
      cc found in
    let (same_id, same_team) =
      id_part_injective id id' team_id team_id' n n' (ap (λ (p : Bool × Resource). p.0) pair) ids in
    (ap (λ (p : Bool × Resource). p.1) pair, same_id, same_team)
