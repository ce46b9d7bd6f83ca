-- ===== src/Session/Terminal/Focus.antt =====
-- The active tab is one of the tabs (apps/client/src/stores/terminal.ts).
use trominal.Shared.{
  false, Bool-cases, List, [], ◌∷◌, ◌++◌, map, filter, Option, none, some, Text, text_eq, In, inl,
  inr, ◌≡◌, refl, ap, sym, subst, ◌∙◌,
}
use trominal.Session.Terminal.{
  TerminalTab, Patch, Terminal, patched, first_id, active_after, without, Reachable, start,
  activates, deactivates, adds, patches, removes,
}

abbrev pub ids : List TerminalTab → List Text
ids tabs = map (λ (tab : TerminalTab). tab.id) tabs

abbrev pub IsFocusedOn : List TerminalTab → Option Text → Type 0
IsFocusedOn tabs none = Unit {0}
IsFocusedOn tabs (some id) = In id (ids tabs)

In-ids-added : (tabs : List TerminalTab) (tab : TerminalTab) → In tab.id (ids (tabs ++ (tab ∷ [])))
In-ids-added [] tab = inl refl
In-ids-added (first ∷ tabs) tab = inr (In-ids-added tabs tab)

patched-id : (id : Text) (patch : Patch) (tab : TerminalTab) → (patched id patch tab).id ≡ tab.id
patched-id id patch tab = elim (Bool-cases (text_eq tab.id id)) [
  | inl e ↦ rw e refl
  | inr e ↦ rw e refl
]

ids-patched :
    (id : Text) (patch : Patch) (tabs : List TerminalTab)
    → ids (map (patched id patch) tabs) ≡ ids tabs
ids-patched id patch [] = refl
ids-patched id patch (tab ∷ tabs) =
    ap (λ i. i ∷ ids (map (patched id patch) tabs)) (patched-id id patch tab)
    ∙ ap (λ is. tab.id ∷ is) (ids-patched id patch tabs)

In-ids-without :
    (id active : Text) (tabs : List TerminalTab)
    → text_eq active id ≡ false
    → In active (ids tabs)
    → In active (ids (without id tabs))
In-ids-without id active [] other i = absurd i
In-ids-without id active (tab ∷ tabs) other (inl e) =
    rw (ap (λ t. text_eq t id) e ∙ other, filter) (inl e)
In-ids-without id active (tab ∷ tabs) other (inr i) = elim (Bool-cases (text_eq tab.id id)) [
  | inl e ↦ rw (e, filter) (In-ids-without id active tabs other i)
  | inr e ↦ rw (e, filter) (inr (In-ids-without id active tabs other i))
]

first_id-IsFocusedOn : (tabs : List TerminalTab) → IsFocusedOn tabs (first_id tabs)
first_id-IsFocusedOn [] = tt
first_id-IsFocusedOn (tab ∷ tabs) = inl refl

active_after-IsFocusedOn :
    (id : Text) (tabs : List TerminalTab) (active : Option Text)
    → IsFocusedOn tabs active
    → IsFocusedOn (without id tabs) (active_after id (without id tabs) active)
active_after-IsFocusedOn id tabs none h = tt
active_after-IsFocusedOn id tabs (some active) h = elim (Bool-cases (text_eq active id)) [
  | inl e ↦ rw e (first_id-IsFocusedOn (without id tabs))
  | inr e ↦ rw e (In-ids-without id active tabs e h)
]

ids-IsFocusedOn :
    (tabs others : List TerminalTab) (active : Option Text)
    → ids tabs ≡ ids others
    → IsFocusedOn tabs active
    → IsFocusedOn others active
ids-IsFocusedOn tabs others none e h = tt
ids-IsFocusedOn tabs others (some id) e h = subst (λ is. In id is) e h

-- Whatever is done with the tabs, the active id is the id of a tab that is there, or `null`: removing
-- the active tab moves the focus to the first one that is left.
pub Reachable-IsFocusedOn : {s : Terminal} → Reachable s → IsFocusedOn s.tabs s.active_id
Reachable-IsFocusedOn start = tt
Reachable-IsFocusedOn (activates id r i) = i
Reachable-IsFocusedOn (deactivates r) = tt
Reachable-IsFocusedOn (adds tab {s} r) = In-ids-added s.tabs tab
Reachable-IsFocusedOn (patches id patch {s} r) =
    ids-IsFocusedOn s.tabs (map (patched id patch) s.tabs) s.active_id
      (sym (ids-patched id patch s.tabs)) (Reachable-IsFocusedOn r)
Reachable-IsFocusedOn (removes id {s} r) =
    active_after-IsFocusedOn id s.tabs s.active_id (Reachable-IsFocusedOn r)
