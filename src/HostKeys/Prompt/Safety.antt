-- ===== src/HostKeys/Prompt/Safety.antt =====
-- What a promise of the host-key dialog can be resolved with
-- (apps/client/src/features/hosts/host-key-prompt.ts).
use trominal.Shared.{
  ℕ, zero, suc, All-map, Bool, true, false, ◌&&◌, List, [], ◌∷◌, map, Option, none, some, ◌≡◌, ◌≢◌,
  refl, arith, In, All, inl, inr,
}
use trominal.HostKeys.Prompt.{
  changed, HostKeyPrompt, State, ask, answer, remember_for_session, settle, accepts, Step, asks,
  answers, remembers, Reachable, start, then,
}

-- The numbers below `n`, the largest first.
abbrev pub down_from : ℕ → List ℕ
down_from zero = []
down_from (suc n) = n ∷ down_from n

abbrev pub ids : List (ℕ × Bool) → List ℕ
ids settled = map (λ p. p.0) settled

-- The prompt that is shown is the one that the pending promise was asked with, and all earlier
-- promises were settled, in the order in which they were asked.
pub data IsPending : State → Type 0 where
  idle :
      {s : State}
      → s.prompt ≡ none
      → s.resolve ≡ none
      → ids s.settled ≡ down_from s.next
      → IsPending s
  shown :
      {s : State} (n : ℕ) (prompt : HostKeyPrompt)
      → s.prompt ≡ some prompt
      → s.resolve ≡ some n
      → s.next ≡ suc n
      → In (n, prompt) s.asked
      → ids s.settled ≡ down_from n
      → IsPending s

-- The promise `n` was asked with a prompt that is no `changed` one.
abbrev pub AskedSafely : List (ℕ × HostKeyPrompt) → ℕ → Type 0
AskedSafely asked n = (prompt : HostKeyPrompt) × In (n, prompt) asked × (prompt.mode ≢ changed)

abbrev pub TrueIsSafe : List (ℕ × HostKeyPrompt) → ℕ × Bool → Type 0
TrueIsSafe asked p = p.1 ≡ true → AskedSafely asked p.0

IsPending-ask : (prompt : HostKeyPrompt) (s : State) → IsPending s → IsPending (ask prompt s)
unfolding ask
IsPending-ask prompt s (idle p r all) = shown s.next prompt refl refl refl (inl refl) (rw r all)
IsPending-ask prompt s (shown n old p r next asked all) =
    shown s.next prompt refl refl refl (inl refl) (rw r (rw (all, next) refl))

IsPending-answer : (approved : Bool) (s : State) → IsPending s → IsPending (answer approved s)
unfolding answer
IsPending-answer approved s (idle p r all) = idle refl refl (rw r all)
IsPending-answer approved s (shown n prompt p r next asked all) =
    idle refl refl (rw r (rw (all, next) refl))

Step-IsPending : {s t : State} → Step s t → IsPending s → IsPending t
unfolding remember_for_session
Step-IsPending (asks prompt {s}) pending = IsPending-ask prompt s pending
Step-IsPending (answers approved {s}) pending = IsPending-answer approved s pending
Step-IsPending (remembers host_id pins) (idle p r all) = idle p r all
Step-IsPending (remembers host_id pins) (shown n prompt p r next asked all) =
    shown n prompt p r next asked all

-- In every state that the dialog reaches, each promise but the pending one was resolved exactly
-- once, in the order of the calls of `ask`, and the pending one belongs to the prompt on the screen.
pub Reachable-IsPending : {s : State} → Reachable s → IsPending s
Reachable-IsPending start = idle refl refl refl
Reachable-IsPending (then r step) = Step-IsPending step (Reachable-IsPending r)

TrueIsSafe-ask :
    (asked : List (ℕ × HostKeyPrompt)) (new : ℕ × HostKeyPrompt) (resolve : Option ℕ)
    (settled : List (ℕ × Bool))
    → All (TrueIsSafe asked) settled
    → All (TrueIsSafe (new ∷ asked)) (settle resolve false settled)
TrueIsSafe-ask asked new resolve settled h = settle_false resolve
  where
    kept : All (TrueIsSafe (new ∷ asked)) settled
    kept =
        All-map (TrueIsSafe asked) (TrueIsSafe (new ∷ asked)) settled
          (λ p f e. let (prompt, i, m) = f e in (prompt, inr i, m)) h

    settle_false :
        (resolve : Option ℕ) → All (TrueIsSafe (new ∷ asked)) (settle resolve false settled)
    settle_false none = kept
    settle_false (some n) = ((λ e. absurd (cc e)), kept)

accepts_sound :
    (approved : Bool) (prompt : HostKeyPrompt)
    → (approved && accepts (some prompt)) ≡ true
    → prompt.mode ≢ changed
accepts_sound approved prompt h e = absurd (ground arith)

TrueIsSafe-answer :
    (approved : Bool) (s : State)
    → IsPending s
    → All (TrueIsSafe s.asked) s.settled
    → All (TrueIsSafe s.asked) (settle s.resolve (approved && accepts s.prompt) s.settled)
TrueIsSafe-answer approved s (idle p r all) h = rw r h
TrueIsSafe-answer approved s (shown n prompt p r next asked all) h =
    rw (r, p) ((λ e. (prompt, asked, accepts_sound approved prompt e)), h)

-- A promise of the dialog resolves with true only if its prompt was no `changed` one: a host whose
-- key changed is never accepted from there, whatever was asked and answered in between.
pub Reachable-IsSafe : {s : State} → Reachable s → All (TrueIsSafe s.asked) s.settled
unfolding ask answer remember_for_session
Reachable-IsSafe start = tt
Reachable-IsSafe (then r (asks prompt {s})) =
    TrueIsSafe-ask s.asked (s.next, prompt) s.resolve s.settled (Reachable-IsSafe r)
Reachable-IsSafe (then r (answers approved {s})) =
    TrueIsSafe-answer approved s (Reachable-IsPending r) (Reachable-IsSafe r)
Reachable-IsSafe (then r (remembers host_id pins)) = Reachable-IsSafe r
