-- ===== src/Session/Auth/SignedOut.antt =====
-- A session that has ended stays ended (apps/client/src/stores/auth.ts).
use trominal.Shared.{
  ℕ, suc, ◌<◌, Bool, true, false, if-cases, none, ◌==◌, ◌≡◌, refl, sym, subst, arith,
}
use trominal.Session.Auth.{
  hydrate_with, refresh_from, refresh_with, is_idle, Flight, idle, reading, requested, storing,
  applying, clearing, Auth, Failure, should_clear_token_on_error, hydrate, hydrated, hydrate_read,
  hydrate_answered, hydrate_failed, hydrate_cleared, logout, logout_answered, logout_deleted,
  refresh, refresh_read, refresh_answered, refresh_failed, Step, hydrates, hydrate_reads,
  hydrate_answers, hydrate_fails, hydrate_clears, hydrate_stores, hydrate_applies, refreshes,
  refresh_reads, refresh_answers, refresh_fails, refresh_stores, refresh_applies, refresh_leaves,
  logs_out, logout_answers, logout_deletes, Run, stop, step,
}

-- No new pair is on its way: a request that is still out belongs to an epoch before the last logout.
abbrev pub IsHarmless : ℕ → Flight → Type 0
IsHarmless epoch (requested e token) = e < epoch
IsHarmless epoch (storing pair) = ⊥
IsHarmless epoch (applying pair) = ⊥
IsHarmless epoch _ = Unit {0}

pub record IsSignedOut (s : Auth) : Type 0 where
  pub no_session : s.refresh_token ≡ none
  pub no_stored : s.stored ≡ none
  pub hydrate_harmless : IsHarmless s.session_epoch s.hydrate_inflight
  pub refresh_harmless : IsHarmless s.session_epoch s.refresh_inflight

later : (epoch : ℕ) (flight : Flight) → IsHarmless epoch flight → IsHarmless (suc epoch) flight
later epoch idle h = tt
later epoch reading h = tt
later epoch (requested e token) h = omega arith
later epoch (storing pair) h = h
later epoch (applying pair) h = h
later epoch clearing h = tt

-- The two flights of a state that is signed out may be replaced by harmless ones.
with_hydrate :
    (s : Auth) (hydrating error : Bool) (flight : Flight)
    → IsSignedOut s
    → IsHarmless s.session_epoch flight
    → IsSignedOut
        (record s { is_hydrating = hydrating; hydrate_error = error; hydrate_inflight = flight })
with_hydrate s hydrating error flight o h = record {
  no_session = o.no_session;
  no_stored = o.no_stored;
  hydrate_harmless = h;
  refresh_harmless = o.refresh_harmless;
}

with_refresh :
    (s : Auth) (flight : Flight)
    → IsSignedOut s
    → IsHarmless s.session_epoch flight
    → IsSignedOut (record s { refresh_inflight = flight })
with_refresh s flight o h = record {
  no_session = o.no_session;
  no_stored = o.no_stored;
  hydrate_harmless = o.hydrate_harmless;
  refresh_harmless = h;
}

logout-IsSignedOut : (s : Auth) → IsSignedOut s → IsSignedOut (logout s)
unfolding logout
logout-IsSignedOut s o = record {
  no_session = o.no_session;
  no_stored = o.no_stored;
  hydrate_harmless = later s.session_epoch s.hydrate_inflight o.hydrate_harmless;
  refresh_harmless = later s.session_epoch s.refresh_inflight o.refresh_harmless;
}

-- The answer to a request of an earlier epoch is not taken.
stale :
    (epoch token current : ℕ) (flight : Flight)
    → flight ≡ requested epoch token
    → IsHarmless current flight
    → (epoch == current) ≡ false
stale epoch token current flight here h = let early : epoch < current = rw here at h in ground arith

hydrate_answered-IsSignedOut :
    (epoch token pair : ℕ) (s : Auth)
    → s.hydrate_inflight ≡ requested epoch token
    → IsSignedOut s
    → IsSignedOut (hydrate_answered epoch pair s)
unfolding hydrate_answered
hydrate_answered-IsSignedOut epoch token pair s here o =
    if-cases IsSignedOut (epoch == s.session_epoch) (record s { hydrate_inflight = storing pair })
      (hydrated s)
      (λ e.
        absurd
          (cc (e, stale epoch token s.session_epoch s.hydrate_inflight here o.hydrate_harmless)))
      (λ e. with_hydrate s false s.hydrate_error idle o tt)

hydrate_failed-IsSignedOut :
    (failure : Failure) (s : Auth) → IsSignedOut s → IsSignedOut (hydrate_failed failure s)
unfolding hydrate_failed
hydrate_failed-IsSignedOut failure s o =
    if-cases IsSignedOut (should_clear_token_on_error failure)
      (record s { hydrate_inflight = clearing })
      (record s { is_hydrating = false; hydrate_error = true; hydrate_inflight = idle })
      (λ e. with_hydrate s s.is_hydrating s.hydrate_error clearing o tt)
      (λ e. with_hydrate s false true idle o tt)

refresh_answered-IsSignedOut :
    (epoch token pair : ℕ) (s : Auth)
    → s.refresh_inflight ≡ requested epoch token
    → IsSignedOut s
    → IsSignedOut (refresh_answered epoch pair s)
unfolding refresh_answered
refresh_answered-IsSignedOut epoch token pair s here o =
    if-cases IsSignedOut (epoch == s.session_epoch) (record s { refresh_inflight = storing pair })
      (record s { refresh_inflight = idle })
      (λ e.
        absurd
          (cc (e, stale epoch token s.session_epoch s.refresh_inflight here o.refresh_harmless)))
      (λ e. with_refresh s idle o tt)

refresh_failed-IsSignedOut :
    (failure : Failure) (s : Auth) → IsSignedOut s → IsSignedOut (refresh_failed failure s)
unfolding refresh_failed
refresh_failed-IsSignedOut failure s o =
    if-cases IsSignedOut (should_clear_token_on_error failure)
      (logout (record s { refresh_inflight = clearing })) (record s { refresh_inflight = idle })
      (λ e.
        logout-IsSignedOut (record s { refresh_inflight = clearing })
          (with_refresh s clearing o tt))
      (λ e. with_refresh s idle o tt)

Step-IsSignedOut : {s t : Auth} → Step s t → IsSignedOut s → IsSignedOut t
unfolding hydrate hydrate_read hydrate_answered hydrate_failed hydrate_cleared logout_answered
    logout_deleted refresh refresh_read refresh_answered refresh_failed
Step-IsSignedOut (hydrates {s}) o =
    if-cases IsSignedOut (is_idle s.hydrate_inflight)
      (record s { is_hydrating = true; hydrate_error = false; hydrate_inflight = reading }) s
      (λ e. with_hydrate s true false reading o tt) (λ e. o)
Step-IsSignedOut (hydrate_reads {s} here) o =
    subst (λ stored. IsSignedOut (hydrate_with stored s)) (sym o.no_stored)
      (with_hydrate s false s.hydrate_error idle o tt)
Step-IsSignedOut (hydrate_answers epoch token pair {s} here) o =
    hydrate_answered-IsSignedOut epoch token pair s here o
Step-IsSignedOut (hydrate_fails epoch token failure {s} here) o =
    hydrate_failed-IsSignedOut failure s o
Step-IsSignedOut (hydrate_clears {s} here) o = record {
  no_session = refl;
  no_stored = refl;
  hydrate_harmless = tt;
  refresh_harmless = o.refresh_harmless;
}
Step-IsSignedOut (hydrate_stores pair {s} here) o =
    absurd (subst (IsHarmless s.session_epoch) here o.hydrate_harmless)
Step-IsSignedOut (hydrate_applies pair {s} here) o =
    absurd (subst (IsHarmless s.session_epoch) here o.hydrate_harmless)
Step-IsSignedOut (refreshes {s}) o =
    if-cases IsSignedOut (is_idle s.refresh_inflight) (refresh_from s.refresh_token s) s
      (λ e.
        subst (λ token. IsSignedOut (refresh_from token s)) (sym o.no_session)
          (with_refresh s reading o tt))
      (λ e. o)
Step-IsSignedOut (refresh_reads {s} here) o =
    subst (λ stored. IsSignedOut (refresh_with stored s)) (sym o.no_stored)
      (with_refresh s idle o tt)
Step-IsSignedOut (refresh_answers epoch token pair {s} here) o =
    refresh_answered-IsSignedOut epoch token pair s here o
Step-IsSignedOut (refresh_fails epoch token failure {s} here) o =
    refresh_failed-IsSignedOut failure s o
Step-IsSignedOut (refresh_stores pair {s} here) o =
    absurd (subst (IsHarmless s.session_epoch) here o.refresh_harmless)
Step-IsSignedOut (refresh_applies pair {s} here) o =
    absurd (subst (IsHarmless s.session_epoch) here o.refresh_harmless)
Step-IsSignedOut (refresh_leaves {s} here) o = with_refresh s idle o tt
Step-IsSignedOut (logs_out {s}) o = logout-IsSignedOut s o
Step-IsSignedOut (logout_answers {s} p) o = record {
  no_session = o.no_session;
  no_stored = o.no_stored;
  hydrate_harmless = o.hydrate_harmless;
  refresh_harmless = o.refresh_harmless;
}
Step-IsSignedOut (logout_deletes {s} p) o = record {
  no_session = refl;
  no_stored = refl;
  hydrate_harmless = o.hydrate_harmless;
  refresh_harmless = o.refresh_harmless;
}

-- Once a session is signed out, with no accepted token pair still being stored and every request
-- that is out from before the last logout, it stays signed out until somebody logs in, whatever
-- refreshes, hydrations, answers and logouts follow, in any order.
pub Run-IsSignedOut : {s t : Auth} → Run s t → IsSignedOut s → IsSignedOut t
Run-IsSignedOut stop o = o
Run-IsSignedOut (step first rest) o = Run-IsSignedOut rest (Step-IsSignedOut first o)
