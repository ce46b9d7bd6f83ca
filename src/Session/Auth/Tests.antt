-- ===== src/Session/Auth/Tests.antt =====
-- Runs of the session store, and its properties at concrete inputs.
use trominal.Shared.{true, false, none, some, ◌≡◌, refl, arith}
use trominal.Session.Auth.{
  api, other, idle, requested, storing, applying, Auth, should_clear_token_on_error, hydrate_failed,
  logout, logout_answered, logout_deleted, refresh, refresh_answered, store_pair, apply_pair, Run,
  stop, step, refresh_answers, refresh_stores, refresh_applies,
}
use trominal.Session.Auth.SignedOut.{IsSignedOut, Run-IsSignedOut}

abbrev signed_in : Auth
signed_in = record {
  refresh_token = some 7;
  stored = some 7;
  session_epoch = 0;
  is_hydrating = false;
  hydrate_error = false;
  hydrate_inflight = idle;
  refresh_inflight = idle;
  login_inflight = idle;
  requesting = 0;
  deleting = 0;
  teardowns = 0;
}

abbrev refreshing : Auth
refreshing = record signed_in { refresh_inflight = requested 0 7 }

refresh_run : refresh signed_in ≡ refreshing
unfolding refresh
refresh_run = refl

rejected_run : should_clear_token_on_error (api 422) ≡ true
unfolding should_clear_token_on_error
rejected_run = refl

offline_run :
    hydrate_failed other (record signed_in { hydrate_inflight = requested 0 7 })
    ≡ record signed_in { hydrate_error = true }
unfolding hydrate_failed
offline_run = refl

abbrev signed_out : Auth
signed_out = logout_deleted (logout_answered (logout refreshing))

-- The answer of a refresh that was in flight at the logout is dropped.
late_answer : Run signed_out (refresh_answered 0 8 signed_out)
unfolding logout_deleted logout_answered logout
late_answer = step (refresh_answers 0 7 8 refl) stop

signed_out-IsSignedOut : IsSignedOut signed_out
unfolding logout_deleted logout_answered logout
signed_out-IsSignedOut = record {
  no_session = refl;
  no_stored = refl;
  hydrate_harmless = tt;
  refresh_harmless = omega arith;
}

Run-IsSignedOut_run : IsSignedOut (refresh_answered 0 8 signed_out)
Run-IsSignedOut_run = Run-IsSignedOut late_answer signed_out-IsSignedOut

-- The answer arrives before the logout, and is stored and applied after it: the session is back.
abbrev accepted : Auth
accepted = refresh_answered 0 8 refreshing

abbrev ended : Auth
ended = logout_deleted (logout_answered (logout accepted))

ended_run :
    (ended.refresh_token ≡ none) × (ended.stored ≡ none) × (ended.refresh_inflight ≡ storing 8)
unfolding logout_deleted logout_answered logout refresh_answered
ended_run = (refl, refl, refl)

abbrev restored : Auth
restored = record ended { stored = some 8; refresh_inflight = applying 8 }

abbrev resurrected : Auth
resurrected = record ended { stored = some 8; refresh_token = some 8; refresh_inflight = idle }

resurrection : Run ended resurrected
unfolding logout_deleted logout_answered logout refresh_answered store_pair apply_pair
resurrection = step (refresh_stores 8 refl) (step (refresh_applies 8 refl) stop)
