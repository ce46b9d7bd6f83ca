-- ===== src/Session/Auth.antt =====
-- apps/client/src/stores/auth.ts, cut at its awaits: each function is the code from one await to the
-- next, and a flight says at which await a call stands. A token pair is the number of its refresh
-- token; the user and the access token come and go with it.
pub mod SignedOut
mod Tests
use trominal.Shared.{
  ℕ, suc, ◌-◌, ◌<◌, Bool, true, false, ◌||◌, Option, none, some, if◌then◌else◌, ◌==◌, ◌≡◌,
}

pub data Failure : Type 0 where
  -- A `TrominalApiError` with its status, and anything else.
  api : ℕ → Failure
  other : Failure

pub data Flight : Type 0 where
  idle : Flight
  -- Awaits the stored refresh token.
  reading : Flight
  -- Awaits the answer to a request that was made in this epoch with this token.
  requested : ℕ → ℕ → Flight
  -- Awaits the storage, and then the API client, with the new pair.
  storing applying : ℕ → Flight
  -- Awaits the deletion of the stored token, or the logout.
  clearing : Flight

pub record Auth : Type 0 where
  pub refresh_token : Option ℕ
  pub stored : Option ℕ
  pub session_epoch : ℕ
  pub is_hydrating : Bool
  pub hydrate_error : Bool
  pub hydrate_inflight : Flight
  pub refresh_inflight : Flight
  -- A login or a registration.
  pub login_inflight : Flight
  -- Logouts that await their request, and those that await the deletion.
  pub requesting : ℕ
  pub deleting : ℕ
  -- How often the session was torn down.
  pub teardowns : ℕ

unfoldable pub should_clear_token_on_error : Failure → Bool
should_clear_token_on_error (api status) = (status == 401) || (status == 422)
should_clear_token_on_error other = false

abbrev pub is_idle : Flight → Bool
is_idle idle = true
is_idle _ = false

-- `hydrate()`; a call while another one is in flight joins it.
unfoldable pub hydrate : Auth → Auth
hydrate s =
    if is_idle s.hydrate_inflight
    then record s { is_hydrating = true; hydrate_error = false; hydrate_inflight = reading }
    else s

abbrev pub hydrated : Auth → Auth
hydrated s = record s { is_hydrating = false; hydrate_inflight = idle }

abbrev pub hydrate_with : Option ℕ → Auth → Auth
hydrate_with none s = hydrated s
hydrate_with (some token) s = record s { hydrate_inflight = requested s.session_epoch token }

unfoldable pub hydrate_read : Auth → Auth
hydrate_read s = hydrate_with s.stored s

-- The answer to a request of epoch `epoch`.
unfoldable pub hydrate_answered : (epoch pair : ℕ) → Auth → Auth
hydrate_answered epoch pair s =
    if epoch == s.session_epoch then record s { hydrate_inflight = storing pair } else hydrated s

unfoldable pub hydrate_failed : Failure → Auth → Auth
unfolding should_clear_token_on_error
hydrate_failed failure s =
    if should_clear_token_on_error failure
    then record s { hydrate_inflight = clearing }
    else record s { is_hydrating = false; hydrate_error = true; hydrate_inflight = idle }

unfoldable pub hydrate_cleared : Auth → Auth
hydrate_cleared s = record s {
  refresh_token = none;
  stored = none;
  is_hydrating = false;
  hydrate_error = true;
  hydrate_inflight = idle;
  teardowns = suc s.teardowns;
}

unfoldable pub logout : Auth → Auth
logout s = record s {
  session_epoch = suc s.session_epoch;
  teardowns = suc s.teardowns;
  requesting = suc s.requesting;
}

-- The request came back, in whatever way.
unfoldable pub logout_answered : Auth → Auth
logout_answered s = record s { requesting = s.requesting - 1; deleting = suc s.deleting }

unfoldable pub logout_deleted : Auth → Auth
logout_deleted s = record s {
  refresh_token = none;
  stored = none;
  is_hydrating = false;
  hydrate_error = false;
  deleting = s.deleting - 1;
}

-- `refresh()` takes the token in memory, else it awaits the stored one.
abbrev pub refresh_from : Option ℕ → Auth → Auth
refresh_from none s = record s { refresh_inflight = reading }
refresh_from (some token) s = record s { refresh_inflight = requested s.session_epoch token }

unfoldable pub refresh : Auth → Auth
refresh s = if is_idle s.refresh_inflight then refresh_from s.refresh_token s else s

abbrev pub refresh_with : Option ℕ → Auth → Auth
refresh_with none s = record s { refresh_inflight = idle }
refresh_with (some token) s = record s { refresh_inflight = requested s.session_epoch token }

unfoldable pub refresh_read : Auth → Auth
refresh_read s = refresh_with s.stored s

unfoldable pub refresh_answered : (epoch pair : ℕ) → Auth → Auth
refresh_answered epoch pair s =
    if epoch == s.session_epoch
    then record s { refresh_inflight = storing pair }
    else record s { refresh_inflight = idle }

unfoldable pub refresh_failed : Failure → Auth → Auth
unfolding should_clear_token_on_error logout
refresh_failed failure s =
    if should_clear_token_on_error failure
    then logout (record s { refresh_inflight = clearing })
    else record s { refresh_inflight = idle }

unfoldable pub login_answered : ℕ → Auth → Auth
login_answered pair s = record s { login_inflight = storing pair }

-- `applyTokenPair` of the three flights, up to its second await, and from there.
unfoldable pub store_pair : ℕ → Auth → Auth
store_pair pair s = record s { stored = some pair }

unfoldable pub apply_pair : ℕ → Auth → Auth
apply_pair pair s = record s { refresh_token = some pair }

pub data Step : Auth → Auth → Type 0 where
  hydrates : {s : Auth} → Step s (hydrate s)
  hydrate_reads : {s : Auth} → s.hydrate_inflight ≡ reading → Step s (hydrate_read s)
  hydrate_answers :
      (epoch token pair : ℕ) {s : Auth}
      → s.hydrate_inflight ≡ requested epoch token
      → Step s (hydrate_answered epoch pair s)
  hydrate_fails :
      (epoch token : ℕ) (failure : Failure) {s : Auth}
      → s.hydrate_inflight ≡ requested epoch token
      → Step s (hydrate_failed failure s)
  hydrate_clears : {s : Auth} → s.hydrate_inflight ≡ clearing → Step s (hydrate_cleared s)
  hydrate_stores :
      (pair : ℕ) {s : Auth}
      → s.hydrate_inflight ≡ storing pair
      → Step s (record (store_pair pair s) { hydrate_inflight = applying pair })
  hydrate_applies :
      (pair : ℕ) {s : Auth}
      → s.hydrate_inflight ≡ applying pair
      → Step s (hydrated (apply_pair pair s))
  refreshes : {s : Auth} → Step s (refresh s)
  refresh_reads : {s : Auth} → s.refresh_inflight ≡ reading → Step s (refresh_read s)
  refresh_answers :
      (epoch token pair : ℕ) {s : Auth}
      → s.refresh_inflight ≡ requested epoch token
      → Step s (refresh_answered epoch pair s)
  refresh_fails :
      (epoch token : ℕ) (failure : Failure) {s : Auth}
      → s.refresh_inflight ≡ requested epoch token
      → Step s (refresh_failed failure s)
  refresh_stores :
      (pair : ℕ) {s : Auth}
      → s.refresh_inflight ≡ storing pair
      → Step s (record (store_pair pair s) { refresh_inflight = applying pair })
  refresh_applies :
      (pair : ℕ) {s : Auth}
      → s.refresh_inflight ≡ applying pair
      → Step s (record (apply_pair pair s) { refresh_inflight = idle })
  -- The logout that a rejected refresh waits for is over.
  refresh_leaves :
      {s : Auth} → s.refresh_inflight ≡ clearing → Step s (record s { refresh_inflight = idle })
  logs_out : {s : Auth} → Step s (logout s)
  logout_answers : {s : Auth} → 0 < s.requesting → Step s (logout_answered s)
  logout_deletes : {s : Auth} → 0 < s.deleting → Step s (logout_deleted s)

-- Any number of steps in which nobody logs in.
pub data Run : Auth → Auth → Type 0 where
  stop : {s : Auth} → Run s s
  step : {s t u : Auth} → Step s t → Run t u → Run s u
