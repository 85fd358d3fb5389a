-- ===== src/Scheduler/Fetch.antt =====
-- The fetch of one year (internal/scheduler/scheduler.go, `fetchAndStore` from the point where the call
-- owns the year; Flights has the calls that share it). What the cache, AniList and
-- the database answer, and the clock at each look at it, are arguments. `json.Marshal` is the argument
-- `encode`.
pub mod Laws
use sonarr_anime_bridge.Prelude.{
  ℕ, ltb, Bool, true, false, not, ◌&&◌, if◌then◌else◌, List, Option, none, some, ℤ,
}
use sonarr_anime_bridge.Show.{Show}
use sonarr_anime_bridge.Retry.{DbError, sqlite, no_rows, other, canceled, DbResult, ok, err}
use sonarr_anime_bridge.Cache.{Cache, Clock, set_year}
use sonarr_anime_bridge.DecodedYear.{DecodedYear}
use sonarr_anime_bridge.Scheduler.Failures.{
  FetchFailure, RetryLimits, fetch_cooldown_remaining, record_fetch_failure, clear_fetch_failure,
}

-- What `errors.Is` tells of an error: `context.Canceled`, `context.DeadlineExceeded`, or neither.
pub data Cause : Type 0 where
  context_canceled deadline_exceeded failure : Cause

-- The values of the variable `stage`, and `panicked` for a recovered panic.
pub data Stage : Type 0 where
  cache_check cooldown upstream encode_stage cache_write panicked : Stage

pub record FetchError : Type 0 where
  pub stage : Stage
  pub cause : Cause

-- What `FetchYear` does.
pub data Upstream : Type 0 where
  returns : List Show → Upstream
  fails : Cause → Upstream
  panics : Upstream

pub record FetchState : Type 0 where
  pub cache : Cache
  pub failures : List (ℤ × FetchFailure)

-- `canceled` stands for the end of the context, whose cause is the first argument.
abbrev pub cause_of : Cause → DbError → Cause
cause_of ended (sqlite code) = failure
cause_of ended no_rows = failure
cause_of ended other = failure
cause_of ended canceled = ended

abbrev pub is_canceled : Cause → Bool
is_canceled context_canceled = true
is_canceled deadline_exceeded = false
is_canceled failure = false

abbrev pub write_error : Cause → Option DbError → Option FetchError
write_error ended none = none
write_error ended (some e) = some (record { stage = cache_write; cause = cause_of ended e })

-- The deferred function: the failures after the call, and the results `fetched` and `err`.
unfoldable pub finish_fetch :
    RetryLimits
    → ℤ
    → ℕ
    → Bool
    → Option FetchError
    → FetchState
    → FetchState × Bool × Option FetchError
finish_fetch limits year finished attempted none s =
    (record s { failures = clear_fetch_failure year s.failures }, attempted, none)
finish_fetch limits year finished attempted (some e) s = (
  if attempted && not (is_canceled e.cause)
      then record s { failures = record_fetch_failure limits year finished s.failures }
      else s,
  false,
  some e,
)

-- What the body does once it goes upstream: the cache, and the error.
unfoldable pub fetch_upstream :
    (List Show → Option (List ℕ))
    → ℤ
    → Cause
    → Upstream
    → Clock
    → Option DbError
    → Cache
    → Cache × Option FetchError
fetch_upstream encode year ended panics stored write c =
    (c, some (record { stage = panicked; cause = failure }))
fetch_upstream encode year ended (fails cause) stored write c =
    (c, some (record { stage = upstream; cause = cause }))
fetch_upstream encode year ended (returns shows) stored write c = elim (encode shows) [
  | none ↦ (c, some (record { stage = encode_stage; cause = failure }))
  | some bytes ↦
      let (c', answer) = set_year year bytes stored write c in (c', write_error ended answer)
]

-- A year in the cache that is fresh and decodes.
abbrev pub is_served : DecodedYear → Bool
is_served cached = cached.present && (cached.fresh && not cached.decode_err)

unfoldable pub fetch_and_store :
    RetryLimits
    → (List Show → Option (List ℕ))
    → ℤ
    → DbResult DecodedYear
    → ℕ
    → Cause
    → Upstream
    → Clock
    → Option DbError
    → ℕ
    → FetchState
    → FetchState × Bool × Option FetchError
unfolding finish_fetch fetch_upstream
fetch_and_store limits encode year (err e) checked ended up stored write finished s =
    finish_fetch limits year finished false
      (some (record { stage = cache_check; cause = cause_of ended e })) s
fetch_and_store limits encode year (ok cached) checked ended up stored write finished s =
    if is_served cached
    then finish_fetch limits year finished false none s
    else if ltb 0 (fetch_cooldown_remaining year checked s.failures)
    then finish_fetch limits year finished false
        (some (record { stage = cooldown; cause = failure })) s
    else let (c, e) = fetch_upstream encode year ended up stored write s.cache in
      finish_fetch limits year finished true e (record s { cache = c })
