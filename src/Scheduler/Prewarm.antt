-- ===== src/Scheduler/Prewarm.antt =====
-- The fetches of several years (internal/scheduler/scheduler.go, `Prewarm` and `refreshStaleYears`). What each
-- fetch gets as answers, and whether the context has ended, are arguments.
pub mod Fates
pub mod Laws
use sonarr_anime_bridge.Prelude.{
  ℕ, ◌+◌, Bool, true, false, not, ◌&&◌, if◌then◌else◌, List, [], ◌∷◌, length, Option, none, some, ℤ,
  pos,
}
use sonarr_anime_bridge.Show.{Show}
use sonarr_anime_bridge.Retry.{DbError, DbResult, ok, err}
use sonarr_anime_bridge.Cache.{Clock, needs_refresh_years}
use sonarr_anime_bridge.DecodedYear.{DecodedYear}
use sonarr_anime_bridge.Scheduler.Failures.{RetryLimits}
use sonarr_anime_bridge.Scheduler.Fetch.{
  Cause, FetchError, Upstream, FetchState, is_served, fetch_and_store,
}

-- The arguments of one call of `fetch_and_store`.
pub record FetchAnswers : Type 0 where
  pub cached : DbResult DecodedYear
  pub checked : ℕ
  pub ended : Cause
  pub up : Upstream
  pub stored : Clock
  pub write : Option DbError
  pub finished : ℕ

abbrev pub Encode : Type 0
Encode = List Show → Option (List ℕ)

abbrev pub fetch_with :
    RetryLimits → Encode → ℤ → FetchAnswers → FetchState → FetchState × Bool × Option FetchError
fetch_with limits encode year f s =
    fetch_and_store limits encode year f.cached f.checked f.ended f.up f.stored f.write f.finished s

pub data PrewarmError : Type 0 where
  context_ended : Cause → PrewarmError
  not_fetched : FetchError → PrewarmError
  not_hydrated : DbError → PrewarmError

-- For one year: whether the context has ended at first, the year in the cache, the fetch, whether the
-- context has ended after it, and the error of reading the stored year.
pub record YearAnswers : Type 0 where
  pub ends_before : Bool
  pub peek : DbResult DecodedYear
  pub fetch : FetchAnswers
  pub ends_after : Bool
  pub hydrate : Option DbError

pub record Prewarming : Type 0 where
  pub state : FetchState
  pub cached : ℕ
  pub fetched : ℕ
  pub failed : ℕ
  pub error : Option PrewarmError

abbrev pub is_cached : DbResult DecodedYear → Bool
is_cached (err e) = false
is_cached (ok data_) = is_served data_

-- The error that is kept is the first one.
abbrev pub first_error : Option PrewarmError → PrewarmError → Option PrewarmError
first_error none e = some e
first_error (some first) e = some first

abbrev pub hydrate_error : Option PrewarmError → Option DbError → Option PrewarmError
hydrate_error error none = error
hydrate_error error (some e) = first_error error (not_hydrated e)

-- After the fetch of a year: the counts, and whether the loop is left.
unfoldable pub count_fetch :
    Cause → Bool → Option DbError → Bool → Option FetchError → Prewarming → Prewarming × Bool
count_fetch ended ends_after hydrate did_fetch (some e) p =
    if ends_after
    then (record p { failed = p.failed + 1; error = some (context_ended ended) }, true)
    else (record p { failed = p.failed + 1; error = first_error p.error (not_fetched e) }, false)
count_fetch ended ends_after hydrate did_fetch none p =
    let error = if ends_after then p.error else hydrate_error p.error hydrate in
    if did_fetch
    then (record p { fetched = p.fetched + 1; error = error }, false)
    else (record p { cached = p.cached + 1; error = error }, false)

unfoldable pub prewarm_year :
    RetryLimits → Encode → Cause → ℤ → YearAnswers → Prewarming → Prewarming × Bool
prewarm_year limits encode ended year a p =
    if a.ends_before
    then (record p { error = some (context_ended ended) }, true)
    else if is_cached a.peek
    then (record p { cached = p.cached + 1 }, false)
    else let (s, did_fetch, e) = fetch_with limits encode year a.fetch p.state in
      count_fetch ended a.ends_after a.hydrate did_fetch e (record p { state = s })

unfoldable pub prewarm_from :
    RetryLimits → Encode → Cause → List (ℤ × YearAnswers) → Prewarming → Prewarming
prewarm_from limits encode ended [] p = p
prewarm_from limits encode ended ((year, a) ∷ years) p =
    let (p', left) = prewarm_year limits encode ended year a p in
    elim left [ true ↦ p' | false ↦ prewarm_from limits encode ended years p' ]

abbrev pub not_started : FetchState → Prewarming
not_started s = record { state = s; cached = 0; fetched = 0; failed = 0; error = none }

unfoldable pub prewarm :
    RetryLimits → Encode → Cause → List (ℤ × YearAnswers) → FetchState → Prewarming
unfolding prewarm_from
prewarm limits encode ended years s = prewarm_from limits encode ended years (not_started s)

-- `refreshStaleYears`: the answers are given for each year.
unfoldable pub refresh_from :
    RetryLimits → Encode → (ℤ → Bool × FetchAnswers) → List ℤ → FetchState → FetchState
refresh_from limits encode answers [] s = s
refresh_from limits encode answers (year ∷ years) s = elim (answers year).0 [
  | true ↦ s
  | false ↦
      refresh_from limits encode answers years (fetch_with limits encode year (answers year).1 s).0
]

abbrev pub refresh_all :
    RetryLimits → Encode → (ℤ → Bool × FetchAnswers) → DbResult (List ℤ) → FetchState → FetchState
refresh_all limits encode answers (err e) s = s
refresh_all limits encode answers (ok years) s = refresh_from limits encode answers years s

unfoldable pub refresh_stale_years :
    RetryLimits
    → Encode
    → Clock
    → Option DbError
    → (ℤ → Bool × FetchAnswers)
    → FetchState
    → FetchState
unfolding refresh_from
refresh_stale_years limits encode now answer answers s =
    refresh_all limits encode answers (needs_refresh_years now.year 1 7 now answer s.cache) s
