-- ===== src/Tests/Fetching.antt =====
-- The AniList client and the fetch of a year.
use sonarr_anime_bridge.Prelude.{
  ℕ, zero, suc, ◌+◌, ◌≤◌, ◌<◌, ◌≡◌, ◌⊎◌, inl, inr, refl, Bool, true, false, ◌||◌, if◌then◌else◌,
  List, [], ◌∷◌, Option, none, some, arith, leb, lookup, pos,
}
use sonarr_anime_bridge.Show.{Show}
use sonarr_anime_bridge.Retry.{ok}
use sonarr_anime_bridge.Cache.{read_year}
use sonarr_anime_bridge.DecodedYear.{DecodedYear}
use sonarr_anime_bridge.Client.Paging.{max_pages, fetched, refused, too_many_pages, fetch_year}
use sonarr_anime_bridge.Client.Paging.Laws.{going, serves, fetch_year-serves}
use sonarr_anime_bridge.Client.Paging.Batch.{pages_from}
use sonarr_anime_bridge.Client.Limits.{
  RateLimit, admitted, waits, exceeds_bound, admit_at, max_retry_after, rate_limit_delay, Headers,
  is_zero, observe_allowance,
}
use sonarr_anime_bridge.Client.Limits.Laws.{ReadyBy, admit_at-cases, observe_allowance-cooldown}
use sonarr_anime_bridge.Client.Request.{Reply, unreachable, responds, received, do_request}
use sonarr_anime_bridge.Client.Request.Laws.{IsRetried, do_request_lem}
use sonarr_anime_bridge.Scheduler.Failures.{RetryLimits, fetch_cooldown_remaining}
use sonarr_anime_bridge.Scheduler.Fetch.{
  failure, cooldown, upstream, fails, returns, FetchState, fetch_upstream, fetch_and_store,
}
use sonarr_anime_bridge.Scheduler.Fetch.Laws.{
  fetch_and_store-read_year, fetch_and_store-fetch_and_store,
}
use sonarr_anime_bridge.Tests.Data.{winter_show, december_show, cache, noon}

-- A year of six pages.
abbrev listing : ℕ → List Show
listing zero = []
listing (suc k) = winter_show ∷ december_show ∷ []

fetch_year-serves_example :
    fetch_year (going listing 6) (serves listing 6)
    ≡ (if leb 6 max_pages then fetched (pages_from listing 6 1 6) else refused too_many_pages)
fetch_year-serves_example = fetch_year-serves listing 6 (omega arith)

abbrev limits : RateLimit
limits = record { interval = rate_limit_delay; last_admission = 5000; cooldown_until = 0 }

admit_at-cases_example :
    (ReadyBy limits 0 6000
      × (admit_at 6000 0 limits ≡ admitted (record limits { last_admission = 6000 })))
    ⊎ ((wait : ℕ) × (admit_at 6000 0 limits ≡ waits wait)
        × (0 < wait)
        × (wait ≤ max_retry_after)
        × ReadyBy limits 0 (6000 + wait)
        × ((6000 + wait ≡ limits.last_admission + limits.interval)
            ⊎ ((6000 + wait ≡ limits.cooldown_until) ⊎ (6000 + wait ≡ 0)))
        × (admit_at (6000 + wait) 0 limits
            ≡ admitted (record limits { last_admission = 6000 + wait })))
    ⊎ ((admit_at 6000 0 limits ≡ exceeds_bound)
        × ((6000 + max_retry_after < limits.last_admission + limits.interval)
            ⊎ ((6000 + max_retry_after < limits.cooldown_until) ⊎ (6000 + max_retry_after < 0))))
admit_at-cases_example = admit_at-cases 6000 0 limits

abbrev headers : Headers
headers = record {
  limit = some (pos 30);
  remaining = some (pos 0);
  reset = none;
  retry_after_given = true;
  retry_after = some (pos 7);
}

abbrev pace : ℕ → ℕ
pace limit = 2222222222

observe_allowance-cooldown_example :
    (limits.cooldown_until ≤ (observe_allowance pace 6000 true headers limits).0.cooldown_until)
    × (rate_limit_delay ≤ (observe_allowance pace 6000 true headers limits).0.interval)
    × ((observe_allowance pace 6000 true headers limits).0.last_admission ≡ limits.last_admission)
    × (((true || is_zero headers.remaining) ≡ false)
        ⊎ (6000 < (observe_allowance pace 6000 true headers limits).0.cooldown_until))
observe_allowance-cooldown_example =
    observe_allowance-cooldown pace 6000 true headers limits (omega arith)

-- A transport error, a 503, then a body.
abbrev replies : ℕ → Reply ℕ
replies zero = unreachable false
replies (suc zero) = responds 503 false none
replies (suc (suc k)) = responds 200 false (some 42)

abbrev never : ℕ → Bool
never k = false

twice-IsRetried : (k : ℕ) → k < 2 → IsRetried (replies k)
twice-IsRetried zero h = refl
twice-IsRetried (suc zero) h = (refl, inr (λ e. absurd (omega (arith, e)), inr (omega arith)))
twice-IsRetried (suc (suc k)) h = absurd (omega arith)

do_request_lem_example : do_request never replies ≡ (received 42, 3)
do_request_lem_example =
    do_request_lem never replies 2 (omega arith) (λ k h. refl) twice-IsRetried (refl, inl refl)

abbrev retry_limits : RetryLimits
retry_limits = record { base = 15000; maximum = 300000 }

abbrev encode : List Show → Option (List ℕ)
encode [] = some (0 ∷ [])
encode (s ∷ shows) = some (1 ∷ [])

abbrev absent : DecodedYear
absent = record { shows = []; fresh = false; present = false; decode_err = false }

abbrev state : FetchState
state = record { cache = cache; failures = [] }

fetch_and_store-read_year_example :
    (s' : FetchState) × (fetch_and_store retry_limits encode
        (pos 2024)
        (ok absent)
        100
        failure
        (returns (winter_show ∷ []))
        noon
        none
        200
        state
      ≡ (s', true, none))
    × ((read_year (pos 2024) true noon none s'.cache).1
        ≡ ok (some (record { raw = 1 ∷ []; fresh = true })))
    × (fetch_cooldown_remaining (pos 2024) 200 s'.failures ≡ 0)
unfolding fetch_cooldown_remaining lookup
fetch_and_store-read_year_example =
    fetch_and_store-read_year retry_limits encode (pos 2024) absent failure 100 200
      (winter_show ∷ []) (1 ∷ []) noon true state refl refl refl (omega arith) (omega arith)

fetch_and_store-fetch_and_store_example :
    (s' : FetchState) × (fetch_and_store retry_limits encode
        (pos 2024)
        (ok absent)
        100
        failure
        (fails failure)
        noon
        none
        200
        state
      ≡ (s', false, some (record { stage = upstream; cause = failure })))
    × (s'.cache ≡ cache)
    × (fetch_and_store retry_limits encode
          (pos 2024)
          (ok absent)
          200
          failure
          (returns (winter_show ∷ []))
          noon
          none
          300
          s'
        ≡ (s', false, some (record { stage = cooldown; cause = failure })))
unfolding fetch_cooldown_remaining lookup fetch_upstream
fetch_and_store-fetch_and_store_example =
    fetch_and_store-fetch_and_store retry_limits encode (pos 2024) absent failure 100 200 300
      (fails failure) (returns (winter_show ∷ [])) noon noon none none
      (record { stage = upstream; cause = failure }) state refl refl refl refl
