-- ===== src/Scheduler/Failures.antt =====
-- The cooldown after a failed fetch (internal/scheduler/scheduler.go, `fetchCooldownRemaining`,
-- `recordFetchFailure`, `clearFetchFailure`). Times are nanoseconds since 1970. Durations are
-- nanoseconds too, and 0 stands for one that is not positive. The order of the list is the order in
-- which a `range` over the map runs.
pub mod Oldest
pub mod Laws
use sonarr_anime_bridge.Prelude.{
  ℕ, ◌+◌, ◌-◌, ◌*◌, ◌^◌, ◌==◌, ltb, leb, min, Bool, not, ◌&&◌, if◌then◌else◌, List, [], ◌∷◌, Option,
  none, some, length, keep, lookup, delete, insert, has, ℤ, pos, ℤ_discrete as dec,
}

pub record FetchFailure : Type 0 where
  pub retry_at : ℕ
  pub delay : ℕ

abbrev pub fetch_retry_base : ℕ
fetch_retry_base = 15 * 10 ^ 9

abbrev pub fetch_retry_max : ℕ
fetch_retry_max = 5 * 60 * 10 ^ 9

abbrev pub max_tracked_fetch_failures : ℕ
max_tracked_fetch_failures = 256

-- `s.fetchRetryBase` and `s.fetchRetryMax`, and what is used in place of them when they make no sense.
pub record RetryLimits : Type 0 where
  pub base : ℕ
  pub maximum : ℕ

abbrev pub base_delay : RetryLimits → ℕ
base_delay limits = if limits.base == 0 then fetch_retry_base else limits.base

abbrev pub max_delay : RetryLimits → ℕ
max_delay limits =
    if ltb limits.maximum (base_delay limits) then fetch_retry_max else limits.maximum

unfoldable pub fetch_cooldown_remaining : ℤ → ℕ → List (ℤ × FetchFailure) → ℕ
fetch_cooldown_remaining year now failures = elim (lookup dec year failures) [
  | none ↦ 0
  | some failure ↦ failure.retry_at - now
]

-- The delay before the limit: that of the previous failure doubled, or the base.
abbrev pub next_delay : RetryLimits → Option FetchFailure → ℕ
next_delay limits none = base_delay limits
next_delay limits (some previous) =
    if ltb 0 previous.delay then previous.delay * 2 else base_delay limits

unfoldable pub retry_delay : RetryLimits → Option FetchFailure → ℕ
retry_delay limits previous =
    if ltb (max_delay limits) (next_delay limits previous)
    then max_delay limits
    else next_delay limits previous

-- A failure is forgotten when its retry time is more than the longest delay ago.
abbrev pub is_recent : RetryLimits → ℕ → ℤ × FetchFailure → Bool
is_recent limits now (year, failure) = not (ltb (failure.retry_at + max_delay limits) now)

-- The loop for the oldest failure; the zero time of Go is `none`.
unfoldable pub oldest_from :
    List (ℤ × FetchFailure) → Option (ℤ × FetchFailure) → Option (ℤ × FetchFailure)
oldest_from [] oldest = oldest
oldest_from (e ∷ failures) none = oldest_from failures (some e)
oldest_from (e ∷ failures) (some (year, oldest)) =
    oldest_from failures (if ltb e.1.retry_at oldest.retry_at then some e else some (year, oldest))

unfoldable pub delete_oldest : List (ℤ × FetchFailure) → List (ℤ × FetchFailure)
unfolding oldest_from
delete_oldest failures = elim (oldest_from failures none) [
  | none ↦ delete dec (pos 0) failures
  | some (year, oldest) ↦ delete dec year failures
]

unfoldable pub make_room : ℤ → List (ℤ × FetchFailure) → List (ℤ × FetchFailure)
unfolding delete_oldest
make_room year failures =
    if not (has dec year failures) && leb max_tracked_fetch_failures (length failures)
    then delete_oldest failures
    else failures

unfoldable pub record_fetch_failure :
    RetryLimits → ℤ → ℕ → List (ℤ × FetchFailure) → List (ℤ × FetchFailure)
unfolding retry_delay make_room
record_fetch_failure limits year now failures =
    let delay = retry_delay limits (lookup dec year failures) in
    insert dec year (record { retry_at = now + delay; delay = delay })
      (make_room year (keep (is_recent limits now) failures))

unfoldable pub clear_fetch_failure : ℤ → List (ℤ × FetchFailure) → List (ℤ × FetchFailure)
clear_fetch_failure year failures = delete dec year failures
