-- ===== src/Tests/Scheduling.antt =====
-- The background tasks, the cooldowns, and the discovery of new mappings.
use sonarr_anime_bridge.Prelude.{
  ℕ, ◌+◌, ◌*◌, ◌^◌, ◌≤◌, ◌≡◌, ◌↔◌, refl, min, true, List, [], ◌∷◌, ◌++◌, none, some, arith, length,
  lookup, has, ℤ, pos, ℤ_discrete as dec,
}
use sonarr_anime_bridge.Cache.Seen.{SeenMapping}
use sonarr_anime_bridge.Cache.Seen.Laws.{quiet}
use sonarr_anime_bridge.Mapping.{ResolvedShow}
use sonarr_anime_bridge.Scheduler.Tasks.{
  Background, new_background, schedule_year_fetch, close_background_fetches, end_task, wait_done,
  schedules, Reaches, here, next, scheduled, already_scheduled,
}
use sonarr_anime_bridge.Scheduler.Tasks.Laws.{
  fetches, Reaches-fetches, Reaches-end_task, Reaches-closed,
}
use sonarr_anime_bridge.Scheduler.Failures.{
  FetchFailure, RetryLimits, base_delay, max_delay, record_fetch_failure,
}
use sonarr_anime_bridge.Scheduler.Failures.Laws.{
  IsBounded, failures_after, record_fetch_failure-IsBounded, failures_after-delay,
}
use sonarr_anime_bridge.Scheduler.Track.{TrackAnswers}
use sonarr_anime_bridge.Show.{Show}
use sonarr_anime_bridge.Tests.Data.{winter_show, december_show}

-- One year is scheduled.
abbrev busy : Background
busy = (schedule_year_fetch (pos 2024) new_background).0

abbrev shut : Background
shut = close_background_fetches busy

to_busy : Reaches new_background busy
to_busy = next new_background busy here (schedules (pos 2024))

Reaches-fetches_example :
    (busy.wg ≡ length busy.goroutines)
    × (fetches (pos 2024) busy.goroutines ≤ 1)
    × ((has dec (pos 2024) busy.year_tasks ≡ true) ↔ (fetches (pos 2024) busy.goroutines ≡ 1))
Reaches-fetches_example = Reaches-fetches busy (pos 2024) to_busy

Reaches-end_task_example :
    (b' : Background) × (end_task (some (pos 2024)) ([] ++ []) busy ≡ some b')
    × ((schedule_year_fetch (pos 2024) busy).1 ≡ already_scheduled)
    × ((schedule_year_fetch (pos 2024) b').1 ≡ scheduled)
unfolding schedule_year_fetch new_background lookup
Reaches-end_task_example = Reaches-end_task busy [] [] (pos 2024) to_busy refl refl refl

Reaches-closed_example :
    (shut.bg_closed ≡ true)
    × (shut.wg ≤ busy.wg)
    × ((wait_done shut ≡ true) ↔ (shut.goroutines ≡ []))
Reaches-closed_example = Reaches-closed busy shut to_busy here tt

abbrev limits : RetryLimits
limits = record { base = 15000; maximum = 300000 }

abbrev failures : List (ℤ × FetchFailure)
failures = (pos 2023, record { retry_at = 500; delay = 15000 }) ∷ []

failures-IsBounded : IsBounded failures
unfolding lookup
failures-IsBounded = record { distinct = (refl, tt); few = omega arith }

record_fetch_failure-IsBounded_example :
    IsBounded (record_fetch_failure limits (pos 2024) 1000 failures)
record_fetch_failure-IsBounded_example =
    record_fetch_failure-IsBounded (pos 2024) limits 1000 failures failures-IsBounded

abbrev earlier : List ℕ
earlier = 2000 ∷ 1000 ∷ []

failures_after-delay_example :
    (failure : FetchFailure) × (lookup dec
        (pos 2024)
        (failures_after (pos 2024) limits (3000 ∷ earlier) failures)
      ≡ some failure)
    × (failure.delay ≡ min (base_delay limits * 2 ^ length earlier) (max_delay limits))
    × (failure.retry_at ≡ 3000 + failure.delay)
unfolding lookup dec
failures_after-delay_example = failures_after-delay (pos 2024) limits 3000 earlier failures refl

abbrev fine : TrackAnswers
fine = record { counting = none; begin = none; inserting = quiet; commit = none }

abbrev seen : SeenMapping
seen = record {
  tvdb_id = pos 7000;
  anilist_id = pos 101;
  title = "Alpha";
  season = "WINTER";
  year = pos 2024;
  starts_at = "";
  first_seen_at = 4;
}

abbrev batch : List (ℤ × ResolvedShow)
batch =
    (pos 101, record { tvdb_id = pos 7000; title = "Alpha"; resolved = true })
    ∷ (pos 102, record { tvdb_id = pos 7200; title = "Alpha"; resolved = true })
    ∷ []

abbrev requested : List Show
requested = winter_show ∷ december_show ∷ []

abbrev first_run : ℕ
first_run = 200000 * 10 ^ 9

abbrev second_run : ℕ
second_run = 300000 * 10 ^ 9
