-- ===== src/Tests/Coalescing.antt =====
-- Two calls that fetch the same year.
use sonarr_anime_bridge.Prelude.{ℕ, ◌≡◌, refl, true, none, ℤ_discrete, ℕ_discrete, pos}
use sonarr_anime_bridge.Scheduler.Flights.{
  FetchResult, Flights, join, close_done, receive, joins, ends_fetch, gets, no_flights, Flies,
  takes_off, flies,
}
use sonarr_anime_bridge.Scheduler.Flights.Laws.{Flies-inflight, IsAnswered, Flies-IsAnswered}

abbrev fetched : FetchResult
fetched = (true, none)

-- Call 1 waits for call 0.
abbrev waiting : Flights
waiting = join (pos 2024) (join (pos 2024) no_flights)

abbrev landed : Flights
landed = close_done 0 (pos 2024) fetched waiting

abbrev shared : Flights
shared = receive 1 (pos 2024) 0 fetched landed

waiting-Flies : Flies waiting
waiting-Flies =
    flies (join (pos 2024) no_flights) waiting (flies no_flights _ takes_off (joins (pos 2024)))
      (joins (pos 2024))

shared-Flies : Flies shared
unfolding join close_done receive ℕ_discrete ℤ_discrete
shared-Flies =
    flies landed shared (flies waiting landed waiting-Flies (ends_fetch 0 (pos 2024) fetched refl))
      (gets 1 (pos 2024) 0 fetched refl refl)

Flies-inflight_example : ◌≡◌ {A = ℕ} 0 0
unfolding join ℕ_discrete ℤ_discrete
Flies-inflight_example = Flies-inflight waiting (pos 2024) 0 0 waiting-Flies refl refl

Flies-IsAnswered_example : IsAnswered shared 1 (shared.calls 1)
Flies-IsAnswered_example = Flies-IsAnswered shared 1 shared-Flies
