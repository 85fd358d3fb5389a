-- ===== src/Scheduler/Flights.antt =====
-- The coalescing of fetches of the same year (internal/scheduler/scheduler.go, `fetchAndStore` around its map
-- `inflight`). A call is named by its number, and an `*inflightResult` by the call that allocated it. The
-- first call of a year owns its fetch, whose result is any; the others wait for it. The owner closes
-- the channel and then deletes the year, and other calls may come in between.
pub mod Moves
pub mod Steps
pub mod Laws
use sonarr_anime_bridge.Prelude.{
  ℕ, ◌+◌, ◌≡◌, Bool, false, Option, none, some, ℤ, ℤ_discrete, ℕ_discrete, ite,
}
use sonarr_anime_bridge.Scheduler.Fetch.{FetchError}

abbrev pub FetchResult : Type 0
FetchResult = Bool × Option FetchError

-- Where a call stands.
pub data Phase : Type 0 where
  -- it fetches the year
  owns : ℤ → Phase
  -- it has closed the channel of its result
  closes : ℤ → FetchResult → Phase
  -- it has deleted the year, and returns its result
  finishes : ℤ → FetchResult → Phase
  -- it waits for the result of another call
  waits : ℤ → ℕ → Phase
  -- it returns the result of the other call
  receives : ℤ → ℕ → FetchResult → Phase
  -- its context has ended while it waited
  gives_up : ℤ → ℕ → Phase

-- `done` is what can be read of a result whose channel is closed.
pub record Flights : Type 0 where
  pub next : ℕ
  pub calls : ℕ → Option Phase
  pub inflight : ℤ → Option ℕ
  pub done : ℕ → Option FetchResult

abbrev pub update {ℓ} : {V : Type ℓ} → ℕ → V → (ℕ → V) → ℕ → V
update k v f n = ite (ℕ_discrete k n) v (f n)

abbrev pub update_year {ℓ} : {V : Type ℓ} → ℤ → V → (ℤ → V) → ℤ → V
update_year k v f y = ite (ℤ_discrete k y) v (f y)

abbrev pub set_phase : ℕ → Phase → Flights → Flights
set_phase n p s = record s { calls = update n (some p) s.calls }

abbrev pub join_from : ℤ → Flights → Option ℕ → Flights
join_from year s (some n) = record (set_phase s.next (waits year n) s) { next = s.next + 1 }
join_from year s none = record (set_phase s.next (owns year) s) {
  next = s.next + 1;
  inflight = update_year year (some s.next) s.inflight;
}

-- `LoadOrStore` at the start of a call.
unfoldable pub join : ℤ → Flights → Flights
join year s = join_from year s (s.inflight year)

unfoldable pub close_done : ℕ → ℤ → FetchResult → Flights → Flights
close_done n year r s = record (set_phase n (closes year r) s) { done = update n (some r) s.done }

unfoldable pub delete_inflight : ℕ → ℤ → FetchResult → Flights → Flights
delete_inflight n year r s = record (set_phase n (finishes year r) s) {
  inflight = update_year year none s.inflight;
}

unfoldable pub receive : ℕ → ℤ → ℕ → FetchResult → Flights → Flights
receive m year n r s = set_phase m (receives year n r) s

unfoldable pub give_up : ℕ → ℤ → ℕ → Flights → Flights
give_up m year n s = set_phase m (gives_up year n) s

pub data FlightStep (s : Flights) : Flights → Type 0 where
  joins : (year : ℤ) → FlightStep s (join year s)
  ends_fetch :
      (n : ℕ) (year : ℤ) (r : FetchResult)
      → s.calls n ≡ some (owns year)
      → FlightStep s (close_done n year r s)
  deletes :
      (n : ℕ) (year : ℤ) (r : FetchResult)
      → s.calls n ≡ some (closes year r)
      → FlightStep s (delete_inflight n year r s)
  gets :
      (m : ℕ) (year : ℤ) (n : ℕ) (r : FetchResult)
      → s.calls m ≡ some (waits year n)
      → s.done n ≡ some r
      → FlightStep s (receive m year n r s)
  times_out :
      (m : ℕ) (year : ℤ) (n : ℕ)
      → s.calls m ≡ some (waits year n)
      → FlightStep s (give_up m year n s)

abbrev pub no_flights : Flights
no_flights = record { next = 0; calls = λ n. none; inflight = λ y. none; done = λ n. none }

-- The states that some order of steps leads to.
pub data Flies : Flights → Type 0 where
  takes_off : Flies no_flights
  flies : (s t : Flights) → Flies s → FlightStep s t → Flies t
