-- ===== src/Scheduler/Tasks.antt =====
-- The background tasks (internal/scheduler/scheduler.go, `StartBackground`, `StartBackgroundFetch`,
-- `ScheduleYearFetch`, `closeBackgroundFetches`, `Wait`). `bgMu` makes each critical section one step; `wg` is its counter,
-- whose `Done` panics below zero. The goroutines that run are listed in `goroutines`, which is not a
-- variable of the source: a task of a year, or another one (`none`). A context that has ended stays ended;
-- `StartBackground` gives the scheduler another context. What its workers do at their ticks is elsewhere
-- (Prewarm, Track, Loading).
pub mod Laws
use sonarr_anime_bridge.Prelude.{
  ℕ, zero, suc, Bool, true, false, ◌||◌, if◌then◌else◌, List, [], ◌∷◌, ◌++◌, Option, none, some,
  ◌==◌, ◌≡◌, delete, insert, has, ℤ, ℤ_discrete as dec,
}

pub record Background : Type 0 where
  pub bg_closed : Bool
  pub app_ended : Bool
  pub year_tasks : List (ℤ × Bool)
  pub wg : ℕ
  pub goroutines : List (Option ℤ)

pub data YearFetchSchedule : Type 0 where
  rejected scheduled already_scheduled : YearFetchSchedule

unfoldable pub new_background : Background
new_background = record {
  bg_closed = false;
  app_ended = false;
  year_tasks = [];
  wg = 0;
  goroutines = [];
}

-- `s.wg.Add(1)` and the `go` statement.
abbrev pub launch : Option ℤ → Background → Background
launch task b = record b { wg = suc b.wg; goroutines = task ∷ b.goroutines }

-- `StartBackground`: the context, of which `ended` says whether it has ended, and the opening of the scheduler.
unfoldable pub open_background : Bool → Background → Background
open_background ended b = record b { app_ended = ended; bg_closed = false }

-- `StartBackground` after it: `s.wg.Add(2)` and its two workers.
unfoldable pub launch_workers : Background → Background
launch_workers b = launch none (launch none b)

unfoldable pub start_background_fetch : Background → Background
start_background_fetch b = if b.bg_closed then b else launch none b

unfoldable pub schedule_year_fetch : ℤ → Background → Background × YearFetchSchedule
schedule_year_fetch year b =
    if b.bg_closed || b.app_ended
    then (b, rejected)
    else if has dec year b.year_tasks
    then (b, already_scheduled)
    else (
      launch (some year) (record b { year_tasks = insert dec year true b.year_tasks }),
      scheduled,
    )

unfoldable pub close_background_fetches : Background → Background
close_background_fetches b = record b { bg_closed = true }

-- `s.wg.Done()`; `none` is its panic.
abbrev pub done : ℕ → Option ℕ
done zero = none
done (suc n) = some n

-- The deferred functions of a goroutine: a task of a year gives its year back.
abbrev pub give_back : Option ℤ → List (ℤ × Bool) → List (ℤ × Bool)
give_back none tasks = tasks
give_back (some year) tasks = delete dec year tasks

-- The end of the goroutine `task`, after which `left` are running. Its deferred functions are one step.
unfoldable pub end_task : Option ℤ → List (Option ℤ) → Background → Option Background
end_task task left b = elim (done b.wg) [
  | none ↦ none
  | some n ↦ some (record b { year_tasks = give_back task b.year_tasks; wg = n; goroutines = left })
]

-- Whether `Wait` returns without its context ending.
unfoldable pub wait_done : Background → Bool
wait_done b = b.wg == 0

-- What can happen. Between the two steps of `StartBackground` others may come.
pub data Step (b : Background) : Background → Type 0 where
  opens : (ended : Bool) → Step b (open_background ended b)
  launches : Step b (launch_workers b)
  starts : Step b (start_background_fetch b)
  schedules : (year : ℤ) → Step b (schedule_year_fetch year b).0
  closes : Step b (close_background_fetches b)
  app_ends : Step b (record b { app_ended = true })
  ends :
      (before after : List (Option ℤ))
      → (task : Option ℤ) → b.goroutines ≡ before ++ task ∷ after
      → (b' : Background) → end_task task (before ++ after) b ≡ some b'
      → Step b b'

pub data Reaches (b : Background) : Background → Type 0 where
  here : Reaches b b
  next : (c d : Background) → Reaches b c → Step c d → Reaches b d
