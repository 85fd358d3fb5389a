-- ===== src/Scheduler/Tasks/Laws.antt =====
-- No year is fetched twice at a time, and the counter is right.
use sonarr_anime_bridge.Prelude.{
  ℕ, suc, ◌+◌, ◌≤◌, ◌≡◌, ◌↔◌, refl, ap, Bool, true, false, ◌==◌, ite, if◌then◌else◌, List, [], ◌∷◌,
  ◌++◌, Option, none, some, arith, length, length-append, lookup, lookup-insert, lookup-delete,
  lookup-delete_self, has, ℤ, ℤ_discrete as dec, Bool-cases, inl, inr,
}
use sonarr_anime_bridge.Scheduler.Tasks.{
  Background, new_background, open_background, launch_workers, opens, launches,
  start_background_fetch, schedule_year_fetch, close_background_fetches, done, give_back, end_task,
  wait_done, Step, starts, schedules, closes, app_ends, ends, Reaches, here, next, scheduled,
  already_scheduled,
}

-- How many goroutines fetch a year.
abbrev pub fetches : ℤ → List (Option ℤ) → ℕ
fetches year [] = 0
fetches year (none ∷ tasks) = fetches year tasks
fetches year (some y ∷ tasks) = ite (dec y year) (suc (fetches year tasks)) (fetches year tasks)

fetches-append :
    (year : ℤ) (xs ys : List (Option ℤ))
    → fetches year (xs ++ ys) ≡ fetches year xs + fetches year ys
fetches-append year [] ys = omega arith
fetches-append year (none ∷ xs) ys = ground (arith, fetches-append year xs ys)
fetches-append year (some y ∷ xs) ys = ground (arith, fetches-append year xs ys)

abbrev pub reserved : ℤ → List (ℤ × Bool) → ℕ
reserved year tasks = if has dec year tasks then 1 else 0

-- A year is reserved while one goroutine fetches it, no year has two, and the counter counts the
-- goroutines.
pub record IsConsistent (b : Background) : Type 0 where
  pub one_each : (year : ℤ) → fetches year b.goroutines ≡ reserved year b.year_tasks
  pub counted : b.wg ≡ length b.goroutines

new_background-IsConsistent : IsConsistent new_background
unfolding new_background lookup
new_background-IsConsistent = record { one_each = λ year. refl; counted = refl }

done_lem : (n m : ℕ) → n ≡ suc m → done n ≡ some m
done_lem n m e = rw e refl

-- A reservation goes with the one goroutine that holds it.
give_back_lem :
    (before after : List (Option ℤ)) (task : Option ℤ) (tasks : List (ℤ × Bool))
    → ((year : ℤ) → fetches year (before ++ task ∷ after) ≡ reserved year tasks)
    → (year : ℤ) → fetches year (before ++ after) ≡ reserved year (give_back task tasks)
give_back_lem before after none tasks h year =
    omega
      (arith, h year, fetches-append year before (none ∷ after), fetches-append year before after)
give_back_lem before after (some y) tasks h year = ground (
  arith,
  h year,
  fetches-append year before (some y ∷ after),
  fetches-append year before after,
  lookup-delete dec y year tasks,
)

abbrev after_end : Option ℤ → List (Option ℤ) → Background → Background
after_end task left b = record b {
  year_tasks = give_back task b.year_tasks;
  wg = length left;
  goroutines = left;
}

module _ (b : Background) (before after : List (Option ℤ)) (task : Option ℤ) where
  -- The end of a task that is running does not panic.
  end_task_lem :
      IsConsistent b
      → b.goroutines ≡ before ++ task ∷ after
      → end_task task (before ++ after) b ≡ some (after_end task (before ++ after) b)
  unfolding end_task
  end_task_lem h e =
      let left : b.wg ≡ suc (length (before ++ after)) = omega (
        arith,
        h.counted,
        ap length e,
        length-append before (task ∷ after),
        length-append before after,
      ) in
      rw (done_lem b.wg (length (before ++ after)) left, end_task) refl

  after_end-IsConsistent :
      IsConsistent b
      → b.goroutines ≡ before ++ task ∷ after
      → IsConsistent (after_end task (before ++ after) b)
  after_end-IsConsistent h e = record {
    one_each = give_back_lem before after task b.year_tasks (λ y. rw (← e) (h.one_each y));
    counted = refl;
  }

start-IsConsistent : (b : Background) → IsConsistent b → IsConsistent (start_background_fetch b)
unfolding start_background_fetch
start-IsConsistent b h = elim (Bool-cases b.bg_closed) [
  | inl closed ↦ simp closed h
  | inr opened ↦ simp opened (record { one_each = h.one_each; counted = ap suc h.counted })
]

schedule-IsConsistent :
    (year : ℤ) (b : Background) → IsConsistent b → IsConsistent (schedule_year_fetch year b).0
unfolding schedule_year_fetch
schedule-IsConsistent year b h = record {
  one_each = λ y. ground (arith, h.one_each y, lookup-insert dec year y true b.year_tasks);
  counted = ground (arith, h.counted);
}

Step-IsConsistent : {b c : Background} → IsConsistent b → Step b c → IsConsistent c
unfolding close_background_fetches open_background launch_workers
Step-IsConsistent h (opens ended) = record { one_each = h.one_each; counted = h.counted }
Step-IsConsistent h launches = record {
  one_each = h.one_each;
  counted = ap (λ n. suc (suc n)) h.counted;
}
Step-IsConsistent {b} h starts = start-IsConsistent b h
Step-IsConsistent {b} h (schedules year) = schedule-IsConsistent year b h
Step-IsConsistent h closes = record { one_each = h.one_each; counted = h.counted }
Step-IsConsistent h app_ends = record { one_each = h.one_each; counted = h.counted }
Step-IsConsistent {b} h (ends before after task e b' ran) =
    let ran' = end_task_lem b before after task h e in
    let same : after_end task (before ++ after) b ≡ b' = cc in
    rw same at (after_end-IsConsistent b before after task h e)

Reaches-IsConsistent_from : {b c : Background} → IsConsistent b → Reaches b c → IsConsistent c
Reaches-IsConsistent_from h here = h
Reaches-IsConsistent_from h (next c d before step) =
    Step-IsConsistent (Reaches-IsConsistent_from h before) step

fetches-le_one : (b : Background) (year : ℤ) → IsConsistent b → fetches year b.goroutines ≤ 1
fetches-le_one b year h = ground (arith, h.one_each year)

-- In whatever order tasks are started and end, the counter is the number of running goroutines, a year
-- is reserved exactly while a goroutine fetches it, and no year is fetched by two.
pub Reaches-fetches :
    (b : Background) (year : ℤ)
    → Reaches new_background b
    → (b.wg ≡ length b.goroutines)
      × (fetches year b.goroutines ≤ 1)
      × ((has dec year b.year_tasks ≡ true) ↔ (fetches year b.goroutines ≡ 1))
Reaches-fetches b year path =
    let h = Reaches-IsConsistent_from new_background-IsConsistent path in
    (h.counted, fetches-le_one b year h, ground (arith, h.one_each year))

-- While the scheduler is open and its context has not ended, a running task of a year can end without its `Done`
-- panicking; until then the year counts as already scheduled, and from then on it can be scheduled again.
pub Reaches-end_task :
    (b : Background) (before after : List (Option ℤ)) (year : ℤ)
    → Reaches new_background b
    → b.goroutines ≡ before ++ some year ∷ after
    → b.bg_closed ≡ false
    → b.app_ended ≡ false
    → (b' : Background) × (end_task (some year) (before ++ after) b ≡ some b')
      × ((schedule_year_fetch year b).1 ≡ already_scheduled)
      × ((schedule_year_fetch year b').1 ≡ scheduled)
unfolding schedule_year_fetch
Reaches-end_task b before after year path e opened running =
    let h = Reaches-IsConsistent_from new_background-IsConsistent path in
    let held : has dec year b.year_tasks ≡ true = ground (
      arith,
      h.one_each year,
      ap (fetches year) e,
      fetches-append year before (some year ∷ after),
    ) in
    (
      after_end (some year) (before ++ after) b,
      end_task_lem b before after (some year) h e,
      ground (arith, held),
      ground (arith, lookup-delete_self dec year b.year_tasks),
    )

empty_iff : (gs : List (Option ℤ)) (n : ℕ) → n ≡ length gs → ((n == 0) ≡ true) ↔ (gs ≡ [])
empty_iff [] n h = ground (arith, h)
empty_iff (g ∷ gs) n h = (λ zero. absurd (ground (arith, h)), λ e. cc e)

-- No step is one of `StartBackground`, which opens a scheduler again.
abbrev IsKept : {b c : Background} → Step b c → Type 0
IsKept (opens ended) = ⊥
IsKept launches = ⊥
IsKept starts = Unit
IsKept (schedules year) = Unit
IsKept closes = Unit
IsKept app_ends = Unit
IsKept (ends before after task e b' ran) = Unit

abbrev pub StaysStarted : {b c : Background} → Reaches b c → Type 0
StaysStarted here = Unit
StaysStarted (next c d before step) = StaysStarted before × IsKept step

-- A closed scheduler launches nothing more.
abbrev ClosedUnder : Background → Background → Type 0
ClosedUnder b c = (c.bg_closed ≡ true) × (c.wg ≤ b.wg)

Step-closed :
    {b c : Background} → b.bg_closed ≡ true → (step : Step b c) → IsKept step → ClosedUnder b c
unfolding start_background_fetch schedule_year_fetch close_background_fetches end_task
Step-closed h (opens ended) kept = absurd kept
Step-closed h launches kept = absurd kept
Step-closed {b} h starts kept = ground (arith, h)
Step-closed {b} h (schedules year) kept = ground (arith, h)
Step-closed {b} h closes kept = ground (arith, h)
Step-closed {b} h app_ends kept = ground (arith, h)
Step-closed {b} h (ends before after task e b' ran) kept = ground (arith, h, ran)

stays_closed :
    {b c : Background}
    → b.bg_closed ≡ true
    → (more : Reaches b c) → StaysStarted more
    → ClosedUnder b c
stays_closed closed here kept = (closed, omega arith)
stays_closed closed (next d e before step) (kept, last) =
    let (shut, below) = stays_closed closed before kept in
    let (shut', below') = Step-closed shut step last in (shut', omega arith)

-- Once `closeBackgroundFetches` has closed the scheduler, and until `StartBackground` is called again, it stays
-- closed and its counter never rises, so `Wait` returns when the counter has come to 0, and it is 0 exactly
-- when no goroutine is left.
pub Reaches-closed :
    (b c : Background)
    → Reaches new_background b
    → (more : Reaches (close_background_fetches b) c) → StaysStarted more
    → (c.bg_closed ≡ true) × (c.wg ≤ b.wg) × ((wait_done c ≡ true) ↔ (c.goroutines ≡ []))
unfolding wait_done close_background_fetches
Reaches-closed b c path more kept =
    let shut : Reaches new_background (close_background_fetches b) =
      next b (close_background_fetches b) path closes in
    let h =
      Reaches-IsConsistent_from (Reaches-IsConsistent_from new_background-IsConsistent shut) more in
    let (still, le) = stays_closed refl more kept in
    (still, le, empty_iff c.goroutines c.wg h.counted)
