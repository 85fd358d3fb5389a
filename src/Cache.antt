-- ===== src/Cache.antt =====
-- The year cache (internal/cache/cache.go): the two SQL tables and the bookkeeping around them. Times
-- are Unix seconds and durations nanoseconds, as in the source, both after 1970. Each method gets what
-- the database answers to its statement, after the retries of `Retry`: `none` where it ran, an error
-- where it did not and changed nothing.
pub mod Hits
pub mod Seen
pub mod Laws
use sonarr_anime_bridge.Prelude.{
  ℕ, zero, suc, ◌+◌, ◌-◌, ◌*◌, ◌/◌, ◌^◌, ◌==◌, ltb, leb, max, Bool, true, false, not, ◌&&◌, ◌||◌,
  if◌then◌else◌, List, [], ◌∷◌, map, Option, none, some, length, keep, any, all, lookup, delete,
  insert, has, ℤ, pos, ℤ_discrete as dec, eqb_ℤ,
}
use sonarr_anime_bridge.Retry.{DbError, no_rows, DbResult, ok, err}
use sonarr_anime_bridge.Decoded.{DecodedCache, invalidate}

-- A row of `year_cache`, under its year.
pub record Row : Type 0 where
  pub data_of : List ℕ
  pub fetched_at : ℕ
  pub last_hit : ℕ

-- What `time.Now()` says.
pub record Clock : Type 0 where
  pub nanos : ℕ
  pub year : ℤ

abbrev pub second : ℕ
second = 10 ^ 9

abbrev pub hour : ℕ
hour = 3600 * second

abbrev pub unix : Clock → ℕ
unix now = now.nanos / second

pub record Cache : Type 0 where
  pub decoded : DecodedCache
  pub year_cache : List (ℤ × Row)
  pub current_year_freshness : ℕ
  pub past_year_freshness : ℕ
  pub hits : ℕ
  pub misses : ℕ
  pub last_hit_times : List (ℤ × ℕ)
  pub last_hit_debounce : ℕ
  pub last_hit_failed : List (ℤ × Bool)
  pub pending_last_hits : List (ℤ × ℕ)

-- `openCacheDB`, on the table that the database file holds.
unfoldable pub open_cache_db : DecodedCache → List (ℤ × Row) → Cache
open_cache_db decoded table = record {
  decoded = decoded;
  year_cache = table;
  current_year_freshness = 24 * hour;
  past_year_freshness = 7 * 24 * hour;
  hits = 0;
  misses = 0;
  last_hit_times = [];
  last_hit_debounce = 5 * 60 * second;
  last_hit_failed = [];
  pending_last_hits = [];
}

-- `now.Sub(fetched) < threshold`, with the difference moved to the other side.
unfoldable pub year_fresh_at : Cache → ℤ → ℕ → Clock → Bool
year_fresh_at c year fetched_at now = ltb now.nanos (
    fetched_at * second
    + (if eqb_ℤ year now.year then c.current_year_freshness else c.past_year_freshness))

-- The critical section of `queueLastHit`.
unfoldable pub queue_last_hit : ℤ → ℕ → ℕ → Cache → Cache
queue_last_hit year persisted now c = elim (lookup dec year c.last_hit_times) [
  | some last ↦ if ltb now (last + c.last_hit_debounce / second) then c else record c {
    last_hit_times = insert dec year now c.last_hit_times;
    pending_last_hits = insert dec year now c.pending_last_hits;
  }
  | none ↦
      if ltb now (persisted + c.last_hit_debounce / second)
      then record c { last_hit_times = insert dec year persisted c.last_hit_times }
      else record c {
        last_hit_times = insert dec year now (insert dec year persisted c.last_hit_times);
        pending_last_hits = insert dec year now c.pending_last_hits;
      }
]

-- The row of a read: its bytes and whether it is fresh.
pub record YearData : Type 0 where
  pub raw : List ℕ
  pub fresh : Bool

-- `readYearContext`; the answer of the query is the row of the table, unless it fails.
unfoldable pub read_year :
    ℤ → Bool → Clock → Option DbError → Cache → Cache × DbResult (Option YearData)
unfolding year_fresh_at queue_last_hit
read_year year record_access now (some e) c = (c, err e)
read_year year record_access now none c = elim (lookup dec year c.year_cache) [
  | none ↦ (if record_access then record c { misses = c.misses + 1 } else c, ok none)
  | some row ↦ (
    if record_access
        then queue_last_hit year row.last_hit (unix now) (record c { hits = c.hits + 1 })
        else c,
    ok (some (record { raw = row.data_of; fresh = year_fresh_at c year row.fetched_at now })),
  )
]

-- The row that the `INSERT … ON CONFLICT` of `SetYearContext` leaves.
unfoldable pub upsert : Option Row → List ℕ → ℕ → Row
upsert none bytes now = record { data_of = bytes; fetched_at = now; last_hit = now }
upsert (some row) bytes now = record {
  data_of = bytes;
  fetched_at = now;
  last_hit = if ltb 0 row.last_hit then row.last_hit else row.fetched_at;
}

unfoldable pub set_year : ℤ → List ℕ → Clock → Option DbError → Cache → Cache × Option DbError
unfolding upsert
set_year year bytes now (some e) c = (c, some e)
set_year year bytes now none c = (
  record c {
    year_cache =
        insert dec year (upsert (lookup dec year c.year_cache) bytes (unix now)) c.year_cache;
    decoded = invalidate year false false c.decoded;
  },
  none,
)

unfoldable pub clear : Option DbError → Cache → Cache × Option DbError
clear (some e) c = (c, some e)
clear none c = (
  record c {
    year_cache = [];
    decoded = invalidate (pos 0) true false c.decoded;
    hits = 0;
    misses = 0;
    last_hit_times = [];
    pending_last_hits = [];
    last_hit_failed = [];
  },
  none,
)

-- The distinct years of a list, as the keys of the map `unique`.
unfoldable pub unique : List ℤ → List (ℤ × Bool)
unique [] = []
unique (year ∷ years) = insert dec year true (unique years)

-- `SELECT COUNT(DISTINCT year) … WHERE year IN (…)`: a year is the key of its row.
unfoldable pub count_years : List (ℤ × Bool) → List (ℤ × Row) → ℕ
count_years [] table = 0
count_years ((year, _) ∷ years) table =
    if has dec year table then suc (count_years years table) else count_years years table

unfoldable pub has_years : List ℤ → Option DbError → Cache → DbResult Bool
unfolding unique count_years
has_years years (some e) c = err e
has_years [] none c = ok true
has_years (y ∷ years) none c =
    ok (count_years (unique (y ∷ years)) c.year_cache == length (unique (y ∷ years)))

-- The loop of `NeedsRefreshYearsContext` over the rows of the table.
unfoldable pub stale_years : ℤ → ℕ → ℕ → Clock → List (ℤ × Row) → List ℤ
stale_years current_year current_days past_days now [] = []
stale_years current_year current_days past_days now ((year, row) ∷ rows) =
    if ltb
      (row.fetched_at * second
        + (if eqb_ℤ year current_year then current_days else past_days) * 24 * hour)
      now.nanos
    then year ∷ stale_years current_year current_days past_days now rows
    else stale_years current_year current_days past_days now rows

unfoldable pub needs_refresh_years : ℤ → ℕ → ℕ → Clock → Option DbError → Cache → DbResult (List ℤ)
unfolding stale_years
needs_refresh_years current_year current_days past_days now (some e) c = err e
needs_refresh_years current_year current_days past_days now none c =
    ok (stale_years current_year current_days past_days now c.year_cache)

-- `CASE WHEN last_hit > 0 THEN last_hit ELSE fetched_at END`
abbrev pub last_access : Row → ℕ
last_access row = if ltb 0 row.last_hit then row.last_hit else row.fetched_at

-- The years whose queued hit is not older than the cutoff.
abbrev pub is_pending : List (ℤ × ℕ) → ℕ → ℤ → Bool
is_pending pending cutoff year = elim (lookup dec year pending) [
  | none ↦ false
  | some hit ↦ leb cutoff hit
]

-- The rows that the `DELETE` of `PruneStaleYearsContext` takes.
abbrev pub is_stale : List (ℤ × ℕ) → ℕ → ℤ × Row → Bool
is_stale pending cutoff (year, row) =
    ltb (last_access row) cutoff && not (is_pending pending cutoff year)

-- `now.Add(-days * 24h)`, in whole seconds; a cutoff before 1970 is 0.
abbrev pub cutoff_at : Clock → ℕ → ℕ
cutoff_at now days = (now.nanos - days * 24 * hour) / second

-- The answer of the statement: an error, or whether `RowsAffected` can be told.
unfoldable pub prune_stale_years : ℕ → Clock → Option DbError → Bool → Cache → Cache × DbResult ℕ
prune_stale_years days now (some e) affected c = (c, err e)
prune_stale_years days now none affected c =
    let stale = is_stale c.pending_last_hits (cutoff_at now days) in
    let rows = keep (λ e. not (stale e)) c.year_cache in
    let n = length c.year_cache - length rows in
    let pruned : Cache = record c { year_cache = rows } in
    let forgotten : Cache = record pruned { decoded = invalidate (pos 0) true false c.decoded } in
    if not affected
    then (forgotten, err DbError.other)
    else (if ltb 0 n then forgotten else pruned, ok n)

pub record CacheStats : Type 0 where
  pub entries : ℕ
  pub hits : ℕ
  pub misses : ℕ

unfoldable pub stats : Option DbError → Cache → CacheStats × Option DbError
stats (some e) c = (record { entries = 0; hits = c.hits; misses = c.misses }, some e)
stats none c = (record { entries = length c.year_cache; hits = c.hits; misses = c.misses }, none)

unfoldable pub close : Cache → Cache
close c = record c { decoded = invalidate (pos 0) true true c.decoded }
