-- ===== src/Scheduler/Track.antt =====
-- The discovery of new mappings and the upkeep of the cache (internal/scheduler/scheduler.go,
-- `trackNewMappings`, `nextMappingRefreshInterval`, `refreshStaleYears`, `prune`, `vacuumMaybe`). What the
-- database answers is an argument; log lines are left out. Times are nanoseconds since 1970.
pub mod Laws
use sonarr_anime_bridge.Prelude.{
  ℕ, zero, suc, ◌+◌, ◌-◌, ◌*◌, ◌/◌, ◌%◌, ◌^◌, ◌≤◌, ◌<◌, ◌≡◌, refl, ap, sym, ◌∙◌, ltb, leb, ◌==◌,
  Bool, true, false, not, ◌&&◌, ◌||◌, is_some, if◌then◌else◌, List, [], ◌∷◌, Option, none, some,
  arith, length, lookup, delete, All, ℤ, pos, negsuc, ℤ_discrete as dec, String, Bool-cases,
  Option-cases, inl, inr,
}
use Prim.Native.String.{◌++◌ as append}
use sonarr_anime_bridge.Show.{Show, FuzzyDate}
use sonarr_anime_bridge.Show.Decimal.{decimal}
use sonarr_anime_bridge.Retry.{DbError, DbResult, ok, err}
use sonarr_anime_bridge.Cache.{Cache, Clock, hour, prune_stale_years}
use sonarr_anime_bridge.Cache.Seen.{SeenMapping, mark_seen_mappings_once, count_seen_mappings}
use sonarr_anime_bridge.Mapping.{ResolvedShow, Resolver}

-- `%02d`
abbrev pub two_digits : ℤ → String
two_digits (pos n) = if ltb n 10 then append "0" (decimal (pos n)) else decimal (pos n)
two_digits (negsuc n) = decimal (negsuc n)

-- `y % 100`, which has the sign of `y`.
abbrev pub of_century : ℤ → ℤ
of_century (pos n) = pos (n % 100)
of_century (negsuc n) = if suc n % 100 == 0 then pos 0 else negsuc (suc n % 100 - 1)

abbrev pub dotted : ℤ → ℤ → ℤ → String
dotted day month year =
    append (two_digits day)
      (append "." (append (two_digits month) (append "." (two_digits (of_century year)))))

unfoldable pub starts_at : FuzzyDate → String
unfolding decimal
starts_at date = elim date.year [
  | none ↦ ""
  | some year ↦ elim date.month [
    | none ↦ ""
    | some month ↦ elim date.day [ none ↦ "" | some day ↦ dotted day month year ]
  ]
]

abbrev pub entry_of : Show → ResolvedShow → String → ℤ → SeenMapping
entry_of show r season year = record {
  tvdb_id = r.tvdb_id;
  anilist_id = show.id;
  title = r.title;
  season = season;
  year = year;
  starts_at = starts_at show.start_date;
  first_seen_at = 0;
}

-- The loop over the shows of the request.
unfoldable pub entries_of : List Show → List (ℤ × ResolvedShow) → String → ℤ → List SeenMapping
unfolding starts_at
entries_of [] batch season year = []
entries_of (show ∷ shows) batch season year = elim (lookup dec show.id batch) [
  | none ↦ entries_of shows batch season year
  | some r ↦
      if not r.resolved
      then entries_of shows batch season year
      else entry_of show r season year ∷ entries_of shows batch season year
]

-- The answers of the database to the steps of the discovery.
pub record TrackAnswers : Type 0 where
  pub counting : Option DbError
  pub begin : Option DbError
  pub inserting : ℕ → Option DbError
  pub commit : Option DbError

-- The mappings that the log announces: none on the first run.
abbrev pub announced : Bool → DbResult (List SeenMapping) → List SeenMapping
announced first_run (err e) = []
announced first_run (ok new) = if first_run then [] else new

abbrev pub store_entries :
    TrackAnswers
    → Bool
    → List SeenMapping
    → ℕ
    → List SeenMapping
    → List SeenMapping × List SeenMapping
store_entries a first_run [] now table = (table, [])
store_entries a first_run (e ∷ entries) now table =
    let (after, new) =
      mark_seen_mappings_once a.begin a.inserting a.commit (e ∷ entries) now table in
    (after, announced first_run new)

-- The table after the discovery, and the announced mappings.
unfoldable pub track_new_mappings :
    TrackAnswers
    → List Show
    → List (ℤ × ResolvedShow)
    → String
    → ℤ
    → ℕ
    → List SeenMapping
    → List SeenMapping × List SeenMapping
unfolding entries_of mark_seen_mappings_once
track_new_mappings a shows [] season year now table = (table, [])
track_new_mappings a shows (r ∷ batch) season year now table =
    elim (count_seen_mappings a.counting table) [
      | err e ↦ (table, [])
      | ok count ↦ store_entries a (count == 0) (entries_of shows (r ∷ batch) season year) now table
    ]

abbrev pub mapping_refresh_interval : ℕ
mapping_refresh_interval = 24 * hour

abbrev pub unloaded_resolver_retry_interval : ℕ
unloaded_resolver_retry_interval = 60 * 10 ^ 9

-- A retry interval of 0 stands for one that is not positive.
unfoldable pub next_mapping_refresh_interval : Resolver → ℕ → ℕ
next_mapping_refresh_interval r retry_interval =
    if is_some r.mapping
    then mapping_refresh_interval
    else if retry_interval == 0
    then unloaded_resolver_retry_interval
    else retry_interval

-- `vacuumMaybe` up to its VACUUM: the new `lastVacuum` in seconds, and whether it runs. `swapped` says
-- whether the compare-and-swap found the value that was read.
unfoldable pub vacuum_maybe : Bool → ℕ → Bool → ℕ → ℕ × Bool
vacuum_maybe ended now swapped last =
    if ended
    then (last, false)
    else if not (ltb (last * 10 ^ 9 + 24 * hour) now) || not swapped
    then (last, false)
    else (now / 10 ^ 9, true)

-- `prune`: the years of the last 14 days stay, and a prune that deleted something may vacuum.
unfoldable pub prune :
    Bool → Bool → Clock → Option DbError → Bool → Bool → ℕ → Cache → Cache × ℕ × Bool
unfolding vacuum_maybe
prune ended ended_after now answer affected swapped last c =
    if ended
    then (c, last, false)
    else let (c', result) = prune_stale_years 14 now answer affected c in
      elim result [
        | err e ↦ (c', last, false)
        | ok n ↦
            if ltb 0 n
            then (
              c',
              (vacuum_maybe ended_after now.nanos swapped last).0,
              (vacuum_maybe ended_after now.nanos swapped last).1,
            )
            else (c', last, false)
      ]
