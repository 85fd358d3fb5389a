-- ===== src/Scheduler/Process.antt =====
-- What a request returns (internal/scheduler/scheduler.go, `Process`, `resolveBatch`, `responseShows`).
-- The counts that only go to the log are left out.
pub mod Winter
pub mod Laws
pub mod Distinct
use sonarr_anime_bridge.Prelude.{
  ℕ, ltb, Bool, true, false, not, ◌&&◌, ◌||◌, if◌then◌else◌, List, [], ◌∷◌, ◌++◌, Option, none,
  some, length, lookup, insert, has, ℤ, pos, eqb_ℤ, ℤ_discrete as dec, String, str_eq,
}
use sonarr_anime_bridge.Show.{Show}
use sonarr_anime_bridge.Show.Dates.{Now}
use sonarr_anime_bridge.Filter.{
  filter_by_season, filter_by_formats, filter_with_stats, filter_future_with_stats,
  filter_first_season,
}
use sonarr_anime_bridge.Mapping.{AnibridgeMapping, ResolvedShow, resolve_batch}

-- The part of the configuration that `Process` reads.
pub record FilterConfig : Type 0 where
  pub include_types : List String
  pub exclude_tags : List String
  pub filter_future_enabled : Bool

pub record ResponseShow : Type 0 where
  pub tvdb_id : ℤ
  pub title : String

-- The first loop over the shows of the year: `seen[sh.ID] = true`.
unfoldable pub seen_ids : List Show → List (ℤ × Bool) → List (ℤ × Bool)
seen_ids [] seen = seen
seen_ids (sh ∷ shows) seen = seen_ids shows (insert dec sh.id true seen)

abbrev pub in_december : Option ℤ → Bool
in_december none = false
in_december (some month) = eqb_ℤ month (pos 12)

-- The second loop: what it appends to the shows of the year.
unfoldable pub december_of : List Show → List (ℤ × Bool) → List Show
december_of [] seen = []
december_of (sh ∷ prev_shows) seen =
    let rest = december_of prev_shows (insert dec sh.id true seen) in
    let skipped = december_of prev_shows seen in
    if not (has dec sh.id seen) && in_december sh.start_date.month then sh ∷ rest else skipped

-- The winter of a year also has the December shows of the year before.
unfoldable pub winter_overflow : List Show → List Show → String → List Show
unfolding seen_ids december_of
winter_overflow shows prev_shows season =
    if str_eq season "WINTER" && ltb 0 (length prev_shows)
    then shows ++ december_of (filter_by_season prev_shows "WINTER") (seen_ids shows [])
    else shows

-- Without a mapping the result is the nil map.
unfoldable pub resolve_loaded : Option AnibridgeMapping → List Show → List (ℤ × ResolvedShow)
resolve_loaded none shows = []
resolve_loaded (some m) shows = resolve_batch (some m) shows

unfoldable pub response_shows : List Show → List (ℤ × ResolvedShow) → List ResponseShow
response_shows [] resolved = []
response_shows (show ∷ shows) resolved = elim (lookup dec show.id resolved) [
  | none ↦ response_shows shows resolved
  | some r ↦
      if r.resolved
      then record { tvdb_id = r.tvdb_id; title = r.title } ∷ response_shows shows resolved
      else response_shows shows resolved
]

unfoldable pub filter_shows :
    (ℕ → ℕ) → Now → FilterConfig → List Show → List Show → String → String → List Show
unfolding winter_overflow
filter_shows fold now cfg shows prev_shows season category =
    let in_season = filter_by_season (winter_overflow shows prev_shows season) season in
    let formatted = filter_by_formats in_season cfg.include_types in
    let passed = (filter_with_stats fold formatted cfg.exclude_tags).0 in
    let started =
      if cfg.filter_future_enabled
      then (filter_future_with_stats now passed (pos 3)).0
      else passed in
    if str_eq category "series-new" then filter_first_season started else started

-- The response, and whether `tracking` was taken to record what was resolved.
unfoldable pub process :
    (ℕ → ℕ)
    → Now
    → FilterConfig
    → Option AnibridgeMapping
    → Bool
    → List Show
    → List Show
    → String
    → String
    → List ResponseShow × Bool
unfolding filter_shows resolve_loaded response_shows
process fold now cfg mapping tracking shows prev_shows season category =
    let kept = filter_shows fold now cfg shows prev_shows season category in
    let resolved = response_shows kept (resolve_loaded mapping kept) in
    (resolved, ltb 0 (length resolved) && not tracking)
