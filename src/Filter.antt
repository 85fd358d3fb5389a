-- ===== src/Filter.antt =====
-- internal/filter/filter.go: each function compacts the caller's slice in place. `shows[:0]` with
-- `append` is the loop of `Compact`. The folding table of `strings.EqualFold` is the argument `fold`,
-- the clock is the argument `now`.
pub mod Laws
pub mod Season
use sonarr_anime_bridge.Prelude.{
  ℕ, zero, suc, ◌+◌, ltb, Bool, true, false, not, ◌&&◌, ◌||◌, if◌then◌else◌, List, [], ◌∷◌, any,
  Option, none, some, ℤ, pos, negsuc, ltb_ℤ, leb_ℤ, eqb_ℤ, String, str_eq,
}
use sonarr_anime_bridge.Compact.{compact}
use sonarr_anime_bridge.Show.{Show, is_new, skip_by_duration, has_tag, is_within_months}
use sonarr_anime_bridge.Show.Dates.{Now}

pub record FilterStats : Type 0 where
  pub skipped_duration : ℕ
  pub skipped_tags : ℕ

pub record FutureStats : Type 0 where
  pub skipped_future : ℕ

-- A filter whose loop counts nothing.
abbrev pub compact_by : (Show → Bool) → List Show → List Show
compact_by test shows = (compact {S = Unit {0}} (λ show s. (s, test show)) tt shows).0

unfoldable pub has_excluded_tag : (ℕ → ℕ) → Show → List String → Bool
has_excluded_tag fold show [] = false
has_excluded_tag fold show (exclude ∷ tags) =
    if str_eq exclude ""
    then has_excluded_tag fold show tags
    else if has_tag fold show exclude
    then true
    else has_excluded_tag fold show tags

-- The body of the loop of `FilterWithStats`.
unfoldable pub count_skips : (ℕ → ℕ) → List String → Show → FilterStats → FilterStats × Bool
count_skips fold exclude_tags show stats =
    if skip_by_duration show
    then (record stats { skipped_duration = stats.skipped_duration + 1 }, false)
    else if has_excluded_tag fold show exclude_tags
    then (record stats { skipped_tags = stats.skipped_tags + 1 }, false)
    else (stats, true)

unfoldable pub filter_with_stats : (ℕ → ℕ) → List Show → List String → List Show × FilterStats
filter_with_stats fold shows exclude_tags =
    compact (count_skips fold exclude_tags) (record { skipped_duration = 0; skipped_tags = 0 })
      shows

-- The body of the loop of `FilterFutureWithStats`.
unfoldable pub count_future : Now → ℕ → Show → FutureStats → FutureStats × Bool
count_future now months show stats =
    if not (is_within_months now show months)
    then (record { skipped_future = stats.skipped_future + 1 }, false)
    else (stats, true)

unfoldable pub filter_future_with_stats : Now → List Show → ℤ → List Show × FutureStats
filter_future_with_stats now shows (negsuc _) = (shows, record { skipped_future = 0 })
filter_future_with_stats now shows (pos zero) = (shows, record { skipped_future = 0 })
filter_future_with_stats now shows (pos (suc n)) =
    compact (count_future now (suc n)) (record { skipped_future = 0 }) shows

unfoldable pub filter_by_formats : List Show → List String → List Show
filter_by_formats shows formats =
    compact_by (λ show. any (λ format. str_eq format show.format) formats) shows

-- The `switch season` on the month of the start date.
unfoldable pub month_in_season : String → ℤ → Bool
month_in_season season m =
    if str_eq season "WINTER"
    then eqb_ℤ m (pos 12) || (eqb_ℤ m (pos 1) || (eqb_ℤ m (pos 2) || eqb_ℤ m (pos 3)))
    else if str_eq season "SPRING"
    then leb_ℤ (pos 4) m && leb_ℤ m (pos 6)
    else if str_eq season "SUMMER"
    then leb_ℤ (pos 7) m && leb_ℤ m (pos 9)
    else if str_eq season "FALL"
    then eqb_ℤ m (pos 10) || eqb_ℤ m (pos 11)
    else false

-- The month of the start date, if it is one of the calendar.
unfoldable pub starts_in : String → Option ℤ → Bool
unfolding month_in_season
starts_in season none = false
starts_in season (some m) =
    if ltb_ℤ m (pos 1) || ltb_ℤ (pos 12) m then false else month_in_season season m

-- The body of the loop of `FilterBySeason`.
unfoldable pub in_season : String → Show → Bool
unfolding starts_in
in_season season show =
    if str_eq show.season season
    then true
    else if not (str_eq show.season "")
    then false
    else starts_in season show.start_date.month

unfoldable pub filter_by_season : List Show → String → List Show
filter_by_season shows season =
    if str_eq season "ALL" then shows else compact_by (in_season season) shows

unfoldable pub filter_first_season : List Show → List Show
filter_first_season shows = compact_by is_new shows
