-- ===== src/Tests/Filtering.antt =====
-- The filters, the resolver, and a request.
use sonarr_anime_bridge.Prelude.{
  ℕ, suc, ◌≡◌, ◌↔◌, ◌⊎◌, refl, Bool, true, false, if◌then◌else◌, List, [], ◌∷◌, none, some, keep,
  ltb, ℤ_discrete as dec, String,
}
use sonarr_anime_bridge.Show.{Show}
use sonarr_anime_bridge.Show.Dates.{Now}
use sonarr_anime_bridge.Compact.{compact}
use sonarr_anime_bridge.Compact.Laws.{sieve, compact-sieve}
use sonarr_anime_bridge.Filter.{in_season}
use sonarr_anime_bridge.Filter.Season.{HasMonthIn, in_season_iff}
use sonarr_anime_bridge.Scheduler.Process.{FilterConfig, winter_overflow, filter_shows, process}
use sonarr_anime_bridge.Scheduler.Process.Winter.{with_winter}
use sonarr_anime_bridge.Scheduler.Process.Laws.{is_wanted, filter_shows-keep}
use sonarr_anime_bridge.Scheduler.Process.Distinct.{own_answers, process-own_answers}
use sonarr_anime_bridge.Tests.Data.{winter_show, december_show, short_show, mapping}

-- Keep what is above 2, and count what is not.
abbrev above_two : ℕ → ℕ → ℕ × Bool
above_two n dropped = if ltb 2 n then (dropped, true) else (suc dropped, false)

compact-sieve_example :
    compact above_two 0 (1 ∷ 5 ∷ 2 ∷ 7 ∷ []) ≡ sieve above_two 0 (1 ∷ 5 ∷ 2 ∷ 7 ∷ [])
compact-sieve_example = compact-sieve above_two 0 (1 ∷ 5 ∷ 2 ∷ 7 ∷ [])

-- A folding that leaves every code point.
abbrev plain : ℕ → ℕ
plain c = c

abbrev excluded : List String
excluded = "Hentai" ∷ []

abbrev three_shows : List Show
three_shows = winter_show ∷ short_show ∷ december_show ∷ []

in_season_iff_example : (in_season "WINTER" december_show ≡ true) ↔ (
    (december_show.season ≡ "WINTER")
    ⊎ ((december_show.season ≡ "") × HasMonthIn "WINTER" december_show.start_date.month))
in_season_iff_example = in_season_iff "WINTER" december_show

abbrev today : Now
today = record { year = 2024; month = 2; day = 1 }

abbrev config : FilterConfig
config = record {
  include_types = "TV" ∷ [];
  exclude_tags = "Hentai" ∷ [];
  filter_future_enabled = true;
}

abbrev this_year : List Show
this_year = winter_show ∷ short_show ∷ []

abbrev last_year : List Show
last_year = december_show ∷ []

filter_shows-keep_example :
    filter_shows plain today config this_year last_year "WINTER" "series"
    ≡ keep
        (is_wanted plain today config "WINTER" "series")
        (winter_overflow this_year last_year "WINTER")
filter_shows-keep_example =
    filter_shows-keep plain today config this_year last_year "WINTER" "series"

process-own_answers_example :
    ((process plain today config (some mapping) false this_year last_year "WINTER" "series").0
      ≡ own_answers mapping (
          keep
            (is_wanted plain today config "WINTER" "series")
            (with_winter this_year last_year "WINTER")))
    × ((process plain today config none false this_year last_year "WINTER" "series").0 ≡ [])
unfolding dec
process-own_answers_example =
    process-own_answers plain today config mapping false this_year last_year "WINTER" "series"
      (refl, (refl, tt))
