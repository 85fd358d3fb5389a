-- ===== src/Filter/Season.antt =====
-- The seasons of `FilterBySeason`, against the calendar: each month belongs to one season.
use sonarr_anime_bridge.Prelude.{
  ℕ, ◌≤◌, ◌≡◌, refl, Bool-cases, ◌≢◌, ◌↔◌, ◌⊎◌, inl, inr, true, leb, if◌then◌else◌, some, none,
  Option, arith, ℤ, pos, negsuc, String, str_eq, str_eq_iff,
}
use sonarr_anime_bridge.Show.{Show}
use sonarr_anime_bridge.Filter.{in_season, month_in_season, starts_in}

-- AniList's season of a month, 1 to 12; December opens the winter.
abbrev pub season_of : ℕ → String
season_of m =
    if leb m 3
    then "WINTER"
    else if leb m 6
    then "SPRING"
    else if leb m 9
    then "SUMMER"
    else if leb m 11
    then "FALL"
    else "WINTER"

-- A month of the calendar that lies in the season.
abbrev pub HasMonthIn : String → Option ℤ → Type 0
HasMonthIn season month =
    (m : ℕ) × (month ≡ some (pos m)) × (1 ≤ m) × (m ≤ 12) × (season_of m ≡ season)

-- The texts of the four seasons differ.
seasons_differ :
    (◌≢◌ {A = String} "WINTER" "SPRING")
    × (◌≢◌ {A = String} "WINTER" "SUMMER")
    × (◌≢◌ {A = String} "WINTER" "FALL")
    × (◌≢◌ {A = String} "SPRING" "SUMMER")
    × (◌≢◌ {A = String} "SPRING" "FALL")
    × (◌≢◌ {A = String} "SUMMER" "FALL")
seasons_differ = (
  ground (arith, str_eq_iff "WINTER" "SPRING"),
  ground (arith, str_eq_iff "WINTER" "SUMMER"),
  ground (arith, str_eq_iff "WINTER" "FALL"),
  ground (arith, str_eq_iff "SPRING" "SUMMER"),
  ground (arith, str_eq_iff "SPRING" "FALL"),
  ground (arith, str_eq_iff "SUMMER" "FALL"),
)

month_in_season-season_of :
    (season : String) (m : ℕ)
    → 1 ≤ m
    → m ≤ 12
    → (month_in_season season (pos m) ≡ true) ↔ (season_of m ≡ season)
unfolding month_in_season
month_in_season-season_of season m lo hi = ground (
  arith,
  seasons_differ,
  str_eq_iff season "WINTER",
  str_eq_iff season "SPRING",
  str_eq_iff season "SUMMER",
  str_eq_iff season "FALL",
)

starts_in-HasMonthIn :
    (season : String) (month : Option ℤ) → starts_in season month ≡ true → HasMonthIn season month
unfolding starts_in
starts_in-HasMonthIn season none h = cc
starts_in-HasMonthIn season (some (negsuc n)) h = ground arith
starts_in-HasMonthIn season (some (pos m)) h =
    let lo : 1 ≤ m = ground arith in
    let hi : m ≤ 12 = ground arith in
    (m, refl, lo, hi, (month_in_season-season_of season m lo hi).0 (ground arith))

HasMonthIn-starts_in :
    (season : String) (month : Option ℤ) → HasMonthIn season month → starts_in season month ≡ true
unfolding starts_in
HasMonthIn-starts_in season month (m, e, lo, hi, s) =
    let there = (month_in_season-season_of season m lo hi).1 s in rw (e, starts_in) (ground arith)

-- A show belongs to a season if that is its season, or if it has none and starts in one of its
-- months.
pub in_season_iff :
    (season : String) (show : Show)
    → (in_season season show ≡ true)
      ↔ ((show.season ≡ season) ⊎ ((show.season ≡ "") × HasMonthIn season show.start_date.month))
unfolding in_season
in_season_iff season show = (to, from)
  where
    to :
        in_season season show ≡ true
        → (show.season ≡ season) ⊎ ((show.season ≡ "") × HasMonthIn season show.start_date.month)
    to h = elim (Bool-cases (str_eq show.season season)) [
      | inl same ↦ inl ((str_eq_iff _ _).0 same)
      | inr other ↦ inr (
        ground (arith, str_eq_iff show.season ""),
        starts_in-HasMonthIn season show.start_date.month (ground arith),
      )
    ]

    from :
        (show.season ≡ season) ⊎ ((show.season ≡ "") × HasMonthIn season show.start_date.month)
        → in_season season show ≡ true
    from (inl same) = ground (arith, str_eq_iff show.season season)
    from (inr (empty, month)) =
        ground (
          arith,
          str_eq_iff show.season "",
          HasMonthIn-starts_in season show.start_date.month month,
        )
