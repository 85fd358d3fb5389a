-- ===== src/Server/List.antt =====
-- `handleList` (cmd/server/main.go). The normalised season and category, what `strconv.Atoi` makes of the year,
-- and the answers of the cache and of the fetch are arguments. The response is a value instead of its
-- JSON, whose encoding cannot fail; log metadata is left out.
pub mod Laws
pub mod Answer
use sonarr_anime_bridge.Prelude.{
  ℕ, ◌+◌, ◌≤◌, ◌≡◌, ◌≢◌, ◌↔◌, ◌⊎◌, inl, inr, refl, ap, Bool, true, false, not, ◌&&◌, ◌||◌,
  if◌then◌else◌, List, [], ◌∷◌, any, Option, none, some, arith, ℤ, pos, ◌+ℤ◌, ◌-ℤ◌, ltb_ℤ, leb_ℤ,
  String, str_eq, str_eq_iff, Bool-cases,
}
use sonarr_anime_bridge.Show.{Show}
use sonarr_anime_bridge.Show.Dates.{Now}
use sonarr_anime_bridge.Retry.{DbError, DbResult, ok, err}
use sonarr_anime_bridge.DecodedYear.{DecodedYear}
use sonarr_anime_bridge.Mapping.{AnibridgeMapping}
use sonarr_anime_bridge.Scheduler.Process.{FilterConfig, ResponseShow, process}
use sonarr_anime_bridge.Server.Health.{is_read}

-- `year` is `none` without the parameter, and `some none` where it is no number.
pub record ListRequest : Type 0 where
  pub method : String
  pub season : String
  pub year : Option (Option ℤ)
  pub category : String

pub data Rejection : Type 0 where
  method_not_allowed invalid_season resolver_not_loaded : Rejection
  invalid_year year_out_of_range invalid_category : Rejection

unfoldable pub status_of : Rejection → ℕ
status_of method_not_allowed = 405
status_of invalid_season = 400
status_of resolver_not_loaded = 503
status_of invalid_year = 400
status_of year_out_of_range = 400
status_of invalid_category = 400

pub data Checked {ℓ} (A : Type ℓ) : Type ℓ where
  refuses : Rejection → Checked A
  accepts : A → Checked A

abbrev pub valid_seasons : List String
valid_seasons = "WINTER" ∷ "SPRING" ∷ "SUMMER" ∷ "FALL" ∷ "ALL" ∷ []

abbrev pub season_or_all : String → String
season_or_all season = if str_eq season "" then "ALL" else season

abbrev pub category_or_series : String → String
category_or_series category = if str_eq category "" then "series" else category

-- The year of the request, by this year.
unfoldable pub choose_year : ℤ → Option (Option ℤ) → Checked ℤ
choose_year this_year none = accepts this_year
choose_year this_year (some none) = refuses invalid_year
choose_year this_year (some (some y)) =
    if leb_ℤ y (pos 0)
    then refuses invalid_year
    else if ltb_ℤ y (this_year -ℤ pos 10) || ltb_ℤ (this_year +ℤ pos 10) y
    then refuses year_out_of_range
    else accepts y

pub record ListQuery : Type 0 where
  pub season : String
  pub year : ℤ
  pub category : String

-- The checks before the cache is read.
unfoldable pub check_request : ListRequest → Bool → ℤ → Checked ListQuery
unfolding choose_year
check_request r resolver_loaded this_year =
    if not (is_read r.method)
    then refuses method_not_allowed
    else if not (any (str_eq (season_or_all r.season)) valid_seasons)
    then refuses invalid_season
    else if not resolver_loaded
    then refuses resolver_not_loaded
    else elim (choose_year this_year r.year) [
      | refuses e ↦ refuses e
      | accepts year ↦
          if str_eq r.category "" || (str_eq r.category "series" || str_eq r.category "series-new")
          then accepts (record {
            season = season_or_all r.season;
            year = year;
            category = category_or_series r.category;
          })
          else refuses invalid_category
    ]

-- `lists` holds the response, whether a refresh of the year was asked for, and whether one of the year before.
pub data ListAnswer : Type 0 where
  rejects : Rejection → ListAnswer
  internal_error responds_empty : ListAnswer
  lists : List ResponseShow → Bool → Bool → ListAnswer

abbrev pub is_missing : DecodedYear → Bool
is_missing data_ = not data_.present || data_.decode_err

-- What the handler reads: the year, the result of its fetch, the year again, and the year before.
pub record ListReads : Type 0 where
  pub first : DbResult DecodedYear
  pub fetch_failed : Bool
  pub second : DbResult DecodedYear
  pub prior : DbResult DecodedYear

-- The year to answer from, after a fetch where it is missing.
unfoldable pub year_to_list : ListReads → DbResult (Option DecodedYear)
year_to_list r = elim r.first [
  | err e ↦ err e
  | ok data_ ↦
      if not (is_missing data_)
      then ok (some data_)
      else if r.fetch_failed
      then ok none
      else elim r.second [
        | err e ↦ err e
        | ok again ↦ if is_missing again then ok none else ok (some again)
      ]
]

-- The shows of the year before, and whether they are to be fetched.
unfoldable pub prior_shows : String → DbResult DecodedYear → DbResult (List Show × Bool)
prior_shows season prior = if not (str_eq season "WINTER") then ok ([], false) else elim prior [
  | err e ↦ err e
  | ok data_ ↦ if is_missing data_ then ok ([], true) else ok (data_.shows, false)
]

module _ (fold : ℕ → ℕ) (now : Now) (cfg : FilterConfig) (mapping : Option AnibridgeMapping) where
  unfoldable pub list_year : ListQuery → ListReads → Bool → ListAnswer
  unfolding year_to_list prior_shows
  list_year q r tracking = elim (year_to_list r) [
    | err e ↦ internal_error
    | ok found ↦ elim found [
      | none ↦ responds_empty
      | some data_ ↦ elim (prior_shows q.season r.prior) [
        | err e ↦ internal_error
        | ok prior ↦
            lists (process fold now cfg mapping tracking data_.shows prior.0 q.season q.category).0
              (not data_.fresh) prior.1
      ]
    ]
  ]

  unfoldable pub handle_list : ListRequest → Bool → ℤ → ListReads → Bool → ListAnswer
  unfolding check_request list_year
  handle_list request resolver_loaded this_year r tracking =
      elim (check_request request resolver_loaded this_year) [
        | refuses e ↦ rejects e
        | accepts q ↦ list_year q r tracking
      ]
