-- ===== src/Scheduler/Process/Laws.antt =====
-- The filters of a request as one test on a show, and the response show by show.
use sonarr_anime_bridge.Prelude.{
  ℕ, ◌≡◌, refl, ap, ◌∙◌, Bool, true, false, ◌&&◌, if◌then◌else◌, List, [], ◌∷◌, ◌++◌, Option, none,
  some, arith, any, keep, keep-keep, pos, String, str_eq,
}
use sonarr_anime_bridge.Show.{Show, is_new, is_within_months}
use sonarr_anime_bridge.Show.Dates.{Now}
use sonarr_anime_bridge.Filter.{
  in_season, filter_by_formats, filter_with_stats, filter_future_with_stats, filter_first_season,
}
use sonarr_anime_bridge.Filter.Laws.{
  passes, filter_with_stats-keep, filter_future_with_stats-keep, filter_by_formats-keep,
  filter_first_season-keep, filter_by_season-keep,
}
use sonarr_anime_bridge.Mapping.{AnibridgeMapping, ResolvedShow, resolve_batch}
use sonarr_anime_bridge.Mapping.Resolve.{last_with, outcome, resolve_batch_lem}
use sonarr_anime_bridge.Scheduler.Process.{
  FilterConfig, ResponseShow, winter_overflow, response_shows, filter_shows,
}

abbrev pub is_in_season : String → Show → Bool
is_in_season season s = if str_eq season "ALL" then true else in_season season s

abbrev pub is_included : List String → Show → Bool
is_included formats s = any (λ f. str_eq f s.format) formats

-- A show that the request may return.
abbrev pub is_wanted : (ℕ → ℕ) → Now → FilterConfig → String → String → Show → Bool
is_wanted fold now cfg season category s =
    is_in_season season s
    && (is_included cfg.include_types s
        && (passes fold cfg.exclude_tags s
            && ((if cfg.filter_future_enabled then is_within_months now s 3 else true)
                && (if str_eq category "series-new" then is_new s else true))))

keep_same : (p q : Show → Bool) (xs : List Show) → ((s : Show) → p s ≡ q s) → keep p xs ≡ keep q xs
keep_same p q [] h = refl
keep_same p q (x ∷ xs) h = ground (arith, h x, keep_same p q xs h)

keep_if :
    (b : Bool) (p : Show → Bool) (xs : List Show)
    → (if b then keep p xs else xs) ≡ keep (λ s. if b then p s else true) xs
keep_if true p xs = refl
keep_if false p [] = refl
keep_if false p (x ∷ xs) = ap (◌∷◌ x) (keep_if false p xs)

future-keep :
    (b : Bool) (now : Now) (xs : List Show)
    → (if b then (filter_future_with_stats now xs (pos 3)).0 else xs)
      ≡ keep (λ s. if b then is_within_months now s 3 else true) xs
future-keep true now xs = ap (λ r. r.0) (filter_future_with_stats-keep now xs 2)
future-keep false now xs = keep_if false (λ s. is_within_months now s 3) xs

first-keep :
    (b : Bool) (xs : List Show)
    → (if b then filter_first_season xs else xs) ≡ keep (λ s. if b then is_new s else true) xs
first-keep true xs = filter_first_season-keep xs
first-keep false xs = keep_if false is_new xs

keep_five :
    (p1 p2 p3 p4 p5 : Show → Bool) (xs : List Show)
    → keep p5 (keep p4 (keep p3 (keep p2 (keep p1 xs))))
      ≡ keep (λ s. p1 s && (p2 s && (p3 s && (p4 s && p5 s)))) xs
keep_five p1 p2 p3 p4 p5 xs =
    keep-keep p5 p4 _ ∙ keep-keep _ p3 _ ∙ keep-keep _ p2 _ ∙ keep-keep _ p1 xs

-- The shows that a request works on are those of the year, with the December shows before them for
-- winter, that pass one test: season, format, duration and tags, start within three months where that
-- filter is on, and no predecessor for the category of new series. Their order is kept.
pub filter_shows-keep :
    (fold : ℕ → ℕ) (now : Now) (cfg : FilterConfig) (shows prev_shows : List Show)
    (season category : String)
    → filter_shows fold now cfg shows prev_shows season category
      ≡ keep (is_wanted fold now cfg season category) (winter_overflow shows prev_shows season)
unfolding filter_shows
filter_shows-keep fold now cfg shows prev_shows season category =
    let start = winter_overflow shows prev_shows season in
    let new : Bool = str_eq category "series-new" in
    let future : List Show → List Show =
      λ xs. if cfg.filter_future_enabled then (filter_future_with_stats now xs (pos 3)).0 else xs in
    let first : List Show → List Show = λ xs. if new then filter_first_season xs else xs in
    let passed : List Show → List Show = λ xs. (filter_with_stats fold xs cfg.exclude_tags).0 in
    ap (λ xs. first (future (passed (filter_by_formats xs cfg.include_types))))
      (filter_by_season-keep start season)
    ∙ ap (λ xs. first (future (passed xs))) (filter_by_formats-keep _ cfg.include_types)
    ∙ ap (λ xs. first (future xs)) (ap (λ r. r.0) (filter_with_stats-keep fold cfg.exclude_tags _))
    ∙ ap first (future-keep cfg.filter_future_enabled now _)
    ∙ first-keep new _
    ∙ keep_five (is_in_season season) (is_included cfg.include_types) (passes fold cfg.exclude_tags)
        (λ s. if cfg.filter_future_enabled then is_within_months now s 3 else true)
        (λ s. if new then is_new s else true) start

-- What the response holds for a list of shows, one by one.
abbrev pub answer_for : Option ResolvedShow → List ResponseShow
answer_for none = []
answer_for (some r) =
    if r.resolved then record { tvdb_id = r.tvdb_id; title = r.title } ∷ [] else []

abbrev pub answers : AnibridgeMapping → List Show → List Show → List ResponseShow
answers m among [] = []
answers m among (s ∷ shows) =
    answer_for (outcome (some m) (last_with s.id among) none) ++ answers m among shows

pub response_shows-answers :
    (m : AnibridgeMapping) (among shows : List Show)
    → response_shows shows (resolve_batch (some m) among) ≡ answers m among shows
unfolding response_shows
response_shows-answers m among [] = refl
response_shows-answers m among (s ∷ shows) =
    ground (arith, response_shows-answers m among shows, resolve_batch_lem (some m) among s.id)
