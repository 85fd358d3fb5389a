-- ===== src/Filter/Laws.antt =====
-- What the filters return and count.
use sonarr_anime_bridge.Prelude.{
  ℕ, suc, ◌+◌, ◌≡◌, refl, ap, Bool, true, not, ◌&&◌, if◌then◌else◌, List, [], ◌∷◌, any, arith,
  length, keep, pos, String, str_eq,
}
use native.Mathlib.Nat.{zero-add}
use sonarr_anime_bridge.Compact.Laws.{sieve, compact-sieve, compact-keep}
use sonarr_anime_bridge.Show.{Show, is_new, skip_by_duration, has_tag, is_within_months}
use sonarr_anime_bridge.Show.Dates.{Now}
use sonarr_anime_bridge.Filter.{
  FilterStats, FutureStats, compact_by, has_excluded_tag, count_skips, filter_with_stats,
  count_future, filter_future_with_stats, filter_by_formats, in_season, filter_by_season,
  filter_first_season,
}

pub compact_by-keep : (p : Show → Bool) (shows : List Show) → compact_by p shows ≡ keep p shows
compact_by-keep p shows = ap (λ r. r.0) (compact-keep p shows)

-- How many members pass a test.
abbrev pub count {ℓ} : {A : Type ℓ} → (A → Bool) → List A → ℕ
count p [] = 0
count p (x ∷ xs) = if p x then suc (count p xs) else count p xs

-- An excluded tag is a nonempty entry of the list that the show has.
pub has_excluded_tag-any :
    (fold : ℕ → ℕ) (show : Show) (tags : List String)
    → has_excluded_tag fold show tags
      ≡ any (λ tag. not (str_eq tag "") && has_tag fold show tag) tags
unfolding has_excluded_tag
has_excluded_tag-any fold show [] = refl
has_excluded_tag-any fold show (tag ∷ tags) = ground (arith, has_excluded_tag-any fold show tags)

module _ (fold : ℕ → ℕ) (exclude_tags : List String) where
  -- A show is kept if it is long enough and has no excluded tag.
  abbrev pub passes : Show → Bool
  passes show = not (skip_by_duration show) && not (has_excluded_tag fold show exclude_tags)

  abbrev pub tagged : Show → Bool
  tagged show = not (skip_by_duration show) && has_excluded_tag fold show exclude_tags

  sieve-count_skips :
      (stats : FilterStats) (shows : List Show)
      → sieve (count_skips fold exclude_tags) stats shows ≡ (
        keep passes shows,
        record {
          skipped_duration = stats.skipped_duration + count skip_by_duration shows;
          skipped_tags = stats.skipped_tags + count tagged shows;
        },
      )
  unfolding sieve count_skips
  sieve-count_skips stats [] = ground arith
  sieve-count_skips stats (show ∷ shows) =
      ground (arith, sieve-count_skips (count_skips fold exclude_tags show stats).0 shows)

  abbrev none_skipped : FilterStats
  none_skipped = record { skipped_duration = 0; skipped_tags = 0 }

  -- The shows that pass are returned in their order, and each other show is counted once, under
  -- its duration if that is short, and else under its tags.
  pub filter_with_stats-keep :
      (shows : List Show)
      → filter_with_stats fold shows exclude_tags ≡ (
        keep passes shows,
        record {
          skipped_duration = count skip_by_duration shows;
          skipped_tags = count tagged shows;
        },
      )
  unfolding filter_with_stats
  filter_with_stats-keep shows = simp (compact-sieve, sieve-count_skips, zero-add)

  pub passes_total :
      (shows : List Show)
      → length (keep passes shows) + count skip_by_duration shows + count tagged shows
        ≡ length shows
  passes_total [] = refl
  passes_total (show ∷ shows) = ground (arith, passes_total shows)

  -- The returned shows and the two counts add up to the shows that came in.
  pub filter_with_stats-total :
      (shows : List Show)
      → length (filter_with_stats fold shows exclude_tags).0
          + (filter_with_stats fold shows exclude_tags).1.skipped_duration
          + (filter_with_stats fold shows exclude_tags).1.skipped_tags
        ≡ length shows
  filter_with_stats-total shows = rw filter_with_stats-keep (passes_total shows)

sieve-count_future :
    (now : Now) (months : ℕ) (stats : FutureStats) (shows : List Show)
    → sieve (count_future now months) stats shows ≡ (
      keep (λ s. is_within_months now s months) shows,
      record {
        skipped_future =
            stats.skipped_future + count (λ s. not (is_within_months now s months)) shows;
      },
    )
unfolding sieve count_future
sieve-count_future now months stats [] = ground arith
sieve-count_future now months stats (show ∷ shows) =
    ground (arith, sieve-count_future now months (count_future now months show stats).0 shows)

-- A horizon of no months or fewer keeps all; any other keeps what starts within it, and counts the
-- rest.
pub filter_future_with_stats-keep :
    (now : Now) (shows : List Show) (months : ℕ)
    → filter_future_with_stats now shows (pos (suc months)) ≡ (
      keep (λ s. is_within_months now s (suc months)) shows,
      record { skipped_future = count (λ s. not (is_within_months now s (suc months))) shows },
    )
unfolding filter_future_with_stats
filter_future_with_stats-keep now shows months =
    rw compact-sieve
      (ground (arith, sieve-count_future now (suc months) (record { skipped_future = 0 }) shows))

pub filter_by_formats-keep :
    (shows : List Show) (formats : List String)
    → filter_by_formats shows formats ≡ keep (λ s. any (λ f. str_eq f s.format) formats) shows
unfolding filter_by_formats
filter_by_formats-keep shows formats = compact_by-keep _ shows

pub filter_first_season-keep : (shows : List Show) → filter_first_season shows ≡ keep is_new shows
unfolding filter_first_season
filter_first_season-keep shows = compact_by-keep _ shows

-- "ALL" passes the slice on as it is; any other season keeps the shows of that season.
pub filter_by_season-keep :
    (shows : List Show) (season : String)
    → filter_by_season shows season
      ≡ keep (λ s. if str_eq season "ALL" then true else in_season season s) shows
unfolding filter_by_season
filter_by_season-keep shows season =
    ground (arith, compact_by-keep (in_season season) shows, keep_all shows)
  where
    keep_all : (xs : List Show) → keep (λ _. true) xs ≡ xs
    keep_all [] = refl
    keep_all (x ∷ xs) = ap (◌∷◌ x) (keep_all xs)
