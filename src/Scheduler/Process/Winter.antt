-- ===== src/Scheduler/Process/Winter.antt =====
-- Which shows a winter counts in (internal/scheduler/scheduler.go, the first part of `Process`).
use sonarr_anime_bridge.Prelude.{
  ◌≡◌, refl, ◌∙◌, sym, ap, Bool, true, false, not, ◌&&◌, ◌||◌, if◌then◌else◌, List, [], ◌∷◌, ◌++◌,
  keep, none, some, arith, ite, lookup, lookup-insert, insert, has, ℤ, pos, eqb_ℤ,
  ℤ_discrete as dec, String, str_eq, ltb, length, Bool-cases, inl, inr,
}
use sonarr_anime_bridge.Show.{Show}
use sonarr_anime_bridge.Filter.{filter_by_season, in_season}
use sonarr_anime_bridge.Filter.Laws.{filter_by_season-keep}
use sonarr_anime_bridge.Scheduler.Process.{seen_ids, december_of, winter_overflow}

-- A show with this number is in the list.
abbrev pub has_id : ℤ → List Show → Bool
has_id id [] = false
has_id id (s ∷ shows) = ite (dec s.id id) true (has_id id shows)

-- The shows to add to `before`: those that belong, once each, and not if their number is there.
abbrev pub additions : (Show → Bool) → List Show → List Show → List Show
additions belongs before [] = []
additions belongs before (s ∷ prior) =
    let rest = additions belongs (s ∷ before) prior in
    let skipped = additions belongs before prior in
    if not (has_id s.id before) && belongs s then s ∷ rest else skipped

-- A show of the winter season that starts in December.
abbrev pub opens_winter : Show → Bool
opens_winter s =
    in_season "WINTER" s
    && elim s.start_date.month [ none ↦ false | some month ↦ eqb_ℤ month (pos 12) ]

-- Where winter is asked for, the shows of the year and those of the year before that open it.
abbrev pub with_winter : List Show → List Show → String → List Show
with_winter shows prior season =
    if str_eq season "WINTER" then shows ++ additions opens_winter shows prior else shows

-- A number is in the set exactly if a show of the list has it.
abbrev Tracks : List (ℤ × Bool) → List Show → Type 0
Tracks seen before = (k : ℤ) → has dec k seen ≡ has_id k before

insert-Tracks :
    (s : Show) (seen : List (ℤ × Bool)) (before : List Show)
    → Tracks seen before
    → Tracks (insert dec s.id true seen) (s ∷ before)
insert-Tracks s seen before h k = ground (arith, h k, lookup-insert dec s.id k true seen)

has-seen_ids :
    (shows : List Show) (seen : List (ℤ × Bool)) (k : ℤ)
    → has dec k (seen_ids shows seen) ≡ (has_id k shows || has dec k seen)
unfolding seen_ids
has-seen_ids [] seen k = refl
has-seen_ids (s ∷ shows) seen k =
    ground
      (arith, has-seen_ids shows (insert dec s.id true seen) k, lookup-insert dec s.id k true seen)

seen_ids-Tracks : (shows : List Show) → Tracks (seen_ids shows []) shows
unfolding lookup
seen_ids-Tracks shows k = has-seen_ids shows [] k ∙ or-false (has_id k shows)
  where
    or-false : (b : Bool) → (b || false) ≡ b
    or-false true = refl
    or-false false = refl

december_of-additions :
    (prior before : List Show) (seen : List (ℤ × Bool))
    → Tracks seen before
    → december_of (keep (in_season "WINTER") prior) seen ≡ additions opens_winter before prior
unfolding december_of
december_of-additions [] before seen h = refl
december_of-additions (s ∷ prior) before seen h = ground (
  arith,
  h s.id,
  december_of-additions prior before seen h,
  december_of-additions prior (s ∷ before) (insert dec s.id true seen)
      (insert-Tracks s seen before h),
)

winter_season :
    (prior : List Show) → filter_by_season prior "WINTER" ≡ keep (in_season "WINTER") prior
winter_season prior = filter_by_season-keep prior "WINTER"

append-nil : (shows : List Show) → shows ++ [] ≡ shows
append-nil [] = refl
append-nil (s ∷ shows) = ap (◌∷◌ s) (append-nil shows)

not_empty : (s : Show) (prior : List Show) → ltb 0 (length (s ∷ prior)) ≡ true
not_empty s prior = ground arith

pub winter_overflow-with_winter :
    (shows prior : List Show) (season : String)
    → winter_overflow shows prior season ≡ with_winter shows prior season
unfolding winter_overflow
winter_overflow-with_winter shows [] season = elim (Bool-cases (str_eq season "WINTER")) [
  | inl winter ↦ rw winter (sym (append-nil shows))
  | inr other ↦ rw other refl
]
winter_overflow-with_winter shows (s ∷ prior) season = elim (Bool-cases (str_eq season "WINTER")) [
  | inl winter ↦
      rw (winter, not_empty s prior)
        (ap (λ xs. shows ++ xs)
          (ap (λ xs. december_of xs (seen_ids shows [])) (winter_season (s ∷ prior))
            ∙ december_of-additions (s ∷ prior) shows (seen_ids shows []) (seen_ids-Tracks shows)))
  | inr other ↦ rw other refl
]
