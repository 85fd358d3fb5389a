-- ===== src/Scheduler/Process/Distinct.antt =====
-- AniList numbers stay distinct through the winter overflow and the filters, so each show of a request
-- gets the answer for itself.
use sonarr_anime_bridge.Prelude.{
  ℕ, ltb, ◌≡◌, ◌≢◌, refl, ap, ◌∙◌, Bool, true, ◌&&◌, List, [], ◌∷◌, ◌++◌, none, some, arith, length,
  keep, All, All-map, lookup, insert, has, lookup-insert, lookup-insert_self, is_some, if_pos, ℤ,
  ℤ_discrete as dec, String, str_eq, Bool-cases, Option-cases, inl, inr,
}
use sonarr_anime_bridge.Show.{Show}
use sonarr_anime_bridge.Show.Dates.{Now}
use sonarr_anime_bridge.Filter.{filter_by_season}
use sonarr_anime_bridge.Mapping.{AnibridgeMapping, resolved_show, resolve_batch}
use sonarr_anime_bridge.Mapping.Resolve.{last_with}
use sonarr_anime_bridge.Scheduler.Process.{
  FilterConfig, ResponseShow, seen_ids, december_of, winter_overflow, resolve_loaded,
  response_shows, filter_shows, process,
}
use sonarr_anime_bridge.Scheduler.Process.Winter.{with_winter, winter_overflow-with_winter}
use sonarr_anime_bridge.Scheduler.Process.Laws.{
  is_wanted, filter_shows-keep, answer_for, answers, response_shows-answers,
}

abbrev pub HasDistinctIds : List Show → Type 0
HasDistinctIds [] = Unit
HasDistinctIds (s ∷ shows) = (last_with s.id shows ≡ none) × HasDistinctIds shows

seen_ids-stays :
    (shows : List Show) (seen : List (ℤ × Bool)) (k : ℤ)
    → has dec k seen ≡ true
    → has dec k (seen_ids shows seen) ≡ true
unfolding seen_ids
seen_ids-stays [] seen k h = h
seen_ids-stays (s ∷ shows) seen k h =
    seen_ids-stays shows (insert dec s.id true seen) k
      (ground (arith, lookup-insert dec s.id k true seen))

seen_ids-All :
    (shows : List Show) (seen : List (ℤ × Bool))
    → All (λ s. has dec s.id (seen_ids shows seen) ≡ true) shows
unfolding seen_ids
seen_ids-All [] seen = tt
seen_ids-All (s ∷ shows) seen = (
  seen_ids-stays shows (insert dec s.id true seen) s.id
      (ap is_some (lookup-insert_self dec s.id true seen)),
  seen_ids-All shows (insert dec s.id true seen),
)

-- What was seen is not appended.
december_of-absent :
    (prev : List Show) (seen : List (ℤ × Bool)) (k : ℤ) (b : Bool)
    → lookup dec k seen ≡ some b
    → last_with k (december_of prev seen) ≡ none
unfolding december_of
december_of-absent [] seen k b h = refl
december_of-absent (s ∷ prev) seen k b h = elim (Option-cases (lookup dec s.id seen)) [
  | inr (a, old) ↦ ground (arith, old, december_of-absent prev seen k b h)
  | inl new ↦
      let other : s.id ≢ k = λ e. cc in
      ground (
        arith,
        new,
        other,
        lookup-insert dec s.id k true seen,
        december_of-absent prev seen k b h,
        december_of-absent prev (insert dec s.id true seen) k b,
      )
]

december_of-HasDistinctIds :
    (prev : List Show) (seen : List (ℤ × Bool)) → HasDistinctIds (december_of prev seen)
unfolding december_of
december_of-HasDistinctIds [] seen = tt
december_of-HasDistinctIds (s ∷ prev) seen = ground (
  arith,
  december_of-HasDistinctIds prev seen,
  december_of-HasDistinctIds prev (insert dec s.id true seen),
  december_of-absent prev (insert dec s.id true seen) s.id true
      (lookup-insert_self dec s.id true seen),
)

last_with-append :
    (k : ℤ) (xs ys : List Show)
    → last_with k xs ≡ none
    → last_with k ys ≡ none
    → last_with k (xs ++ ys) ≡ none
last_with-append k [] ys h g = g
last_with-append k (x ∷ xs) ys h g = elim (Option-cases (last_with k xs)) [
  | inl missing ↦ ground (arith, last_with-append k xs ys missing g)
  | inr (s, there) ↦ absurd (ground arith)
]

append-HasDistinctIds :
    (xs ys : List Show)
    → HasDistinctIds xs
    → HasDistinctIds ys
    → All (λ x. last_with x.id ys ≡ none) xs
    → HasDistinctIds (xs ++ ys)
append-HasDistinctIds [] ys d e h = e
append-HasDistinctIds (x ∷ xs) ys (fresh, d) e (apart, h) =
    (last_with-append x.id xs ys fresh apart, append-HasDistinctIds xs ys d e h)

keep-last_with :
    (p : Show → Bool) (k : ℤ) (xs : List Show)
    → last_with k xs ≡ none
    → last_with k (keep p xs) ≡ none
keep-last_with p k [] h = refl
keep-last_with p k (x ∷ xs) h = elim (Option-cases (last_with k xs)) [
  | inl missing ↦ ground (arith, keep-last_with p k xs missing)
  | inr (s, there) ↦ absurd (ground arith)
]

keep-HasDistinctIds :
    (p : Show → Bool) (xs : List Show) → HasDistinctIds xs → HasDistinctIds (keep p xs)
keep-HasDistinctIds p [] d = tt
keep-HasDistinctIds p (x ∷ xs) (fresh, d) =
    ground (arith, keep-HasDistinctIds p xs d, keep-last_with p x.id xs fresh)

has-december_of :
    (prev : List Show) (seen : List (ℤ × Bool)) (k : ℤ)
    → has dec k seen ≡ true
    → last_with k (december_of prev seen) ≡ none
has-december_of prev seen k h = elim (Option-cases (lookup dec k seen)) [
  | inl missing ↦ absurd (ground arith)
  | inr (b, there) ↦ december_of-absent prev seen k b there
]

-- Adding December does not bring in a number twice.
pub winter_overflow-HasDistinctIds :
    (shows prev_shows : List Show) (season : String)
    → HasDistinctIds shows
    → HasDistinctIds (winter_overflow shows prev_shows season)
unfolding winter_overflow
winter_overflow-HasDistinctIds shows prev_shows season d =
    elim (Bool-cases (str_eq season "WINTER" && ltb 0 (length prev_shows))) [
      | inr none_before ↦ rw none_before d
      | inl winter ↦
          let seen = seen_ids shows [] in
          let prev = filter_by_season prev_shows "WINTER" in
          rw winter (
            append-HasDistinctIds shows (december_of prev seen) d
              (december_of-HasDistinctIds prev seen)
              (All-map (λ s h. has-december_of prev seen s.id h) shows (seen_ids-All shows [])))
    ]

-- The answers with each show looked up for itself.
abbrev pub own_answers : AnibridgeMapping → List Show → List ResponseShow
own_answers m [] = []
own_answers m (s ∷ shows) = answer_for (some (resolved_show (some m) s)) ++ own_answers m shows

last_with-own :
    (shows : List Show) → HasDistinctIds shows → All (λ s. last_with s.id shows ≡ some s) shows
last_with-own [] d = tt
last_with-own (s ∷ shows) (fresh, d) = (
  rw (fresh, last_with) (if_pos (dec s.id s.id) refl _ _),
  All-map (λ x h. ground (arith, h)) shows (last_with-own shows d),
)

answers-own :
    (m : AnibridgeMapping) (among shows : List Show)
    → All (λ s. last_with s.id among ≡ some s) shows
    → answers m among shows ≡ own_answers m shows
answers-own m among [] h = refl
answers-own m among (s ∷ shows) (own, h) = ground (arith, own, answers-own m among shows h)

-- The response of a request on a year whose shows have distinct numbers: the wanted shows of the year and
-- of the December before, in order, each with its own TVDB number and title, and those without a
-- TVDB number left out. The December before counts only for winter: its shows are those of that
-- season which start in December, once each, and not if the year has their number. Without a mapping
-- the response is empty.
pub process-own_answers :
    (fold : ℕ → ℕ) (now : Now) (cfg : FilterConfig) (m : AnibridgeMapping) (tracking : Bool)
    (shows prev_shows : List Show) (season category : String)
    → HasDistinctIds shows
    → ((process fold now cfg (some m) tracking shows prev_shows season category).0
        ≡ own_answers m
            (keep (is_wanted fold now cfg season category) (with_winter shows prev_shows season)))
      × ((process fold now cfg none tracking shows prev_shows season category).0 ≡ [])
unfolding process resolve_loaded response_shows lookup
process-own_answers fold now cfg m tracking shows prev_shows season category d =
    let wanted = is_wanted fold now cfg season category in
    let start = winter_overflow shows prev_shows season in
    let distinct =
      keep-HasDistinctIds wanted start (winter_overflow-HasDistinctIds shows prev_shows season d) in
    (
      ap (λ xs. response_shows xs (resolve_batch (some m) xs))
            (filter_shows-keep fold now cfg shows prev_shows season category)
          ∙ response_shows-answers m (keep wanted start) (keep wanted start)
          ∙ answers-own m (keep wanted start) (keep wanted start)
              (last_with-own (keep wanted start) distinct)
          ∙ ap (λ xs. own_answers m (keep wanted xs))
              (winter_overflow-with_winter shows prev_shows season),
      nothing (filter_shows fold now cfg shows prev_shows season category),
    )
  where
    nothing : (xs : List Show) → response_shows xs [] ≡ []
    nothing [] = refl
    nothing (x ∷ xs) = nothing xs
