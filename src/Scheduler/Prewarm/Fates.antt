-- ===== src/Scheduler/Prewarm/Fates.antt =====
-- What becomes of the years that `Prewarm` goes through (internal/scheduler/scheduler.go), and the counts that
-- go with it.
use sonarr_anime_bridge.Prelude.{
  if◌then◌else◌, ℕ, suc, ◌+◌, ◌≡◌, ◌&&◌, not, ap, refl, ◌∙◌, Bool, true, false, List, [], ◌∷◌,
  length, Option, none, some, ℤ, arith,
}
use sonarr_anime_bridge.Retry.{DbResult, ok, err}
use sonarr_anime_bridge.DecodedYear.{DecodedYear}
use sonarr_anime_bridge.Scheduler.Failures.{RetryLimits}
use sonarr_anime_bridge.Scheduler.Fetch.{FetchError, FetchState}
use sonarr_anime_bridge.Scheduler.Prewarm.{
  Encode, fetch_with, PrewarmError, not_fetched, YearAnswers, Prewarming,
}

-- The context does not end around the fetch of a year, and what is stored can be read.
abbrev pub Completes : ℤ × YearAnswers → Type 0
Completes (year, a) = (a.ends_before ≡ false) × (a.ends_after ≡ false) × (a.hydrate ≡ none)

-- What becomes of a year: it is in the cache, it is fetched, or its fetch fails.
pub data Fate : Type 0 where
  kept fetched : Fate
  failed : FetchError → Fate

-- The cache has the year, fresh, and it decodes.
abbrev pub is_fresh_hit : DbResult DecodedYear → Bool
is_fresh_hit (err e) = false
is_fresh_hit (ok d) = d.present && (d.fresh && not d.decode_err)

-- The fate of a year by the result of its fetch.
abbrev pub fate_of : Bool × Option FetchError → Fate
fate_of (did_fetch, some e) = failed e
fate_of (true, none) = fetched
fate_of (false, none) = kept

-- How many years had to be fetched, were there, and failed, and the errors in order.
abbrev pub how_many_kept : List Fate → ℕ
how_many_kept [] = 0
how_many_kept (kept ∷ fates) = suc (how_many_kept fates)
how_many_kept (fetched ∷ fates) = how_many_kept fates
how_many_kept (failed e ∷ fates) = how_many_kept fates

abbrev pub how_many_fetched : List Fate → ℕ
how_many_fetched [] = 0
how_many_fetched (kept ∷ fates) = how_many_fetched fates
how_many_fetched (fetched ∷ fates) = suc (how_many_fetched fates)
how_many_fetched (failed e ∷ fates) = how_many_fetched fates

abbrev pub errors : List Fate → List FetchError
errors [] = []
errors (kept ∷ fates) = errors fates
errors (fetched ∷ fates) = errors fates
errors (failed e ∷ fates) = e ∷ errors fates

abbrev pub first_of : List FetchError → Option PrewarmError
first_of [] = none
first_of (e ∷ es) = some (not_fetched e)

module _ (limits : RetryLimits) (encode : Encode) where
  -- The fate of a year, and the state after it. A year that is there is not fetched.
  abbrev pub one_fate : ℤ → YearAnswers → FetchState → Fate × FetchState
  one_fate year a s =
      let (s', did_fetch, e) = fetch_with limits encode year a.fetch s in
      if is_fresh_hit a.peek then (kept, s) else (fate_of (did_fetch, e), s')

  -- The fate of each year in turn.
  abbrev pub fates : List (ℤ × YearAnswers) → FetchState → List Fate
  fates [] s = []
  fates ((year, a) ∷ years) s = let (f, s') = one_fate year a s in f ∷ fates years s'

  pub fates-length :
      (years : List (ℤ × YearAnswers)) (s : FetchState)
      → how_many_kept (fates years s)
          + how_many_fetched (fates years s)
          + length (errors (fates years s))
        ≡ length years
  fates-length [] s = refl
  fates-length ((year, a) ∷ years) s =
      let (f, s') = one_fate year a s in one_more f (fates years s') (fates-length years s')
    where
      one_more :
          {n : ℕ} (f : Fate) (fs : List Fate)
          → how_many_kept fs + how_many_fetched fs + length (errors fs) ≡ n
          → how_many_kept (f ∷ fs) + how_many_fetched (f ∷ fs) + length (errors (f ∷ fs)) ≡ suc n
      one_more kept fs h = omega (arith, h)
      one_more fetched fs h = omega (arith, h)
      one_more (failed e) fs h = omega (arith, h)

-- The counts and the error agree with what became of the years.
abbrev pub IsCounted : List Fate → Prewarming → Type 0
IsCounted fs p =
    (p.cached ≡ how_many_kept fs)
    × (p.fetched ≡ how_many_fetched fs)
    × (p.failed ≡ length (errors fs))
    × (p.error ≡ first_of (errors fs))

abbrev pub or_first : Option PrewarmError → Option PrewarmError → Option PrewarmError
or_first none e = e
or_first (some first) e = some first

-- What years of these fates add to the counts, and to the error.
abbrev pub Adds : List Fate → Prewarming → Prewarming → Type 0
Adds fs p q =
    (q.cached ≡ p.cached + how_many_kept fs)
    × (q.fetched ≡ p.fetched + how_many_fetched fs)
    × (q.failed ≡ p.failed + length (errors fs))
    × (q.error ≡ or_first p.error (first_of (errors fs)))

pub or_first-none : (e : Option PrewarmError) → or_first e none ≡ e
or_first-none none = refl
or_first-none (some e) = refl

pub Adds-step :
    (f : Fate) (fs : List Fate) (p q r : Prewarming)
    → Adds (f ∷ []) p q
    → Adds fs q r
    → Adds (f ∷ fs) p r
Adds-step kept fs p q r (a, b, c, d) (a', b', c', d') = (
  omega (arith, a, a'),
  omega (arith, b, b'),
  omega (arith, c, c'),
  d' ∙ ap (λ x. or_first x (first_of (errors fs))) (d ∙ or_first-none p.error),
)
Adds-step fetched fs p q r (a, b, c, d) (a', b', c', d') = (
  omega (arith, a, a'),
  omega (arith, b, b'),
  omega (arith, c, c'),
  d' ∙ ap (λ x. or_first x (first_of (errors fs))) (d ∙ or_first-none p.error),
)
Adds-step (failed e) fs p q r (a, b, c, d) (a', b', c', d') = (
  omega (arith, a, a'),
  omega (arith, b, b'),
  omega (arith, c, c'),
  d' ∙ ap (λ x. or_first x (first_of (errors fs))) d ∙ again p.error,
)
  where
    again :
        (x : Option PrewarmError)
        → or_first (or_first x (some (not_fetched e))) (first_of (errors fs))
          ≡ or_first x (some (not_fetched e))
    again none = refl
    again (some y) = refl
