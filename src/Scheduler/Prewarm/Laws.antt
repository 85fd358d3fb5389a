-- ===== src/Scheduler/Prewarm/Laws.antt =====
-- The counts and the error of `Prewarm`, and the years that `refreshStaleYears` leaves alone
-- (internal/scheduler/scheduler.go).
use mathlib.Core.Path.{subst}
use sonarr_anime_bridge.Prelude.{
  ℕ, ◌+◌, ◌≡◌, ◌≢◌, sym, refl, ◌∙◌, Bool, true, false, ltb, List, [], ◌∷◌, length, Option, none,
  some, ℤ, ℤ_discrete as dec, lookup, lookup-insert, All, arith, Bool-cases, Option-cases, inl, inr,
  if_neg,
}
use sonarr_anime_bridge.Retry.{DbError, DbResult, ok, err}
use sonarr_anime_bridge.Cache.{Cache, Row, Clock, set_year, stale_years, needs_refresh_years}
use sonarr_anime_bridge.DecodedYear.{DecodedYear}
use sonarr_anime_bridge.Scheduler.Failures.{RetryLimits, fetch_cooldown_remaining}
use sonarr_anime_bridge.Scheduler.Fetch.{
  Cause, failure, cache_check, cooldown, cause_of, FetchError, Upstream, returns, fails, panics,
  FetchState, is_served, finish_fetch, fetch_upstream, fetch_and_store,
}
use sonarr_anime_bridge.Scheduler.Prewarm.{
  FetchAnswers, Encode, fetch_with, PrewarmError, not_fetched, first_error, YearAnswers, Prewarming,
  is_cached, count_fetch, prewarm_year, prewarm_from, prewarm, not_started, refresh_from,
  refresh_stale_years,
}
use sonarr_anime_bridge.Scheduler.Prewarm.Fates.{
  Completes, is_fresh_hit, fate_of, one_fate, fates, fates-length, IsCounted, or_first,
  or_first-none, Adds, Adds-step,
}

module _ (limits : RetryLimits) (encode : Encode) (ended : Cause) where
  count_fetch-Adds :
      (did_fetch : Bool) (e : Option FetchError) (s : FetchState) (p : Prewarming)
      → let (q, left) = count_fetch ended false none did_fetch e (record p { state = s }) in
        Adds (fate_of (did_fetch, e) ∷ []) p q × (q.state ≡ s) × (left ≡ false)
  unfolding count_fetch
  count_fetch-Adds true none s p =
      ((omega arith, omega arith, omega arith, sym (or_first-none p.error)), refl, refl)
  count_fetch-Adds false none s p =
      ((omega arith, omega arith, omega arith, sym (or_first-none p.error)), refl, refl)
  count_fetch-Adds did_fetch (some e) s p =
      ((omega arith, omega arith, omega arith, kept_first p.error), refl, refl)
    where
      kept_first :
          (x : Option PrewarmError)
          → first_error x (not_fetched e) ≡ or_first x (some (not_fetched e))
      kept_first none = refl
      kept_first (some y) = refl

  is_cached-is_fresh_hit : (peek : DbResult DecodedYear) → is_cached peek ≡ is_fresh_hit peek
  is_cached-is_fresh_hit (ok d) = refl
  is_cached-is_fresh_hit (err e) = refl

  prewarm_year-Adds :
      (year : ℤ) (a : YearAnswers) (p : Prewarming)
      → Completes (year, a)
      → let (q, left) = prewarm_year limits encode ended year a p in
        let (f, s') = one_fate limits encode year a p.state in
        Adds (f ∷ []) p q × (q.state ≡ s') × (left ≡ false)
  unfolding prewarm_year
  prewarm_year-Adds year a p (b, c, z) =
      let same = is_cached-is_fresh_hit a.peek in
      elim (Bool-cases (is_fresh_hit a.peek)) [
        | inl hit ↦
            simp (b, same, hit)
              ((omega arith, omega arith, omega arith, sym (or_first-none p.error)), refl, refl)
        | inr miss ↦
            let (s', did_fetch, e) = fetch_with limits encode year a.fetch p.state in
            simp (b, same, miss, c, z) (count_fetch-Adds did_fetch e s' p)
      ]

  prewarm_from-Adds :
      (years : List (ℤ × YearAnswers)) (p : Prewarming)
      → All Completes years
      → Adds (fates limits encode years p.state) p (prewarm_from limits encode ended years p)
  unfolding prewarm_from
  prewarm_from-Adds [] p h = (omega arith, omega arith, omega arith, sym (or_first-none p.error))
  prewarm_from-Adds ((year, a) ∷ years) p (c, h) =
      let (added, moved, stays) = prewarm_year-Adds year a p c in
      let (q, left) = prewarm_year limits encode ended year a p in
      let (f, s') = one_fate limits encode year a p.state in
      let rest =
        subst (λ s. Adds (fates limits encode years s) q (prewarm_from limits encode ended years q))
          moved (prewarm_from-Adds years q h) in
      rw (stays, prewarm_from)
        (Adds-step f (fates limits encode years s') p q (prewarm_from limits encode ended years q)
          added rest)

  -- While the context does not end and what is stored can be read, each configured year is counted once, by
  -- its fate in turn: as cached if it is in the cache, fresh and decodable, or its fetch finds it so; as
  -- fetched, or as failed, by the result of its fetch, which goes by the state that the years before have
  -- left. The error is the first one of a fetch, and there is none exactly if no fetch has failed.
  pub prewarm-IsCounted :
      (years : List (ℤ × YearAnswers)) (s : FetchState)
      → All Completes years
      → IsCounted (fates limits encode years s) (prewarm limits encode ended years s)
        × ((prewarm limits encode ended years s).cached
              + (prewarm limits encode ended years s).fetched
              + (prewarm limits encode ended years s).failed
            ≡ length years)
  unfolding prewarm
  prewarm-IsCounted years s h =
      let (a, b, c, d) = prewarm_from-Adds years (not_started s) h in
      let all = fates-length limits encode years s in
      ((omega (arith, a), omega (arith, b), omega (arith, c), d), omega (arith, a, b, c, all))

-- The row of a year.
abbrev pub row_of : ℤ → FetchState → Option Row
row_of y s = lookup dec y s.cache.year_cache

module _ (limits : RetryLimits) (encode : Encode) where
  set_year-row :
      (year y : ℤ) (bytes : List ℕ) (now : Clock) (write : Option DbError) (c : Cache)
      → year ≢ y
      → lookup dec y (set_year year bytes now write c).0.year_cache ≡ lookup dec y c.year_cache
  unfolding set_year
  set_year-row year y bytes now (some e) c n = refl
  set_year-row year y bytes now none c n = rw lookup-insert (if_neg (dec year y) n _ _)

  fetch_upstream-row :
      (year y : ℤ) (ended : Cause) (up : Upstream) (stored : Clock) (write : Option DbError)
      (c : Cache)
      → year ≢ y
      → lookup dec y (fetch_upstream encode year ended up stored write c).0.year_cache
        ≡ lookup dec y c.year_cache
  unfolding fetch_upstream
  fetch_upstream-row year y ended panics stored write c n = refl
  fetch_upstream-row year y ended (fails cause) stored write c n = refl
  fetch_upstream-row year y ended (returns shows) stored write c n =
      elim (Option-cases (encode shows)) [
        | inl e ↦ rw (e, fetch_upstream) refl
        | inr (bytes, e) ↦ rw (e, fetch_upstream) (set_year-row year y bytes stored write c n)
      ]

  finish_fetch-row :
      (year y : ℤ) (finished : ℕ) (attempted : Bool) (e : Option FetchError) (s : FetchState)
      → row_of y (finish_fetch limits year finished attempted e s).0 ≡ row_of y s
  unfolding finish_fetch
  finish_fetch-row year y finished attempted none s = refl
  finish_fetch-row year y finished attempted (some e) s = ground arith

  fetch_and_store-row :
      (cached : DbResult DecodedYear) (year y : ℤ) (checked : ℕ) (ended : Cause) (up : Upstream)
      (stored : Clock) (write : Option DbError) (finished : ℕ) (s : FetchState)
      → year ≢ y
      → row_of y
          (fetch_and_store limits encode year cached checked ended up stored write finished s).0
        ≡ row_of y s
  unfolding fetch_and_store
  fetch_and_store-row (err e) year y checked ended up stored write finished s n =
      finish_fetch-row year y finished false
        (some (record { stage = cache_check; cause = cause_of ended e })) s
  fetch_and_store-row (ok cached) year y checked ended up stored write finished s n =
      elim (Bool-cases (is_served cached)) [
        | inl p ↦ rw p (finish_fetch-row year y finished false none s)
        | inr p ↦ elim (Bool-cases (ltb 0 (fetch_cooldown_remaining year checked s.failures))) [
          | inl q ↦
              rw (p, q)
                (finish_fetch-row year y finished false
                  (some (record { stage = cooldown; cause = failure })) s)
          | inr q ↦
              rw (p, q)
                (finish_fetch-row year y finished true
                    (fetch_upstream encode year ended up stored write s.cache).1
                    (record s {
                      cache = (fetch_upstream encode year ended up stored write s.cache).0;
                    })
                  ∙ fetch_upstream-row year y ended up stored write s.cache n)
        ]
      ]

  fetch_with-row :
      (year y : ℤ) (f : FetchAnswers) (s : FetchState)
      → year ≢ y
      → row_of y (fetch_with limits encode year f s).0 ≡ row_of y s
  fetch_with-row year y f s n =
      fetch_and_store-row f.cached year y f.checked f.ended f.up f.stored f.write f.finished s n

  refresh_from-row :
      (answers : ℤ → Bool × FetchAnswers) (years : List ℤ) (y : ℤ) (s : FetchState)
      → All (λ year. year ≢ y) years
      → row_of y (refresh_from limits encode answers years s) ≡ row_of y s
  unfolding refresh_from
  refresh_from-row answers [] y s h = refl
  refresh_from-row answers (year ∷ years) y s (n, h) = elim (Bool-cases (answers year).0) [
    | inl e ↦ rw (e, refresh_from) refl
    | inr e ↦
        rw (e, refresh_from)
          (refresh_from-row answers years y (fetch_with limits encode year (answers year).1 s).0 h
            ∙ fetch_with-row year y (answers year).1 s n)
  ]

  -- The refresh leaves the row of every year that is not due, whatever AniList and the database answer.
  pub refresh_stale_years-row :
      (now : Clock) (answer : Option DbError) (answers : ℤ → Bool × FetchAnswers) (y : ℤ)
      (s : FetchState)
      → All (λ year. year ≢ y) (stale_years now.year 1 7 now s.cache.year_cache)
      → row_of y (refresh_stale_years limits encode now answer answers s) ≡ row_of y s
  unfolding refresh_stale_years needs_refresh_years
  refresh_stale_years-row now (some e) answers y s h = refl
  refresh_stale_years-row now none answers y s h = refresh_from-row answers _ y s h
