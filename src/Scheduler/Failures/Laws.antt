-- ===== src/Scheduler/Failures/Laws.antt =====
-- The bound on the tracked failures, and the length of a cooldown.
use sonarr_anime_bridge.Prelude.{
  keep-HasDistinctKeys, ℕ, suc, ◌+◌, ◌*◌, ◌^◌, ◌≤◌, ◌<◌, ◌≡◌, inl, inr, refl, ap, ◌∙◌, ltb, leb,
  min, if◌then◌else◌, List, [], ◌∷◌, none, some, arith, length, keep, length-keep-le, lookup,
  delete, insert, HasDistinctKeys, lookup-insert_self, lookup-delete_self, delete-HasDistinctKeys,
  length-delete-le, length-delete_present, ℤ, ℤ_discrete as dec, Option-cases, Bool-cases,
}
use native.Mathlib.Nat.{mul-pos, pow-suc}
use sonarr_anime_bridge.Retry.Laws.{positive-pow}
use sonarr_anime_bridge.Scheduler.Failures.{
  FetchFailure, RetryLimits, base_delay, max_delay, max_tracked_fetch_failures,
  fetch_cooldown_remaining, next_delay, retry_delay, is_recent, delete_oldest, make_room,
  record_fetch_failure, clear_fetch_failure,
}
use sonarr_anime_bridge.Scheduler.Failures.Oldest.{delete_oldest-lem}

-- The failures of at most so many years are tracked, each year once.
pub record IsBounded (failures : List (ℤ × FetchFailure)) : Type 0 where
  pub distinct : HasDistinctKeys dec failures
  pub few : length failures ≤ max_tracked_fetch_failures

abbrev recent : RetryLimits → ℕ → List (ℤ × FetchFailure) → List (ℤ × FetchFailure)
recent limits now fs = keep (is_recent limits now) fs

module _ (year : ℤ) where
  -- After making room there is a place for the year.
  make_room-room :
      (fs : List (ℤ × FetchFailure))
      → IsBounded fs
      → HasDistinctKeys dec (make_room year fs)
        × (length (delete dec year (make_room year fs)) < max_tracked_fetch_failures)
  unfolding make_room
  make_room-room fs b = elim (Option-cases (lookup dec year fs)) [
    | inl missing ↦ elim (Bool-cases (leb max_tracked_fetch_failures (length fs))) [
      | inl full ↦
          let (o, _, shape, less) = delete_oldest-lem fs b.distinct (ground arith) in
          (
            rw (missing, full) (rw shape (delete-HasDistinctKeys dec o.0 fs b.distinct)),
            rw (missing, full)
                (omega (arith, length-delete-le dec year (delete_oldest fs), less, b.few)),
          )
      | inr room ↦ (
        rw (missing, room) b.distinct,
        rw (missing, room) (ground (arith, length-delete-le dec year fs)),
      )
    ]
    | inr (f, there) ↦ (
      rw there b.distinct,
      rw there (omega (arith, length-delete_present dec year fs f b.distinct there, b.few)),
    )
  ]

  -- With at most 256 failures tracked, each year once, recording another one keeps that so.
  pub record_fetch_failure-IsBounded :
      (limits : RetryLimits) (now : ℕ) (fs : List (ℤ × FetchFailure))
      → IsBounded fs
      → IsBounded (record_fetch_failure limits year now fs)
  unfolding record_fetch_failure insert
  record_fetch_failure-IsBounded limits now fs b =
      let kept : IsBounded (recent limits now fs) = record {
        distinct = keep-HasDistinctKeys dec (is_recent limits now) fs b.distinct;
        few = omega (arith, length-keep-le (is_recent limits now) fs, b.few);
      } in
      let (distinct, room) = make_room-room (recent limits now fs) kept in
      record {
        distinct = (lookup-delete_self dec year _, delete-HasDistinctKeys dec year _ distinct);
        few = omega (arith, room);
      }

  -- After a failure the year is on cooldown for the base delay, or for twice its previous delay, but
  -- never for longer than the maximum; a success ends it.
  pub record_fetch_failure-cooldown :
      (limits : RetryLimits) (now : ℕ) (fs : List (ℤ × FetchFailure))
      → (fetch_cooldown_remaining year now (record_fetch_failure limits year now fs)
          ≡ min (next_delay limits (lookup dec year fs)) (max_delay limits))
        × (0 < fetch_cooldown_remaining year now (record_fetch_failure limits year now fs))
        × (fetch_cooldown_remaining year now
              (clear_fetch_failure year (record_fetch_failure limits year now fs))
            ≡ 0)
  unfolding record_fetch_failure fetch_cooldown_remaining clear_fetch_failure retry_delay
  record_fetch_failure-cooldown limits now fs =
      let there =
        lookup-insert_self dec year
          (record {
            retry_at = now + retry_delay limits (lookup dec year fs);
            delay = retry_delay limits (lookup dec year fs);
          })
          (make_room year (recent limits now fs)) in
      let gone = lookup-delete_self dec year (record_fetch_failure limits year now fs) in
      (ground (arith, there), ground (arith, there), ground (arith, gone))

  -- The failures after a run of failed fetches, the last one first.
  unfoldable pub failures_after :
      RetryLimits → List ℕ → List (ℤ × FetchFailure) → List (ℤ × FetchFailure)
  failures_after limits [] fs = fs
  failures_after limits (now ∷ nows) fs =
      record_fetch_failure limits year now (failures_after limits nows fs)

  delay_again :
      (limits : RetryLimits) (failure : FetchFailure) (n : ℕ)
      → failure.delay ≡ min (base_delay limits * 2 ^ n) (max_delay limits)
      → retry_delay limits (some failure) ≡ min (base_delay limits * 2 ^ suc n) (max_delay limits)
  unfolding retry_delay
  delay_again limits failure n h =
      let some_base : 0 < base_delay limits = ground arith in
      let some_delay : 0 < base_delay limits * 2 ^ n = mul-pos some_base (positive-pow n) in
      let some_limit : 0 < max_delay limits = ground arith in
      let twice : base_delay limits * 2 ^ suc n ≡ 2 * (base_delay limits * 2 ^ n) =
        rw pow-suc (omega arith) in
      rw twice (
        doubling (base_delay limits) (base_delay limits * 2 ^ n) (max_delay limits) failure.delay h
          some_delay some_limit)
    where
      doubling :
          (b x m d : ℕ)
          → d ≡ min x m
          → 0 < x
          → 0 < m
          → (if ltb m (if ltb 0 d then d * 2 else b) then m else if ltb 0 d then d * 2 else b)
            ≡ min (2 * x) m
      doubling b x m d h px pm = ground arith

  -- From a year without a failure, the delay after `n + 1` failures in a row is the base delay doubled
  -- `n` times, but never above the maximum.
  pub failures_after-delay :
      (limits : RetryLimits) (now : ℕ) (nows : List ℕ) (fs : List (ℤ × FetchFailure))
      → lookup dec year fs ≡ none
      → (failure : FetchFailure) × (lookup dec year (failures_after limits (now ∷ nows) fs)
          ≡ some failure)
        × (failure.delay ≡ min (base_delay limits * 2 ^ length nows) (max_delay limits))
        × (failure.retry_at ≡ now + failure.delay)
  unfolding failures_after record_fetch_failure retry_delay
  failures_after-delay limits now [] fs h =
      let d = retry_delay limits (lookup dec year fs) in
      (
        record { retry_at = now + d; delay = d },
        lookup-insert_self dec year _ _,
        ground (arith, h),
        refl,
      )
  failures_after-delay limits now (before ∷ nows) fs h =
      let (failure, there, long, _) = failures_after-delay limits before nows fs h in
      let d = retry_delay limits (lookup dec year (failures_after limits (before ∷ nows) fs)) in
      (
        record { retry_at = now + d; delay = d },
        lookup-insert_self dec year _ _,
        ap (retry_delay limits) there ∙ delay_again limits failure (length nows) long,
        refl,
      )
