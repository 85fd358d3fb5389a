-- ===== src/Client/Limits/Laws.antt =====
-- Requests keep their distance, and a cooldown is never shortened.
use native.Mathlib.Decide.{dec_le}
use sonarr_anime_bridge.Prelude.{
  max, ℕ, zero, suc, ◌+◌, ◌-◌, ◌/◌, ◌^◌, ◌≤◌, ◌<◌, ◌≡◌, ◌⊎◌, refl, ltb, Bool, true, false, not,
  ◌&&◌, ◌||◌, Option, none, some, arith, pos, negsuc, ℤ, Bool-cases, inl, inr,
}
use sonarr_anime_bridge.Client.Limits.{
  RateLimit, admitted, waits, exceeds_bound, admit_at, ready_at, max_retry_after, rate_limit_delay,
  Headers, paced, announced_at, deadline_at, reset_at, retry_after_at, is_zero, header_duration,
  observe_allowance,
}

-- The latest of three times is one of them.
max_three : (a b d : ℕ) → (max (max a b) d ≡ a) ⊎ ((max (max a b) d ≡ b) ⊎ (max (max a b) d ≡ d))
max_three a b d = elim (dec_le (max a b) d) [
  | yes p ↦ inr (inr (omega (arith, p)))
  | no p ↦ elim (dec_le a b) [
    | yes q ↦ inr (inl (omega (arith, p, q)))
    | no q ↦ inl (omega (arith, p, q))
  ]
]

late : {m n a b d : ℕ} → (m ≡ a) ⊎ ((m ≡ b) ⊎ (m ≡ d)) → n < m → (n < a) ⊎ ((n < b) ⊎ (n < d))
late (inl e) h = inl (omega (arith, e, h))
late (inr (inl e)) h = inr (inl (omega (arith, e, h)))
late (inr (inr e)) h = inr (inr (omega (arith, e, h)))

-- The three times that a request waits for: an interval after the last one, the end of the cooldown, and its
-- own retry time.
abbrev pub ReadyBy : RateLimit → ℕ → ℕ → Type 0
ReadyBy c retry_at time =
    (c.last_admission + c.interval ≤ time) × (c.cooldown_until ≤ time) × (retry_at ≤ time)

-- A request is admitted, and noted as the last one, exactly if an interval has gone by since the last one, the
-- cooldown is over and its own retry time has come. Else it waits until the latest of these three times,
-- when it is admitted; and if one of them is more than two minutes away, it is refused.
pub admit_at-cases :
    (now retry_at : ℕ) (c : RateLimit)
    → (ReadyBy c retry_at now
        × (admit_at now retry_at c ≡ admitted (record c { last_admission = now })))
      ⊎ ((wait : ℕ) × (admit_at now retry_at c ≡ waits wait)
          × (0 < wait)
          × (wait ≤ max_retry_after)
          × ReadyBy c retry_at (now + wait)
          × ((now + wait ≡ c.last_admission + c.interval)
              ⊎ ((now + wait ≡ c.cooldown_until) ⊎ (now + wait ≡ retry_at)))
          × (admit_at (now + wait) retry_at c
              ≡ admitted (record c { last_admission = now + wait })))
      ⊎ ((admit_at now retry_at c ≡ exceeds_bound)
          × ((now + max_retry_after < c.last_admission + c.interval)
              ⊎ ((now + max_retry_after < c.cooldown_until) ⊎ (now + max_retry_after < retry_at))))
unfolding admit_at
admit_at-cases now retry_at c =
    let latest = max_three (c.last_admission + c.interval) c.cooldown_until retry_at in
    elim (Bool-cases (ltb now (ready_at c retry_at))) [
      | inr ready ↦ inl ((ground arith, ground arith, ground arith), ground arith)
      | inl early ↦ elim (Bool-cases (ltb max_retry_after (ready_at c retry_at - now))) [
        | inl long ↦ inr (inr (ground arith, late latest (ground arith)))
        | inr short ↦
            let there : now + (ready_at c retry_at - now) ≡ ready_at c retry_at = ground arith in
            inr (
              inl (
                ready_at c retry_at - now,
                ground arith,
                ground arith,
                ground arith,
                (ground arith, ground arith, ground arith),
                rw there latest,
                ground arith,
              ))
      ]
    ]

-- The new pace changes only the interval.
paced_lem :
    (pace : ℕ → ℕ) (limit : Option ℤ) (c : RateLimit)
    → ((paced pace limit c).cooldown_until ≡ c.cooldown_until)
      × ((paced pace limit c).last_admission ≡ c.last_admission)
      × (rate_limit_delay ≤ c.interval → rate_limit_delay ≤ (paced pace limit c).interval)
paced_lem pace none c = (refl, refl, λ h. h)
paced_lem pace (some (negsuc n)) c = (refl, refl, λ h. h)
paced_lem pace (some (pos zero)) c = (refl, refl, λ h. h)
paced_lem pace (some (pos (suc n))) c = (refl, refl, λ h. omega arith)

header_duration-positive : (n : ℕ) → 0 < header_duration (suc n)
unfolding header_duration
header_duration-positive n = ground arith

-- A deadline from the headers is 0 or lies ahead.
reset_at_lem : (now : ℕ) (reset : Option ℤ) → (reset_at now reset ≡ 0) ⊎ (now < reset_at now reset)
reset_at_lem now none = inl refl
reset_at_lem now (some (negsuc n)) = inl refl
reset_at_lem now (some (pos reset)) = elim (Bool-cases (ltb (now / 10 ^ 9) reset)) [
  | inr past ↦ inl (rw past refl)
  | inl ahead ↦ inr (rw ahead (ground (arith, header_duration_ahead (reset - now / 10 ^ 9))))
]
  where
    header_duration_ahead : (n : ℕ) → 0 < n → 0 < header_duration n
    header_duration_ahead zero h = absurd (omega arith)
    header_duration_ahead (suc n) h = header_duration-positive n

abbrev IsAhead : ℕ → ℕ → Type 0
IsAhead now deadline = (deadline ≡ 0) ⊎ (now < deadline)

retry_after_at_lem :
    (now : ℕ) (given : Bool) (value : Option ℤ) (deadline : ℕ)
    → IsAhead now deadline
    → IsAhead now (retry_after_at now given value deadline).1
retry_after_at_lem now false value deadline h = h
retry_after_at_lem now true none deadline h = h
retry_after_at_lem now true (some (negsuc n)) deadline h = h
retry_after_at_lem now true (some (pos zero)) deadline h = h
retry_after_at_lem now true (some (pos (suc n))) deadline h =
    inr (omega (arith, header_duration-positive n))

announced_at_lem :
    (now : ℕ) (limited : Bool) (h : Headers) → IsAhead now (announced_at now limited h).1
announced_at_lem now false h = reset_at_lem now h.reset
announced_at_lem now true h =
    retry_after_at_lem now h.retry_after_given h.retry_after (reset_at now h.reset)
      (reset_at_lem now h.reset)

deadline_at-ahead : (now announced : ℕ) → IsAhead now announced → now < deadline_at now announced
deadline_at-ahead now announced h = ground arith

module _ (pace : ℕ → ℕ) (now : ℕ) (limited : Bool) (h : Headers) (c : RateLimit) where
  -- No answer of the server shortens a cooldown or touches the last admission, and the interval does not fall
  -- below its default. After a 429, or when no request is left, the next request is not admitted at once.
  pub observe_allowance-cooldown :
      rate_limit_delay ≤ c.interval
      → (c.cooldown_until ≤ (observe_allowance pace now limited h c).0.cooldown_until)
        × (rate_limit_delay ≤ (observe_allowance pace now limited h c).0.interval)
        × ((observe_allowance pace now limited h c).0.last_admission ≡ c.last_admission)
        × (((limited || is_zero h.remaining) ≡ false)
            ⊎ (now < (observe_allowance pace now limited h c).0.cooldown_until))
  unfolding observe_allowance
  observe_allowance-cooldown slow =
      let (cool, last, wide) = paced_lem pace h.limit c in
      elim (Bool-cases (not limited && not (is_zero h.remaining))) [
        | inl free ↦ rw free (omega (arith, cool), wide slow, last, inl (ground arith))
        | inr tight ↦ rw tight (
          omega (arith, cool),
          wide slow,
          last,
          inr (omega (arith, deadline_at-ahead now _ (announced_at_lem now limited h))),
        )
      ]
