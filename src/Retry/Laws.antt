-- ===== src/Retry/Laws.antt =====
-- The retries end, and end with the first answer that is not "busy".
use native.Mathlib.Nat.{add-zero, zero-add, pow-suc}
use native.Mathlib.Numerals.{add-one}
use sonarr_anime_bridge.Prelude.{
  ℕ, zero, suc, ◌+◌, ◌*◌, ◌^◌, ◌≤◌, ◌<◌, ◌≡◌, ◌⊎◌, inl, inr, ◌∙◌, refl, Bool, true, false, arith,
}
use sonarr_anime_bridge.Retry.{
  DbError, other, DbResult, ok, err, is_busy, busy_retry_attempts, backoff, wait_before_retry,
  retry_from, retry_busy_value,
}

-- The database was locked.
abbrev pub IsLocked {ℓ} : {A : Type ℓ} → DbResult A → Type 0
IsLocked (ok value) = ⊥
IsLocked (err e) = is_busy e ≡ true

pub DbResult-cases {ℓ} :
    {A : Type ℓ} (r : DbResult A) → ((value : A) × (r ≡ ok value)) ⊎ ((e : DbError) × (r ≡ err e))
DbResult-cases (ok value) = inl (value, refl)
DbResult-cases (err e) = inr (e, refl)

module _ {ℓ} {A : Type ℓ} (fn : ℕ → DbResult A) (ends : ℕ → Bool) where
  retry_from_bounds :
      (rounds attempt : ℕ) (last : DbError)
      → (attempt ≤ (retry_from rounds attempt fn ends last).1)
        × ((retry_from rounds attempt fn ends last).1 ≤ attempt + rounds)
  unfolding retry_from
  retry_from_bounds zero attempt last = omega arith
  retry_from_bounds (suc rounds) attempt last = elim (DbResult-cases (fn attempt)) [
    | inl (value, e) ↦ ground (arith, e)
    | inr (e, failed) ↦ ground (arith, failed, retry_from_bounds rounds (suc attempt) e)
  ]

  -- One answer that is not "busy" ends the loop.
  retry_from_final :
      (rounds attempt : ℕ) (last : DbError)
      → ¬ IsLocked (fn attempt)
      → retry_from (suc rounds) attempt fn ends last ≡ (fn attempt, suc attempt)
  unfolding retry_from
  retry_from_final rounds attempt last h = ground arith

  retry_from_again :
      (rounds attempt : ℕ) (last : DbError)
      → IsLocked (fn attempt)
      → ends attempt ≡ false
      → (e : DbError) × (fn attempt ≡ err e)
        × (retry_from (suc rounds) attempt fn ends last ≡ retry_from rounds (suc attempt) fn ends e)
  unfolding retry_from
  retry_from_again rounds attempt last h go = elim (DbResult-cases (fn attempt)) [
    | inl (value, e) ↦ absurd (rw e at h)
    | inr (e, failed) ↦
        let locked : is_busy e ≡ true = rw failed at h in
        (e, failed, ground (arith, failed, locked))
  ]

  -- With `n` attempts behind a busy database, waited out, the answer of the next one is returned.
  retry_from-after :
      (n rounds attempt : ℕ) (last : DbError)
      → n < rounds
      → ((k : ℕ) → k < n → IsLocked (fn (attempt + k)) × (ends (attempt + k) ≡ false))
      → ¬ IsLocked (fn (attempt + n))
      → retry_from rounds attempt fn ends last ≡ (fn (attempt + n), attempt + n + 1)
  retry_from-after n zero attempt last h b final = absurd (omega arith)
  retry_from-after zero (suc rounds) attempt last h b final =
      rw (retry_from_final rounds attempt last (rw add-zero at final)) (rw (add-zero, add-one))
  retry_from-after (suc n) (suc rounds) attempt last h b final =
      let first = rw add-zero at (b 0 (omega arith)) in
      let (e, failed, again) = retry_from_again rounds attempt last first.0 first.1 in
      again
      ∙ rw (shift n) (
          retry_from-after n rounds (suc attempt) e (omega arith)
            (λ k below. rw (← shift k) (b (suc k) (omega arith))) (rw (shift n) at final))
    where
      shift : (k : ℕ) → attempt + suc k ≡ suc attempt + k
      shift k = omega arith

  -- For `n` below five: if the first `n` answers are "busy" and each wait runs to its end, and the next
  -- answer is not "busy", that answer is what the caller gets, and the last one asked for.
  pub retry_busy_value_lem :
      (n : ℕ)
      → n < busy_retry_attempts
      → ((k : ℕ) → k < n → IsLocked (fn k) × (ends k ≡ false))
      → ¬ IsLocked (fn n)
      → retry_busy_value fn ends ≡ (fn n, n + 1)
  unfolding retry_busy_value
  retry_busy_value_lem n h b final = rw (← zero-add n) (
      retry_from-after n busy_retry_attempts 0 other h (λ k below. rw zero-add (b k below))
        (rw (← zero-add n) at final))

  -- Whatever the database answers, it is asked at least once and at most five times.
  pub retry_busy_value_bounds :
      (1 ≤ (retry_busy_value fn ends).1) × ((retry_busy_value fn ends).1 ≤ busy_retry_attempts)
  unfolding retry_busy_value retry_from
  retry_busy_value_bounds = elim (DbResult-cases (fn 0)) [
    | inl (value, e) ↦ ground (arith, e)
    | inr (e, failed) ↦ ground (arith, failed, retry_from_bounds 4 1 e)
  ]

pub positive-pow : (n : ℕ) → 0 < 2 ^ n
positive-pow zero = omega arith
positive-pow (suc n) = rw pow-suc (omega (arith, positive-pow n))

-- The wait before the next attempt is at least the backoff of 50 ms doubled with each attempt, and less
-- than half as long again.
pub wait_before_retry_bounds :
    (attempt : ℕ) (random : ℕ → ℕ)
    → (backoff attempt ≤ wait_before_retry attempt random)
      × (2 * wait_before_retry attempt random < 3 * backoff attempt)
unfolding wait_before_retry
wait_before_retry_bounds attempt random = omega (arith, positive-pow attempt)
