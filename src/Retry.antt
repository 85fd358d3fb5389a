-- ===== src/Retry.antt =====
-- The retries of the cache on a busy database (internal/cache/cache.go, `retryBusyValue` and
-- `waitBeforeRetry`). What the database answers to each attempt, whether the context ends during each
-- wait, and the random part of each wait are arguments; durations are in milliseconds.
pub mod Laws
use sonarr_anime_bridge.Prelude.{
  ℕ, zero, suc, ◌+◌, ◌-◌, ◌*◌, ◌/◌, ◌%◌, ◌^◌, ◌==◌, Bool, true, false, if◌then◌else◌, Option, none,
  some,
}

-- `sqlite` carries the driver's result code; `other` stands for any error of another kind.
pub data DbError : Type 0 where
  sqlite : ℕ → DbError
  no_rows other canceled : DbError

pub data DbResult {ℓ} (A : Type ℓ) : Type ℓ where
  ok : A → DbResult A
  err : DbError → DbResult A

abbrev pub busy_retry_attempts : ℕ
busy_retry_attempts = 5

-- The primary result code is SQLITE_BUSY, also under an extended one (`Code()&0xff`).
unfoldable pub is_busy : DbError → Bool
is_busy (sqlite code) = code % 2 ^ 8 == 5
is_busy no_rows = false
is_busy other = false
is_busy canceled = false

abbrev pub backoff : ℕ → ℕ
backoff attempt = 50 * 2 ^ attempt

-- The random part is below half of the backoff.
unfoldable pub wait_before_retry : ℕ → (ℕ → ℕ) → ℕ
wait_before_retry attempt random = backoff attempt + random attempt % (backoff attempt / 2)

-- What the loop returns, and how often `fn` was called. Without a round left it returns the last
-- error.
unfoldable pub retry_from {ℓ} :
    {A : Type ℓ} → ℕ → ℕ → (ℕ → DbResult A) → (ℕ → Bool) → DbError → DbResult A × ℕ
retry_from zero attempt fn ends last = (err last, attempt)
retry_from (suc rounds) attempt fn ends last = elim (fn attempt) [
  | ok value ↦ (ok value, suc attempt)
  | err e ↦ elim (is_busy e) [
    | false ↦ (err e, suc attempt)
    | true ↦ elim (ends attempt) [
      | true ↦ (err canceled, suc attempt)
      | false ↦ retry_from rounds (suc attempt) fn ends e
    ]
  ]
]

unfoldable pub retry_busy_value {ℓ} : {A : Type ℓ} → (ℕ → DbResult A) → (ℕ → Bool) → DbResult A × ℕ
unfolding retry_from
retry_busy_value fn ends = retry_from busy_retry_attempts 0 fn ends other
