-- ===== src/Client/Limits.antt =====
-- The pacing of requests (internal/anilist/anilist.go, `throttle`, `observeAllowance`, `headerDuration`).
-- Times are nanoseconds since 1970; the zero time of Go is 0, which no clock shows. A header that is no
-- number is `none`. The interval that the announced limit gives is a floating-point quotient, the
-- argument `pace`.
pub mod Laws
use sonarr_anime_bridge.Prelude.{
  ℕ, zero, suc, ◌+◌, ◌-◌, ◌*◌, ◌/◌, ◌^◌, ltb, leb, ◌==◌, max, Bool, true, false, not, ◌&&◌, ◌||◌,
  if◌then◌else◌, Option, none, some, ℤ, pos, negsuc, ltb_ℤ, eqb_ℤ,
}

abbrev pub rate_limit_delay : ℕ
rate_limit_delay = 2300 * 10 ^ 6

abbrev pub max_retry_after : ℕ
max_retry_after = 120 * 10 ^ 9

abbrev pub minute : ℕ
minute = 60 * 10 ^ 9

abbrev pub nanos_of : ℕ → ℕ
nanos_of seconds = seconds * 10 ^ 9

abbrev pub max_duration : ℕ
max_duration = 2 ^ 63 - 1

-- The fields behind `rateLimitMu`.
pub record RateLimit : Type 0 where
  pub interval : ℕ
  pub last_admission : ℕ
  pub cooldown_until : ℕ

-- What one round of the loop of `throttle` decides.
pub data Admission : Type 0 where
  admitted : RateLimit → Admission
  waits : ℕ → Admission
  exceeds_bound : Admission

abbrev pub ready_at : RateLimit → ℕ → ℕ
ready_at c retry_at = max (max (c.last_admission + c.interval) c.cooldown_until) retry_at

unfoldable pub admit_at : ℕ → ℕ → RateLimit → Admission
admit_at now retry_at c =
    let ready = ready_at c retry_at in
    if not (ltb now ready)
    then admitted (record c { last_admission = now })
    else if ltb max_retry_after (ready - now)
    then exceeds_bound
    else waits (ready - now)

-- A positive number of seconds as a duration.
unfoldable pub header_duration : ℕ → ℕ
header_duration seconds =
    if ltb (max_duration / 10 ^ 9) seconds then max_duration else nanos_of seconds

-- The headers of a response: the limit has 32 bits, the others 64.
pub record Headers : Type 0 where
  pub limit : Option ℤ
  pub remaining : Option ℤ
  pub reset : Option ℤ
  pub retry_after_given : Bool
  pub retry_after : Option ℤ

pub data RetryState : Type 0 where
  not_applicable missing invalid valid : RetryState

abbrev pub paced : (ℕ → ℕ) → Option ℤ → RateLimit → RateLimit
paced pace none c = c
paced pace (some (negsuc n)) c = c
paced pace (some (pos zero)) c = c
paced pace (some (pos (suc n))) c = record c { interval = max rate_limit_delay (pace (suc n)) }

-- The deadline of `X-RateLimit-Reset`, or 0.
abbrev pub reset_at : ℕ → Option ℤ → ℕ
reset_at now none = 0
reset_at now (some (negsuc n)) = 0
reset_at now (some (pos reset)) =
    if not (ltb (now / 10 ^ 9) reset)
    then 0
    else if leb (reset - now / 10 ^ 9) (max_duration / 10 ^ 9)
    then nanos_of reset
    else now + header_duration (reset - now / 10 ^ 9)

-- The deadline moved on by `Retry-After`, if that is given.
abbrev pub retry_after_at : ℕ → Bool → Option ℤ → ℕ → RetryState × ℕ
retry_after_at now false value deadline = (missing, deadline)
retry_after_at now true none deadline = (invalid, deadline)
retry_after_at now true (some (negsuc n)) deadline = (invalid, deadline)
retry_after_at now true (some (pos zero)) deadline = (invalid, deadline)
retry_after_at now true (some (pos (suc n))) deadline =
    (valid, max (now + header_duration (suc n)) deadline)

abbrev pub is_zero : Option ℤ → Bool
is_zero none = false
is_zero (some remaining) = eqb_ℤ remaining (pos 0)

-- The deadline of the headers, or 0, and the state for the log.
abbrev pub announced_at : ℕ → Bool → Headers → RetryState × ℕ
announced_at now limited h =
    if limited
    then retry_after_at now h.retry_after_given h.retry_after (reset_at now h.reset)
    else (not_applicable, reset_at now h.reset)

abbrev pub deadline_at : ℕ → ℕ → ℕ
deadline_at now announced = if announced == 0 then now + minute else announced

-- The end of `observeAllowance`: a result of `none` is the error of a cooldown that is too long.
abbrev pub cool_down : ℕ → Bool → RetryState → ℕ → RateLimit → RateLimit × Option RetryState
cool_down now limited state deadline c =
    let c' : RateLimit = record c { cooldown_until = max deadline c.cooldown_until } in
    (c', if limited && ltb (now + max_retry_after) c'.cooldown_until then none else some state)

-- `limited` is the status 429.
unfoldable pub observe_allowance :
    (ℕ → ℕ) → ℕ → Bool → Headers → RateLimit → RateLimit × Option RetryState
unfolding header_duration
observe_allowance pace now limited h c =
    if not limited && not (is_zero h.remaining)
    then (paced pace h.limit c, some not_applicable)
    else let announced = announced_at now limited h in
      cool_down now limited announced.0 (deadline_at now announced.1) (paced pace h.limit c)
