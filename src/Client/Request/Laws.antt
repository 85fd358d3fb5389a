-- ===== src/Client/Request/Laws.antt =====
-- Which answers are retried, and what the caller gets.
use native.Mathlib.Nat.{add-zero, zero-add}
use native.Mathlib.Numerals.{add-one}
use sonarr_anime_bridge.Prelude.{
  ℕ, zero, suc, ◌+◌, ◌≤◌, ◌<◌, ◌≡◌, ◌≢◌, ◌⊎◌, inl, inr, ◌∙◌, refl, Bool, false, ◌==◌, if◌then◌else◌,
  Option, none, some, arith,
}
use sonarr_anime_bridge.Client.Request.{
  max_retry, Reply, unreachable, responds, RequestResult, received, gave_up, Verdict, returns,
  breaks, continues, verdict, request_from, do_request,
}

-- The answers after which another attempt may help: no response, 429, or a status that is neither 200 nor a
-- client error, where no cooldown is too long.
abbrev pub IsRetried {ℓ} : {A : Type ℓ} → Reply A → Type 0
IsRetried (unreachable ended) = ended ≡ false
IsRetried (responds status exceeded body) =
    (exceeded ≡ false) × ((status ≡ 429) ⊎ ((status ≢ 200) × ((status < 400) ⊎ (500 ≤ status))))

IsRetried-verdict {ℓ} : {A : Type ℓ} (r : Reply A) → IsRetried r → verdict r ≡ continues
unfolding verdict
IsRetried-verdict (unreachable ended) h = ground arith
IsRetried-verdict (responds status exceeded body) (fine, h) = ground arith

-- The answers that end the loop: a 200, or a client error other than 429.
abbrev pub IsFinal {ℓ} : {A : Type ℓ} → Reply A → Type 0
IsFinal (unreachable ended) = ⊥
IsFinal (responds status exceeded body) =
    (exceeded ≡ false) × ((status ≡ 200) ⊎ ((status ≢ 429) × (400 ≤ status) × (status < 500)))

-- What a final answer holds: only the body of a 200 is read.
abbrev pub content {ℓ} : {A : Type ℓ} → Reply A → Option A
content (unreachable ended) = none
content (responds status exceeded body) = if status == 200 then body else none

abbrev pub answer_of {ℓ} : {A : Type ℓ} → Option A → ℕ → RequestResult A
answer_of none attempts = gave_up attempts
answer_of (some b) attempts = received b

abbrev pub ending {ℓ} : {A : Type ℓ} → Option A → Verdict A
ending none = breaks
ending (some b) = returns (received b)

IsFinal-verdict {ℓ} : {A : Type ℓ} (r : Reply A) → IsFinal r → verdict r ≡ ending (content r)
unfolding verdict
IsFinal-verdict (unreachable ended) h = absurd h
IsFinal-verdict (responds status exceeded none) (fine, inl okay) = rw (fine, okay) refl
IsFinal-verdict (responds status exceeded (some b)) (fine, inl okay) = rw (fine, okay) refl
IsFinal-verdict (responds status exceeded body) (fine, inr (other, low, high)) = ground arith

module _ {ℓ} {A : Type ℓ} (throttled : ℕ → Bool) (replies : ℕ → Reply A) where
  request_from_again :
      (rounds attempt : ℕ)
      → IsRetried (replies attempt)
      → throttled attempt ≡ false
      → request_from (suc rounds) attempt throttled replies
        ≡ request_from rounds (suc attempt) throttled replies
  unfolding request_from
  request_from_again rounds attempt h go =
      rw (go, IsRetried-verdict (replies attempt) h, request_from) refl

  request_from_final :
      (rounds attempt : ℕ)
      → IsFinal (replies attempt)
      → throttled attempt ≡ false
      → request_from (suc rounds) attempt throttled replies
        ≡ (answer_of (content (replies attempt)) (suc attempt), suc attempt)
  unfolding request_from
  request_from_final rounds attempt h go =
      rw (go, IsFinal-verdict (replies attempt) h, request_from)
        (by_content (content (replies attempt)))
    where
      by_content :
          (b : Option A)
          → ◌≡◌ {A = RequestResult A × ℕ}
              (elim (ending b) [
                | returns r ↦ (r, suc attempt)
                | breaks ↦ (gave_up (suc attempt), suc attempt)
                | continues ↦ request_from rounds (suc attempt) throttled replies
              ])
              (answer_of b (suc attempt), suc attempt)
      by_content none = refl
      by_content (some b) = refl

  request_from-after :
      (n rounds attempt : ℕ)
      → n < rounds
      → ((k : ℕ) → k ≤ n → throttled (attempt + k) ≡ false)
      → ((k : ℕ) → k < n → IsRetried (replies (attempt + k)))
      → IsFinal (replies (attempt + n))
      → request_from rounds attempt throttled replies
        ≡ (answer_of (content (replies (attempt + n))) (attempt + n + 1), attempt + n + 1)
  request_from-after n zero attempt h go again final = absurd (omega arith)
  request_from-after zero (suc rounds) attempt h go again final =
      rw (add-zero, add-one)
        (request_from_final rounds attempt (rw add-zero at final)
          (rw add-zero at (go 0 (omega arith))))
  request_from-after (suc n) (suc rounds) attempt h go again final =
      request_from_again rounds attempt (rw add-zero at (again 0 (omega arith)))
        (rw add-zero at (go 0 (omega arith)))
      ∙ rw (shift n) (
          request_from-after n rounds (suc attempt) (omega arith)
            (λ k below. rw (← shift k) (go (suc k) (omega arith)))
            (λ k below. rw (← shift k) (again (suc k) (omega arith))) (rw (shift n) at final))
    where
      shift : (k : ℕ) → attempt + suc k ≡ suc attempt + k
      shift k = omega arith

  -- If the first `n` of at most four attempts bring answers that are retried, no wait fails, and the next
  -- answer is final, then that is the last request, and the caller gets its body, or the error that
  -- tells the number of attempts.
  pub do_request_lem :
      (n : ℕ)
      → n < max_retry
      → ((k : ℕ) → k ≤ n → throttled k ≡ false)
      → ((k : ℕ) → k < n → IsRetried (replies k))
      → IsFinal (replies n)
      → do_request throttled replies ≡ (answer_of (content (replies n)) (n + 1), n + 1)
  unfolding do_request
  do_request_lem n h go again final = rw (← zero-add n) (
      request_from-after n max_retry 0 h (λ k below. rw zero-add (go k below))
        (λ k below. rw zero-add (again k below)) (rw (← zero-add n) at final))

  request_from_bounds :
      (rounds attempt : ℕ) → (request_from rounds attempt throttled replies).1 ≤ attempt + rounds
  unfolding request_from
  request_from_bounds zero attempt = omega arith
  request_from_bounds (suc rounds) attempt =
      ground (arith, request_from_bounds rounds (suc attempt))

  -- However the answers fall, at most five requests are sent.
  pub do_request_bounds : (do_request throttled replies).1 ≤ max_retry
  unfolding do_request
  do_request_bounds = rw zero-add at (request_from_bounds max_retry 0)
