-- ===== src/Client/Request.antt =====
-- `doRequest` (internal/anilist/anilist.go): at most five attempts. Whether `throttle` fails before an
-- attempt, and what the attempt brings, are arguments, by its number from 0. The delays are those of
-- `Client.Limits`.
pub mod Laws
use sonarr_anime_bridge.Prelude.{
  ℕ, zero, suc, ltb, leb, ◌==◌, Bool, true, false, not, ◌&&◌, if◌then◌else◌, Option, none, some,
}

abbrev pub max_retry : ℕ
max_retry = 5

-- What one HTTP attempt brings: a transport error, with whether the context has ended by then, or a response:
-- its status, whether `observeAllowance` returns an error for it, and what its body decodes to.
pub data Reply {ℓ} (A : Type ℓ) : Type ℓ where
  unreachable : Bool → Reply A
  responds : ℕ → Bool → Option A → Reply A

pub data RequestResult {ℓ} (A : Type ℓ) : Type ℓ where
  received : A → RequestResult A
  throttle_failed context_ended allowance_exceeded : RequestResult A
  gave_up : ℕ → RequestResult A

-- How the body of the loop ends.
pub data Verdict {ℓ} (A : Type ℓ) : Type ℓ where
  returns : RequestResult A → Verdict A
  breaks continues : Verdict A

unfoldable pub verdict {ℓ} : {A : Type ℓ} → Reply A → Verdict A
verdict (unreachable ended) = if ended then returns context_ended else continues
verdict (responds status exceeded body) =
    if exceeded
    then returns allowance_exceeded
    else if status == 429
    then continues
    else if not (status == 200)
    then (if leb 400 status && ltb status 500 then breaks else continues)
    else elim body [ none ↦ breaks | some b ↦ returns (received b) ]

-- The result, and how many HTTP requests were sent.
unfoldable pub request_from {ℓ} :
    {A : Type ℓ} → ℕ → ℕ → (ℕ → Bool) → (ℕ → Reply A) → RequestResult A × ℕ
unfolding verdict
request_from zero attempt throttled replies = (gave_up attempt, attempt)
request_from (suc rounds) attempt throttled replies = elim (throttled attempt) [
  | true ↦ (throttle_failed, attempt)
  | false ↦ elim (verdict (replies attempt)) [
    | returns r ↦ (r, suc attempt)
    | breaks ↦ (gave_up (suc attempt), suc attempt)
    | continues ↦ request_from rounds (suc attempt) throttled replies
  ]
]

unfoldable pub do_request {ℓ} : {A : Type ℓ} → (ℕ → Bool) → (ℕ → Reply A) → RequestResult A × ℕ
unfolding request_from
do_request throttled replies = request_from max_retry 0 throttled replies
