-- ===== src/Server/Response/Laws.antt =====
-- What the middleware of cmd/server/main.go sends and logs, whatever a handler does.
use sonarr_anime_bridge.Prelude.{
  ℕ, ◌≡◌, inl, inr, refl, sym, ◌∙◌, ap, Bool, true, false, ◌||◌, if◌then◌else◌, leb, List, [], ◌∷◌,
  any, All, Option, none, some, arith, Bool-cases, Option-cases, String, str_eq, str_eq_iff,
}
use sonarr_anime_bridge.Server.Response.{
  is_final, final_status, StatusResponseWriter, write_header, write, Call, writes_header, writes,
  run_call, run_calls, RequestLogMetadata, Handled, recovery_middleware, outcome_of, level_of,
  Level, warn, info, LogLine, route_of, log_line, not_started, logging_middleware,
}

-- The status of a call, which counts if it is the first one.
abbrev pub call_status : Call → ℕ
call_status (writes_header code) = code
call_status (writes failed data_) = 200

abbrev pub call_fails : Call → Bool
call_fails (writes_header code) = false
call_fails (writes failed data_) = failed

abbrev pub IsFinal : Call → Type 0
IsFinal c = is_final (call_status c) ≡ true

-- The status that a handler comes to.
abbrev pub first_status : List Call → Bool → ℕ
first_status [] panics = if panics then 500 else 200
first_status (c ∷ cs) panics = call_status c

abbrev pub is_failed : Handled → Bool
is_failed h = h.panics || (leb 400 (first_status h.calls h.panics) || any call_fails h.calls)

abbrev pub noted : String → String
noted outcome = if str_eq outcome "" then "succeeded" else outcome

-- The writer has sent the status that it holds.
abbrev HasSent : ℕ → Bool → StatusResponseWriter → Type 0
HasSent code failed w =
    (w.wrote_header ≡ true)
    × (w.status ≡ code)
    × (w.sent.status ≡ some code)
    × (w.write_err ≡ failed)

run_call-HasSent :
    (c : Call) (code : ℕ) (failed : Bool) (w : StatusResponseWriter)
    → HasSent code failed w
    → HasSent code (call_fails c || failed) (run_call c w)
unfolding run_call write write_header
run_call-HasSent (writes_header k) code failed w h = ground arith
run_call-HasSent (writes true data_) code failed w h = ground arith
run_call-HasSent (writes false data_) code failed w h = ground arith

run_calls-HasSent :
    (cs : List Call) (code : ℕ) (failed : Bool) (w : StatusResponseWriter)
    → HasSent code failed w
    → HasSent code (any call_fails cs || failed) (run_calls cs w)
unfolding run_calls
run_calls-HasSent [] code failed w h = h
run_calls-HasSent (c ∷ cs) code failed w h =
    let (a, b, d, e) =
      run_calls-HasSent cs code (call_fails c || failed) (run_call c w)
        (run_call-HasSent c code failed w h) in
    (a, b, d, ground (arith, e))

-- The first call of a handler.
run_call-not_started :
    (c : Call) → IsFinal c → HasSent (call_status c) (call_fails c) (run_call c not_started)
unfolding run_call write write_header
run_call-not_started (writes_header k) f = ground arith
run_call-not_started (writes true data_) f = ground arith
run_call-not_started (writes false data_) f = ground arith

-- What the client gets in the end, and what the log reads.
abbrev HasFinished : ℕ → Bool → String → RequestLogMetadata × StatusResponseWriter → Type 0
HasFinished code failed outcome (m, w) =
    (final_status w.sent ≡ code)
    × (w.status ≡ code)
    × (w.write_err ≡ failed)
    × (m.outcome ≡ outcome)

recovery_middleware-HasSent :
    (panics : Bool) (m : RequestLogMetadata) (code : ℕ) (failed : Bool) (w : StatusResponseWriter)
    → HasSent code failed w
    → HasFinished code failed
        (if panics then "failed" else m.outcome)
        (recovery_middleware panics m w)
unfolding recovery_middleware write_header
recovery_middleware-HasSent true m code failed w (a, b, d, e) = rw (a, d) (refl, b, e, refl)
recovery_middleware-HasSent false m code failed w (a, b, d, e) = rw d (refl, b, e, refl)

recovery_middleware-run_calls :
    (cs : List Call) (panics : Bool) (m : RequestLogMetadata)
    → All IsFinal cs
    → HasFinished
        (first_status cs panics)
        (any call_fails cs)
        (if panics then "failed" else m.outcome)
        (recovery_middleware panics m (run_calls cs not_started))
unfolding run_calls recovery_middleware write_header
recovery_middleware-run_calls [] true m f = (refl, refl, refl, refl)
recovery_middleware-run_calls [] false m f = (refl, refl, refl, refl)
recovery_middleware-run_calls (c ∷ cs) panics m (f, fs) =
    let started = run_call-not_started c f in
    let (a, b, d, e) =
      run_calls-HasSent cs (call_status c) (call_fails c) (run_call c not_started) started in
    recovery_middleware-HasSent panics m (call_status c) (any call_fails (c ∷ cs)) _
      (a, b, d, ground (arith, e))

-- A request is logged as it ended, unless it is a healthy one on /health.
abbrev pub IsLogged : String → Handled → Option LogLine → Type 0
IsLogged route h none =
    (is_failed h ≡ false) × (noted h.metadata.outcome ≡ "succeeded") × (route ≡ "/health")
IsLogged route h (some l) =
    (l.status ≡ first_status h.calls h.panics)
    × (l.outcome ≡ (if is_failed h then "failed" else noted h.metadata.outcome))
    × (l.level ≡ (if str_eq l.outcome "succeeded" then info else warn))

outcome_of-HasFinished :
    (h : Handled) (m : RequestLogMetadata) (w : StatusResponseWriter)
    → HasFinished
        (first_status h.calls h.panics)
        (any call_fails h.calls)
        (if h.panics then "failed" else h.metadata.outcome)
        (m, w)
    → outcome_of m w ≡ (if is_failed h then "failed" else noted h.metadata.outcome)
unfolding outcome_of
outcome_of-HasFinished h m w (a, b, d, e) = elim (Bool-cases h.panics) [
  | inl p ↦ elim (Bool-cases (leb 400 w.status || w.write_err)) [
    | inl q ↦ rw (p, q) refl
    | inr q ↦ rw (p, q, e, p) refl
  ]
  | inr p ↦ rw (e, b, d, p) refl
]

failed_unless :
    (b : Bool) (s : String)
    → (if b then "failed" else s) ≡ "succeeded"
    → (b ≡ false) × (s ≡ "succeeded")
failed_unless true s e = ground (arith, ap (λ x. str_eq x "failed") e)
failed_unless false s e = (refl, e)

level_of-none :
    (outcome route : String)
    → level_of outcome route ≡ none
    → (outcome ≡ "succeeded") × (route ≡ "/health")
unfolding level_of
level_of-none outcome route e =
    ground (arith, str_eq_iff outcome "succeeded", str_eq_iff route "/health")

level_of-some :
    (outcome route : String) (l : Level)
    → level_of outcome route ≡ some l
    → l ≡ (if str_eq outcome "succeeded" then info else warn)
unfolding level_of
level_of-some outcome route l e = ground arith

log_line-IsLogged :
    (method route : String) (h : Handled) (m : RequestLogMetadata) (w : StatusResponseWriter)
    → HasFinished
        (first_status h.calls h.panics)
        (any call_fails h.calls)
        (if h.panics then "failed" else h.metadata.outcome)
        (m, w)
    → IsLogged route h (log_line method route m w)
unfolding log_line
log_line-IsLogged method route h m w (a, b, d, e) =
    let o = outcome_of-HasFinished h m w (a, b, d, e) in
    elim (Option-cases (level_of (outcome_of m w) route)) [
      | inl none_ ↦
          let (s, r) = level_of-none (outcome_of m w) route none_ in
          let (failed, outcome) =
            failed_unless (is_failed h) (noted h.metadata.outcome) (sym o ∙ s) in
          rw (none_, log_line) (failed, outcome, r)
      | inr (l, some_) ↦ rw (some_, log_line) (b, o, level_of-some (outcome_of m w) route l some_)
    ]

-- Whatever a handler does with statuses that are final: the client gets the status of its first write, or 500
-- if it panics before it, or else 200, and that status is the one in the log. The request is logged as
-- failed, with a warning, if the handler panics, the status is 400 or more, or a write fails. Nothing is
-- logged only for a request on /health that has succeeded.
pub logging_middleware-IsLogged :
    (method pattern_ : String) (h : Handled)
    → All IsFinal h.calls
    → (final_status (logging_middleware method pattern_ h).0 ≡ first_status h.calls h.panics)
      × IsLogged (route_of pattern_) h (logging_middleware method pattern_ h).1
unfolding logging_middleware
logging_middleware-IsLogged method pattern_ h f =
    let done = recovery_middleware-run_calls h.calls h.panics h.metadata f in
    let (m, w) = recovery_middleware h.panics h.metadata (run_calls h.calls not_started) in
    (done.0, log_line-IsLogged method (route_of pattern_) h m w done)
