-- ===== src/Server/Response.antt =====
-- The middleware (cmd/server/main.go, `loggingMiddleware`, `recoveryMiddleware`, `statusResponseWriter`, and
-- `writeJSON`). A handler is what it does: the calls of its writer, what it notes for the log, and whether
-- it panics. The writer of net/http takes the first final status, and 200 if there is none; status codes
-- on which it panics are left out.
pub mod Laws
use sonarr_anime_bridge.Prelude.{
  ℕ, Bool, true, false, not, ◌&&◌, ◌||◌, ◌==◌, if◌then◌else◌, ltb, leb, List, [], ◌∷◌, ◌++◌, Option,
  none, some, is_some, ℤ, pos, eqb_ℤ, String, str_eq,
}

-- What a client has been sent: the final status, and the pieces of the body.
pub record Sent : Type 0 where
  pub status : Option ℕ
  pub body : List String

-- `http.ResponseWriter`: a status of 100 to 199, other than 101, is not the final one.
abbrev pub is_final : ℕ → Bool
is_final code = leb 200 code || code == 101

abbrev pub send_status : ℕ → Sent → Sent
send_status code sent = record sent {
  status = elim sent.status [
    | some first ↦ some first
    | none ↦ if is_final code then some code else none
  ];
}

abbrev pub send_body : Bool → String → Sent → Sent
send_body failed data_ sent =
    let started = send_status 200 sent in
    if failed then started else record started { body = sent.body ++ (data_ ∷ []) }

-- The status that the client gets in the end.
abbrev pub final_status : Sent → ℕ
final_status sent = elim sent.status [ none ↦ 200 | some code ↦ code ]

pub record StatusResponseWriter : Type 0 where
  pub sent : Sent
  pub status : ℕ
  pub wrote_header : Bool
  pub write_err : Bool

unfoldable pub write_header : ℕ → StatusResponseWriter → StatusResponseWriter
write_header code w =
    if w.wrote_header
    then w
    else record w { sent = send_status code w.sent; status = code; wrote_header = true }

-- `failed` is whether the client cannot be reached.
unfoldable pub write : Bool → String → StatusResponseWriter → StatusResponseWriter
unfolding write_header
write failed data_ w =
    let started = if w.wrote_header then w else write_header 200 w in
    record started {
      sent = send_body failed data_ started.sent;
      write_err = failed || started.write_err;
    }

pub data Call : Type 0 where
  writes_header : ℕ → Call
  writes : Bool → String → Call

unfoldable pub run_call : Call → StatusResponseWriter → StatusResponseWriter
run_call (writes_header code) w = write_header code w
run_call (writes failed data_) w = write failed data_ w

unfoldable pub run_calls : List Call → StatusResponseWriter → StatusResponseWriter
unfolding run_call
run_calls [] w = w
run_calls (c ∷ cs) w = run_calls cs (run_call c w)

unfoldable pub write_json : ℕ → Bool → String → List Call
write_json status failed data_ = writes_header status ∷ writes failed data_ ∷ []

-- `http.Error`
abbrev pub http_error : String → ℕ → Bool → List Call
http_error message status failed = write_json status failed message

unfoldable pub method_not_allowed : Bool → List Call
unfolding write_json
method_not_allowed failed = http_error "method not allowed\n" 405 failed

pub record RequestLogMetadata : Type 0 where
  pub season : String
  pub year : ℤ
  pub category : String
  pub result_count : Option ℕ
  pub cache_state : String
  pub outcome : String
  pub reason : String
  pub refresh_scheduled : Bool
  pub winter_backfill : Bool

pub record Handled : Type 0 where
  pub calls : List Call
  pub metadata : RequestLogMetadata
  pub panics : Bool

unfoldable pub recovery_middleware :
    Bool → RequestLogMetadata → StatusResponseWriter → RequestLogMetadata × StatusResponseWriter
unfolding write_header
recovery_middleware false metadata w = (metadata, w)
recovery_middleware true metadata w = (
  record metadata { outcome = "failed"; reason = "panic" },
  if not w.wrote_header then write_header 500 w else w,
)

pub data Attr : Type 0 where
  text : String → Attr
  number : ℕ → Attr
  signed : ℤ → Attr
  flag : Bool → Attr
  -- the error of the last write that failed
  write_error : Attr

abbrev pub attr_if : Bool → String → Attr → List (String × Attr)
attr_if b key value = if b then (key, value) ∷ [] else []

abbrev pub result_count_attr : Option ℕ → List (String × Attr)
result_count_attr none = []
result_count_attr (some n) = ("result_count", number n) ∷ []

unfoldable pub reason_attrs : RequestLogMetadata → Bool → List (String × Attr)
reason_attrs m write_err =
    if write_err
    then ("reason", text "response_write_failed") ∷ ("error", write_error) ∷ []
    else attr_if (not (str_eq m.reason "")) "reason" (text m.reason)

unfoldable pub metadata_attrs : RequestLogMetadata → List (String × Attr)
metadata_attrs m =
    attr_if m.refresh_scheduled "refresh_scheduled" (flag true)
    ++ (attr_if m.winter_backfill "winter_backfill_scheduled" (flag true)
        ++ (attr_if (not (str_eq m.season "")) "season" (text m.season)
            ++ (attr_if (not (eqb_ℤ m.year (pos 0))) "year" (signed m.year)
                ++ (attr_if (not (str_eq m.category "")) "category" (text m.category)
                    ++ (result_count_attr m.result_count
                        ++ attr_if (not (str_eq m.cache_state "")) "cache_state"
                            (text m.cache_state))))))

unfoldable pub outcome_of : RequestLogMetadata → StatusResponseWriter → String
outcome_of m w =
    if leb 400 w.status || w.write_err
    then "failed"
    else if str_eq m.outcome ""
    then "succeeded"
    else m.outcome

pub data Level : Type 0 where
  warn info : Level

-- The level of the line that is logged for a request, if there is one.
unfoldable pub level_of : String → String → Option Level
level_of outcome route =
    if not (str_eq outcome "succeeded")
    then some warn
    else if not (str_eq route "/health")
    then some info
    else none

-- A line: its level, the outcome, the status, and the attributes that follow.
pub record LogLine : Type 0 where
  pub level : Level
  pub method : String
  pub route : String
  pub status : ℕ
  pub outcome : String
  pub attrs : List (String × Attr)

abbrev pub route_of : String → String
route_of pattern_ = if str_eq pattern_ "" then "unknown" else pattern_

unfoldable pub log_line :
    String → String → RequestLogMetadata → StatusResponseWriter → Option LogLine
unfolding outcome_of level_of reason_attrs metadata_attrs
log_line method route m w = elim (level_of (outcome_of m w) route) [
  | none ↦ none
  | some l ↦ some (record {
    level = l;
    method = method;
    route = route;
    status = w.status;
    outcome = outcome_of m w;
    attrs = reason_attrs m w.write_err ++ metadata_attrs m;
  })
]

abbrev pub not_started : StatusResponseWriter
not_started = record {
  sent = record { status = none; body = [] };
  status = 200;
  wrote_header = false;
  write_err = false;
}

-- A request, with the pattern of its route: what the client is sent, and what is logged.
unfoldable pub logging_middleware : String → String → Handled → Sent × Option LogLine
unfolding run_calls recovery_middleware log_line
logging_middleware method pattern_ h =
    let (m, w) = recovery_middleware h.panics h.metadata (run_calls h.calls not_started) in
    (w.sent, log_line method (route_of pattern_) m w)
