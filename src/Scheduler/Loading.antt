-- ===== src/Scheduler/Loading.antt =====
-- The loading of the mapping into the resolver (internal/scheduler/scheduler.go, `loadResolver` and
-- `refreshMapping`). The gate of the scheduler lets one load run through its publication at a time.
pub mod Laws
use sonarr_anime_bridge.Prelude.{
  Bool, true, false, if◌then◌else◌, Option, none, some, is_some, String,
}
use sonarr_anime_bridge.Mapping.{AnibridgeMapping, Resolver, set_mapping}
use sonarr_anime_bridge.Mapping.Loader.{
  Loader, LoadResult, Disposition, loaded, reused, fallback, LoadError, context_done as load_ended,
  cache_unreadable, cannot_write, cannot_parse, bad_path, bad_url, not_downloaded, Loaded, ok, err,
  Answers, Writes,
}
use sonarr_anime_bridge.Mapping.Loader.Load.{Task, load}
use sonarr_anime_bridge.Scheduler.Fetch.{Cause, context_canceled, deadline_exceeded, failure}

-- The outcome and the reason that are logged.
pub data Outcome : Type 0 where
  failed degraded canceled succeeded : Outcome

pub data Reason : Type 0 where
  keeping_current_mapping resolver_unavailable context_done changed_content unchanged_content
        cached_fallback :
      Reason

pub record Report : Type 0 where
  pub outcome : Outcome
  pub reason : Reason

pub record ResolverState : Type 0 where
  pub loader : Loader
  pub resolver : Resolver

unfoldable pub report_error : Bool → Cause → Report
report_error resolver_loaded context_canceled = record { outcome = canceled; reason = context_done }
report_error resolver_loaded deadline_exceeded = record {
  outcome = canceled;
  reason = context_done;
}
report_error true failure = record { outcome = failed; reason = keeping_current_mapping }
report_error false failure = record { outcome = degraded; reason = resolver_unavailable }

unfoldable pub report_loaded : Disposition → Report
report_loaded loaded = record { outcome = succeeded; reason = changed_content }
report_loaded reused = record { outcome = succeeded; reason = unchanged_content }
report_loaded fallback = record { outcome = degraded; reason = cached_fallback }

-- What `errors.Is` tells of an error of the loader, where `ended` is the error of the context.
abbrev pub cause_of : Cause → LoadError → Cause
cause_of ended load_ended = ended
cause_of ended cache_unreadable = failure
cause_of ended cannot_write = failure
cause_of ended cannot_parse = failure
cause_of ended bad_path = failure
cause_of ended (bad_url e) = failure
cause_of ended (not_downloaded e) = failure

unfoldable pub keep_mapping : Cause → ResolverState → ResolverState × Option Cause × Option Report
unfolding report_error
keep_mapping cause s = (s, some cause, some (report_error (is_some s.resolver.mapping) cause))

-- After the loader has answered: `ended_since` is whether the context has ended meanwhile.
unfoldable pub publish :
    Cause → Bool → Loaded LoadResult → ResolverState → ResolverState × Option Cause × Option Report
unfolding keep_mapping report_loaded
publish ended ended_since (err e) s = keep_mapping (cause_of ended e) s
publish ended ended_since (ok result) s = if ended_since then keep_mapping ended s else (
  record s { resolver = set_mapping (some result.mapping) s.resolver },
  none,
  some (report_loaded result.disposition),
)

-- `gate_ended` is whether the context ended while the call waited for the gate.
unfoldable pub load_resolver :
    (String → Option String)
    → Cause
    → Bool
    → Bool
    → Task
    → Answers
    → ResolverState
    → ResolverState × Option Cause × Option Report
load_resolver validate ended gate_ended ended_since t a s =
    if gate_ended
    then (s, some ended, none)
    else let (loader, result, writes) = load validate (record t { loader = s.loader }) a in
      publish ended ended_since result (record s { loader = loader })

pub data Trigger : Type 0 where
  scheduled recovery : Trigger

-- `refreshMapping`: the trigger that is logged, and the state; the error is dropped.
unfoldable pub refresh_mapping :
    (String → Option String)
    → Cause
    → Bool
    → Bool
    → Task
    → Answers
    → ResolverState
    → ResolverState × Trigger
refresh_mapping validate ended gate_ended ended_since t a s = (
  (load_resolver validate ended gate_ended ended_since t a s).0,
  if is_some s.resolver.mapping then scheduled else recovery,
)
