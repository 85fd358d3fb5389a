-- ===== src/Tests/Serving.antt =====
-- The HTTP handlers.
use sonarr_anime_bridge.Prelude.{
  false, arith, inl, inr, keep, ◌+ℤ◌, ◌-ℤ◌, ℕ, ◌≡◌, ◌↔◌, refl, true, is_some, [], ◌∷◌, Option, none,
  some, All, pos,
}
use sonarr_anime_bridge.Retry.{DbError, ok}
use sonarr_anime_bridge.Cache.Laws.{HasRow}
use sonarr_anime_bridge.Mapping.{Resolver}
use sonarr_anime_bridge.Server.Health.{
  HealthResponse, healthy, responds, handle_health, handle_health-code,
}
use sonarr_anime_bridge.Server.Debug.{DebugConfig}
use sonarr_anime_bridge.Server.Response.{
  final_status, writes_header, writes, RequestLogMetadata, Handled, route_of, logging_middleware,
}
use sonarr_anime_bridge.Server.Response.Laws.{first_status, IsLogged, logging_middleware-IsLogged}
use sonarr_anime_bridge.Server.Admin.{handle_cache_clear, IsAnswered, handle_cache_clear-IsAnswered}
use sonarr_anime_bridge.Server.List.{
  ListReads, lists, handle_list, ListRequest, ListQuery, accepts, check_request,
}
use sonarr_anime_bridge.Server.List.Laws.{IsAccepted, check_request_iff}
use sonarr_anime_bridge.Server.List.Answer.{at_once, lost, handle_list-own_answers}
use sonarr_anime_bridge.Show.Dates.{Now}
use sonarr_anime_bridge.DecodedYear.{DecodedYear}
use sonarr_anime_bridge.Scheduler.Process.{FilterConfig}
use sonarr_anime_bridge.Scheduler.Process.Winter.{with_winter}
use sonarr_anime_bridge.Scheduler.Process.Laws.{is_wanted}
use sonarr_anime_bridge.Scheduler.Process.Distinct.{own_answers}
use sonarr_anime_bridge.Tests.Data.{winter_show, mapping, cache}

abbrev resolver : Resolver
resolver = record { mapping = some mapping }

handle_health-code_example :
    (code : ℕ) × (r : HealthResponse) × (handle_health "GET"
        (pos 2023 ∷ pos 2024 ∷ [])
        none
        resolver
        cache
      ≡ responds code r)
    × ((code ≡ 200) ↔ ((◌≡◌ {A = Option DbError} none none) × (is_some resolver.mapping ≡ true)))
    × ((r.cache_check ≡ healthy) ↔ (
        (◌≡◌ {A = Option DbError} none none)
        × All (HasRow cache.year_cache) (pos 2023 ∷ pos 2024 ∷ [])))
    × ((r.resolver_check ≡ healthy) ↔ (is_some resolver.mapping ≡ true))
handle_health-code_example =
    handle_health-code "GET" (pos 2023 ∷ pos 2024 ∷ []) none resolver cache refl

abbrev debugging : DebugConfig
debugging = record { debug_endpoints_enabled = true; admin_token = "secret" }

handle_cache_clear-IsAnswered_example :
    let (c', calls) = handle_cache_clear (some debugging) false "POST" "Bearer secret" none cache in
    IsAnswered (some debugging) "POST" "Bearer secret" none cache c' (first_status calls false)
handle_cache_clear-IsAnswered_example =
    handle_cache_clear-IsAnswered (some debugging) false "POST" "Bearer secret" none cache

abbrev no_notes : RequestLogMetadata
no_notes = record {
  season = "WINTER";
  year = pos 2023;
  category = "";
  result_count = none;
  cache_state = "fresh";
  outcome = "";
  reason = "";
  refresh_scheduled = false;
  winter_backfill = true;
}

-- A handler that panics after its first write.
abbrev handled : Handled
handled = record {
  calls = writes false "[" ∷ writes_header 404 ∷ [];
  metadata = no_notes;
  panics = true;
}

logging_middleware-IsLogged_example :
    (final_status (logging_middleware "GET" "/list" handled).0
      ≡ first_status handled.calls handled.panics)
    × IsLogged (route_of "/list") handled (logging_middleware "GET" "/list" handled).1
logging_middleware-IsLogged_example =
    logging_middleware-IsLogged "GET" "/list" handled (refl, (refl, tt))

abbrev request : ListRequest
request = record { method = "GET"; season = "WINTER"; year = some (some (pos 2023)); category = "" }

abbrev query : ListQuery
query = record { season = "WINTER"; year = pos 2023; category = "series" }

check_request_iff_example :
    (check_request request true (pos 2024) ≡ accepts query)
    ↔ IsAccepted request true (pos 2024) query
check_request_iff_example = check_request_iff request true (pos 2024) query

-- A folding that leaves every code point.
abbrev plain : ℕ → ℕ
plain c = c

abbrev today : Now
today = record { year = 2024; month = 2; day = 1 }

abbrev filters : FilterConfig
filters = record { include_types = "TV" ∷ []; exclude_tags = []; filter_future_enabled = false }

abbrev stale_year : DecodedYear
stale_year = record { shows = winter_show ∷ []; fresh = false; present = true; decode_err = false }

abbrev absent_year : DecodedYear
absent_year = record { shows = []; fresh = false; present = false; decode_err = false }

-- The year is there, and the one before is not.
abbrev reads : ListReads
reads = record {
  first = ok stale_year;
  fetch_failed = false;
  second = ok stale_year;
  prior = ok absent_year;
}

request-IsAccepted : IsAccepted request true (pos 2024) query
unfolding ◌+ℤ◌ ◌-ℤ◌
request-IsAccepted = record {
  read = refl;
  resolver = refl;
  season = refl;
  known_season = refl;
  year = inr (refl, omega arith, omega arith, omega arith);
  category = refl;
  known_category = inl refl;
}

handle_list-own_answers_example :
    handle_list plain today filters (some mapping) request true (pos 2024) reads false
    ≡ lists
        (own_answers mapping (
          keep
            (is_wanted plain today filters "WINTER" "series")
            (with_winter (winter_show ∷ []) [] "WINTER")))
        true
        true
handle_list-own_answers_example =
    handle_list-own_answers plain today filters mapping request true (pos 2024) query reads false
      stale_year [] true request-IsAccepted (at_once refl record { present = refl; decodes = refl })
      (lost absent_year refl refl (inl refl) refl refl) (refl, tt)
