-- ===== src/Tests/Upkeep.antt =====
-- The configuration, the loading of the resolver, and the fetches of several years.
use sonarr_anime_bridge.Prelude.{
  ℕ, ◌+◌, ◌≡◌, ◌≢◌, ◌≤ℤ◌, refl, ap, pos_part, true, false, if◌then◌else◌, List, [], ◌∷◌, length,
  Option, none, some, All, str_eq, ℤ, pos, arith,
}
use sonarr_anime_bridge.Show.{Show}
use sonarr_anime_bridge.Retry.{ok}
use sonarr_anime_bridge.Cache.{stale_years}
use sonarr_anime_bridge.DecodedYear.{DecodedYear}
use sonarr_anime_bridge.Mapping.Url.{validate_remote_url}
use sonarr_anime_bridge.Mapping.Url.Laws.{github}
use sonarr_anime_bridge.Mapping.Loader.Load.{default_anibridge_mapping_path}
use sonarr_anime_bridge.Config.{Environment, default_cache_db_path, load_config}
use sonarr_anime_bridge.Config.Laws.{IsNear, IsDataPath, load_config_lem}
use sonarr_anime_bridge.Scheduler.Failures.{RetryLimits}
use sonarr_anime_bridge.Scheduler.Fetch.{failure, context_canceled, returns, FetchState}
use sonarr_anime_bridge.Scheduler.Loading.{ResolverState, load_resolver}
use sonarr_anime_bridge.Scheduler.Loading.Laws.{IsSound, IsPublished, load_resolver-IsPublished}
use sonarr_anime_bridge.Scheduler.Prewarm.{FetchAnswers, YearAnswers, prewarm, refresh_stale_years}
use sonarr_anime_bridge.Scheduler.Prewarm.Fates.{fates, IsCounted}
use sonarr_anime_bridge.Scheduler.Prewarm.Laws.{prewarm-IsCounted, row_of, refresh_stale_years-row}
use sonarr_anime_bridge.Tests.Data.{cache, noon, winter_show}
use sonarr_anime_bridge.Tests.Loading.{setting, task, answers}

-- PORT=70000, and nothing else is set.
abbrev environment : Environment
environment = record {
  getenv = λ key. if str_eq key "PORT" then "70000" else "";
  current_year = pos 2026;
  trim_space = λ s. s;
  to_upper = λ s. s;
  paths = record {
    clean = λ p. p;
    is_abs = λ p. true;
    rel = λ base p. some "x";
    temp_dir = "/tmp";
  };
  setting = setting;
}

load_config_lem_example :
    let cfg = load_config environment in
    (pos 1 ≤ℤ cfg.port)
    × (cfg.port ≤ℤ pos 65535)
    × (cfg.prewarm_years ≢ [])
    × All (IsNear environment) cfg.prewarm_years
    × (cfg.include_types ≢ [])
    × IsDataPath environment default_cache_db_path cfg.cache_db_path
    × IsDataPath environment default_anibridge_mapping_path cfg.anibridge_mapping_path
    × (validate_remote_url environment.setting cfg.anibridge_url ≡ none)
load_config_lem_example = load_config_lem environment github refl refl refl refl

abbrev unloaded : ResolverState
unloaded = record { loader = record { state = none }; resolver = record { mapping = none } }

load_resolver-IsPublished_example :
    IsSound task.codecs task.parse (load_resolver some failure false false task answers unloaded).0
    × IsPublished unloaded
        (load_resolver some failure false false task answers unloaded).0
        (load_resolver some failure false false task answers unloaded).1
load_resolver-IsPublished_example =
    load_resolver-IsPublished some failure task answers unloaded false false (tt, tt)

abbrev retry_limits : RetryLimits
retry_limits = record { base = 15000; maximum = 300000 }

abbrev encode : List Show → Option (List ℕ)
encode shows = some (1 ∷ [])

abbrev absent : DecodedYear
absent = record { shows = []; fresh = false; present = false; decode_err = false }

abbrev fetching : FetchAnswers
fetching = record {
  cached = ok absent;
  checked = 1;
  ended = failure;
  up = returns (winter_show ∷ []);
  stored = noon;
  write = none;
  finished = 2;
}

abbrev year_answers : YearAnswers
year_answers = record {
  ends_before = false;
  peek = ok absent;
  fetch = fetching;
  ends_after = false;
  hydrate = none;
}

abbrev state : FetchState
state = record { cache = cache; failures = [] }

abbrev configured : List (ℤ × YearAnswers)
configured = (pos 2025, year_answers) ∷ (pos 2026, year_answers) ∷ []

prewarm-IsCounted_example :
    IsCounted
      (fates retry_limits encode configured state)
      (prewarm retry_limits encode context_canceled configured state)
    × ((prewarm retry_limits encode context_canceled configured state).cached
          + (prewarm retry_limits encode context_canceled configured state).fetched
          + (prewarm retry_limits encode context_canceled configured state).failed
        ≡ length configured)
prewarm-IsCounted_example =
    prewarm-IsCounted retry_limits encode context_canceled configured state
      ((refl, refl, refl), ((refl, refl, refl), tt))

refresh_stale_years-row_example :
    row_of
      (pos 1900)
      (refresh_stale_years retry_limits encode noon none (λ y. (false, fetching)) state)
    ≡ row_of (pos 1900) state
refresh_stale_years-row_example =
    refresh_stale_years-row retry_limits encode noon none (λ y. (false, fetching)) (pos 1900) state
      (unfold stale_years in (λ e. ground (arith, ap pos_part e), tt))
