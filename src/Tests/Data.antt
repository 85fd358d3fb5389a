-- ===== src/Tests/Data.antt =====
-- The sample data of the tests.
use sonarr_anime_bridge.Prelude.{ℕ, ◌*◌, false, List, [], ◌∷◌, Option, none, some, ℤ, pos}
use sonarr_anime_bridge.Show.{Show, FuzzyDate}
use sonarr_anime_bridge.Decoded.{DecodedCache, default_capacity, default_bytes}
use sonarr_anime_bridge.Cache.{Cache, Row, Clock, second, hour}
use sonarr_anime_bridge.Mapping.{AnibridgeMapping}

abbrev pub january : FuzzyDate
january = record { year = some (pos 2024); month = some (pos 1); day = some (pos 6) }

abbrev pub december : FuzzyDate
december = record { year = some (pos 2023); month = some (pos 12); day = none }

abbrev pub winter_show : Show
winter_show = record {
  id = pos 101;
  id_mal = some (pos 7);
  title = record { english = some "Alpha"; romaji = none };
  format = "TV";
  duration = some (pos 24);
  tags = [];
  season = "WINTER";
  start_date = january;
  relations = none;
}

abbrev pub december_show : Show
december_show = record winter_show {
  id = pos 102;
  id_mal = none;
  season = "";
  start_date = december;
}

abbrev pub short_show : Show
short_show = record winter_show { id = pos 103; duration = some (pos 5) }

abbrev pub mapping : AnibridgeMapping
mapping = record { by_mal = (pos 7, pos 7000) ∷ []; by_anilist = (pos 102, pos 7200) ∷ [] }

-- Bytes that are not empty decode to the winter show.
abbrev pub decode : List ℕ → Option (List Show)
decode [] = none
decode (n ∷ raw) = some (winter_show ∷ [])

abbrev pub empty_cache : DecodedCache
empty_cache = record {
  generation = 0;
  closed = false;
  entries = [];
  lru = [];
  bytes = 0;
  max_years = default_capacity;
  max_bytes = default_bytes;
}

abbrev pub noon : Clock
noon = record { nanos = 1700000000 * second; year = pos 2024 }

abbrev pub old_row : Row
old_row = record { data_of = 1 ∷ []; fetched_at = 1690000000; last_hit = 1690000005 }

abbrev pub year_cache : List (ℤ × Row)
year_cache = (pos 2023, old_row) ∷ []

abbrev pub cache : Cache
cache = record {
  decoded = empty_cache;
  year_cache = year_cache;
  current_year_freshness = 24 * hour;
  past_year_freshness = 7 * 24 * hour;
  hits = 0;
  misses = 0;
  last_hit_times = (pos 2023, 1690000100) ∷ [];
  last_hit_debounce = 300 * second;
  last_hit_failed = [];
  pending_last_hits = (pos 2023, 1690000100) ∷ [];
}
