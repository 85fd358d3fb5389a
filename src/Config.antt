-- ===== src/Config.antt =====
-- The configuration (internal/config/config.go, and `Validate` of internal/datapath/datapath.go). The
-- environment, the year of the clock, and what strings and path/filepath compute on text outside of
-- ASCII or on paths are arguments. Warnings are left out.
pub mod Laws
use Prim.Native.Char.{Char, code}
use sonarr_anime_bridge.Prelude.{
  ℕ, Bool, true, false, not, ◌&&◌, ◌||◌, ◌==◌, if◌then◌else◌, List, [], ◌∷◌, any, Option, none,
  some, is_some, ℤ, pos, ◌+ℤ◌, ◌-ℤ◌, ltb_ℤ, leb_ℤ, String, str_eq, codes,
}
use sonarr_anime_bridge.Mapping.Parse.Ranges.{atoi, cut_prefix}
use sonarr_anime_bridge.Mapping.Url.{Setting, default_anibridge_url, validate_mapping_url}
use sonarr_anime_bridge.Mapping.Loader.Load.{default_anibridge_mapping_path}

-- `filepath.Clean`, `filepath.IsAbs`, `filepath.Rel` (`none` is an error), and `os.TempDir()`.
pub record Paths : Type 0 where
  pub clean : String → String
  pub is_abs : String → Bool
  pub rel : String → String → Option String
  pub temp_dir : String

-- `strings.Contains` and `strings.HasPrefix`, on code points.
abbrev has_prefix : List ℕ → List ℕ → Bool
has_prefix prefix s = is_some (cut_prefix prefix s)

abbrev contains : List ℕ → List ℕ → Bool
contains part [] = has_prefix part []
contains part (c ∷ s) = has_prefix part (c ∷ s) || contains part s

abbrev contains_any : List ℕ → List ℕ → Bool
contains_any chars s = any (λ c. any (λ d. c == d) chars) s

unfoldable pub is_plain : String → Bool
unfolding cut_prefix
is_plain path = not (contains_any (codes "?&") (codes path) || contains (codes "://") (codes path))

-- A path relative to a root that does not lead out of it.
unfoldable pub stays_inside : Option String → Bool
unfolding cut_prefix
stays_inside none = false
stays_inside (some r) = not (str_eq r "..") && not (has_prefix (codes "../") (codes r))

unfoldable pub validate_path : Paths → String → Option String
validate_path paths path =
    let cleaned = paths.clean path in
    if not (is_plain path)
    then none
    else if not (paths.is_abs cleaned)
    then none
    else if any (λ base. stays_inside (paths.rel base cleaned)) ("/data" ∷ paths.temp_dir ∷ [])
    then some cleaned
    else none

pub record Config : Type 0 where
  pub port : ℤ
  pub prewarm_years : List ℤ
  pub include_types : List String
  pub exclude_tags : List String
  pub cache_db_path : String
  pub log_level : String
  pub filter_future_enabled : Bool
  pub debug_endpoints_enabled : Bool
  pub admin_token : String
  pub anibridge_mapping_path : String
  pub anibridge_url : String

-- `os.Getenv`, the year of `time.Now()`, and `strings.TrimSpace` and `strings.ToUpper`.
pub record Environment : Type 0 where
  pub getenv : String → String
  pub current_year : ℤ
  pub trim_space : String → String
  pub to_upper : String → String
  pub paths : Paths
  pub setting : Setting

abbrev pub default_port : ℤ
default_port = pos 8080

abbrev pub default_cache_db_path : String
default_cache_db_path = "/data/cache.db"

unfoldable pub get_env_str : Environment → String → String → String
get_env_str env key def = if not (str_eq (env.getenv key) "") then env.getenv key else def

-- `strconv.ParseBool`
unfoldable pub parse_bool : String → Option Bool
parse_bool v =
    if any (str_eq v) ("1" ∷ "t" ∷ "T" ∷ "TRUE" ∷ "true" ∷ "True" ∷ [])
    then some true
    else if any (str_eq v) ("0" ∷ "f" ∷ "F" ∷ "FALSE" ∷ "false" ∷ "False" ∷ [])
    then some false
    else none

abbrev pub or_else {ℓ} : {A : Type ℓ} → A → Option A → A
or_else def none = def
or_else def (some a) = a

unfoldable pub get_env_bool : Environment → String → Bool → Bool
unfolding parse_bool
get_env_bool env key def =
    if not (str_eq (env.getenv key) "") then or_else def (parse_bool (env.getenv key)) else def

unfoldable pub get_env_int : Environment → String → ℤ → ℤ
get_env_int env key def =
    if not (str_eq (env.getenv key) "") then or_else def (atoi (codes (env.getenv key))) else def

abbrev cons_first : Char → List String → List String
cons_first c [] = String.◌∷◌ c "" ∷ []
cons_first c (part ∷ parts) = String.◌∷◌ c part ∷ parts

-- `strings.Split` at a comma.
unfoldable pub split : String → List String
split String.[] = "" ∷ []
split (String.◌∷◌ c s) =
    let parts = split s in if code c == b',' then "" ∷ parts else cons_first c parts

unfoldable pub upper_parts : Environment → List String → List String
upper_parts env [] = []
upper_parts env (p ∷ parts) =
    if str_eq (env.trim_space p) ""
    then upper_parts env parts
    else env.to_upper (env.trim_space p) ∷ upper_parts env parts

abbrev pub unless_empty {ℓ} : {A : Type ℓ} → List A → List A → List A
unless_empty def [] = def
unless_empty def (x ∷ out) = x ∷ out

unfoldable pub parse_string_list : Environment → String → List String → List String
parse_string_list env key def =
    if str_eq (env.getenv key) ""
    then def
    else unless_empty def (upper_parts env (split (env.getenv key)))

abbrev pub ten : ℤ
ten = pos 10

unfoldable pub is_prewarm_year : Environment → ℤ → Bool
is_prewarm_year env y =
    ltb_ℤ (pos 0) y && (leb_ℤ (env.current_year -ℤ ten) y && leb_ℤ y (env.current_year +ℤ ten))

unfoldable pub year_parts : Environment → List String → List ℤ
year_parts env [] = []
year_parts env (p ∷ parts) =
    let rest = year_parts env parts in
    elim (atoi (codes (env.trim_space p))) [
      | none ↦ rest
      | some y ↦ if is_prewarm_year env y then y ∷ rest else rest
    ]

unfoldable pub parse_year_list : Environment → String → List ℤ → List ℤ
parse_year_list env key def =
    if str_eq (env.getenv key) ""
    then def
    else unless_empty def (year_parts env (split (env.getenv key)))

unfoldable pub validate_data_path : Environment → String → String → String
validate_data_path env path def =
    if str_eq path ":memory:" then path else or_else def (validate_path env.paths path)

-- The port is between 1 and 65535.
unfoldable pub clamp_port : ℤ → ℤ
clamp_port port = if ltb_ℤ port (pos 1) || ltb_ℤ (pos 65535) port then default_port else port

unfoldable pub load_config : Environment → Config
load_config env = record {
  port = clamp_port (get_env_int env "PORT" default_port);
  prewarm_years = parse_year_list env "PREWARM_YEARS" (env.current_year ∷ []);
  include_types = parse_string_list env "INCLUDE_TYPES" ("TV" ∷ "ONA" ∷ []);
  exclude_tags = parse_string_list env "EXCLUDE_TAGS" [];
  cache_db_path =
      validate_data_path env (get_env_str env "CACHE_DB_PATH" default_cache_db_path)
        default_cache_db_path;
  log_level = get_env_str env "LOG_LEVEL" "info";
  filter_future_enabled = get_env_bool env "FILTER_FUTURE_ENABLED" true;
  debug_endpoints_enabled = get_env_bool env "DEBUG_ENDPOINTS_ENABLED" false;
  admin_token = get_env_str env "ADMIN_TOKEN" "";
  anibridge_mapping_path =
      validate_data_path env (get_env_str env "MAPPING_PATH" default_anibridge_mapping_path)
        default_anibridge_mapping_path;
  anibridge_url =
      validate_mapping_url env.setting (get_env_str env "MAPPING_URL" default_anibridge_url);
}
