-- ===== src/Config/Laws.antt =====
-- The configuration that internal/config/config.go loads can be used, whatever the environment is.
use sonarr_anime_bridge.Prelude.{
  ◌≡◌, ◌≢◌, ◌⊎◌, inl, inr, refl, true, List, [], ◌∷◌, any, none, some, ℤ, pos, ◌+ℤ◌, ◌-ℤ◌, ◌≤ℤ◌,
  String, str_eq, str_eq_iff, codes, All, arith, Bool-cases, Option-cases,
}
use sonarr_anime_bridge.Mapping.Parse.Ranges.{atoi}
use sonarr_anime_bridge.Mapping.Url.{Url, default_anibridge_url, validate_remote_url}
use sonarr_anime_bridge.Mapping.Url.Laws.{validate_mapping_url-validate_remote_url}
use sonarr_anime_bridge.Mapping.Loader.Load.{default_anibridge_mapping_path}
use sonarr_anime_bridge.Config.{
  Paths, stays_inside, validate_path, Environment, default_port, default_cache_db_path, get_env_int,
  unless_empty, parse_string_list, is_prewarm_year, year_parts, parse_year_list, validate_data_path,
  clamp_port, load_config,
}

clamp_port_bounds : (p : ℤ) → (pos 1 ≤ℤ clamp_port p) × (clamp_port p ≤ℤ pos 65535)
unfolding clamp_port
clamp_port_bounds p = ground arith

-- Ten years at most from the current one.
abbrev pub IsNear : Environment → ℤ → Type 0
IsNear env y = (env.current_year -ℤ pos 10 ≤ℤ y) × (y ≤ℤ env.current_year +ℤ pos 10)

prewarm-IsNear : (env : Environment) (y : ℤ) → is_prewarm_year env y ≡ true → IsNear env y
unfolding is_prewarm_year
prewarm-IsNear env y h = ground arith

year_parts-All : (env : Environment) (parts : List String) → All (IsNear env) (year_parts env parts)
unfolding year_parts
year_parts-All env [] = tt
year_parts-All env (p ∷ parts) = elim (Option-cases (atoi (codes (env.trim_space p)))) [
  | inl e ↦ rw (e, year_parts) (year_parts-All env parts)
  | inr (y, e) ↦ elim (Bool-cases (is_prewarm_year env y)) [
    | inl h ↦ rw (e, year_parts, h) (prewarm-IsNear env y h, year_parts-All env parts)
    | inr h ↦ rw (e, year_parts, h) (year_parts-All env parts)
  ]
]

near_self : (c : ℤ) → (c -ℤ pos 10 ≤ℤ c) × (c ≤ℤ c +ℤ pos 10)
unfolding ◌-ℤ◌ ◌+ℤ◌
near_self c = ground arith

unless_empty-ne-nil {ℓ} : {A : Type ℓ} (d : A) (ds out : List A) → unless_empty (d ∷ ds) out ≢ []
unless_empty-ne-nil d ds [] = λ e. cc e
unless_empty-ne-nil d ds (x ∷ out) = λ e. cc e

unless_empty-All {ℓ κ} :
    {A : Type ℓ} (P : A → Type κ) (def out : List A)
    → All P def
    → All P out
    → All P (unless_empty def out)
unless_empty-All P def [] h k = h
unless_empty-All P def (x ∷ out) h k = k

-- A path of the service's data: in memory, or absolute and inside of /data or the directory for
-- temporary files, or else the default.
abbrev pub IsDataPath : Environment → String → String → Type 0
IsDataPath env def path =
    (path ≡ ":memory:")
    ⊎ ((path ≡ def)
        ⊎ ((env.paths.is_abs path ≡ true)
            × (any (λ base. stays_inside (env.paths.rel base path))
                  ("/data" ∷ env.paths.temp_dir ∷ [])
                ≡ true)))

validate_path-some :
    (paths : Paths) (path p : String)
    → validate_path paths path ≡ some p
    → (paths.is_abs p ≡ true)
      × (any (λ base. stays_inside (paths.rel base p)) ("/data" ∷ paths.temp_dir ∷ []) ≡ true)
unfolding validate_path
validate_path-some paths path p h = ground arith

parse_string_list-ne-nil :
    (env : Environment) (key d : String) (ds : List String)
    → parse_string_list env key (d ∷ ds) ≢ []
unfolding parse_string_list
parse_string_list-ne-nil env key d ds = elim (Bool-cases (str_eq (env.getenv key) "")) [
  | inl e ↦ rw e (λ q. cc q)
  | inr e ↦ rw e (unless_empty-ne-nil d ds _)
]

parse_year_list-ne-nil :
    (env : Environment) (key : String) → parse_year_list env key (env.current_year ∷ []) ≢ []
unfolding parse_year_list
parse_year_list-ne-nil env key = elim (Bool-cases (str_eq (env.getenv key) "")) [
  | inl e ↦ rw e (λ q. cc q)
  | inr e ↦ rw e (unless_empty-ne-nil env.current_year [] _)
]

parse_year_list-All :
    (env : Environment) (key : String)
    → All (IsNear env) (parse_year_list env key (env.current_year ∷ []))
unfolding parse_year_list
parse_year_list-All env key = elim (Bool-cases (str_eq (env.getenv key) "")) [
  | inl e ↦ rw e (near_self env.current_year, tt)
  | inr e ↦
      rw e
        (unless_empty-All (IsNear env) _ _ (near_self env.current_year, tt) (year_parts-All env _))
]

validate_data_path-IsDataPath :
    (env : Environment) (path def : String) → IsDataPath env def (validate_data_path env path def)
unfolding validate_data_path
validate_data_path-IsDataPath env path def = elim (Bool-cases (str_eq path ":memory:")) [
  | inl e ↦ rw e (inl ((str_eq_iff _ _).0 e))
  | inr e ↦ elim (Option-cases (validate_path env.paths path)) [
    | inl v ↦ rw (e, v) (inr (inl refl))
    | inr (p, v) ↦ rw (e, v) (inr (inr (validate_path-some env.paths path p v)))
  ]
]

-- Whatever the environment is, the configuration can be used: the port is one, at least one year is
-- fetched in advance, and no year is more than ten years off; at least one type is included; the
-- paths are those of data; and the loader accepts the URL of the mapping, if the default one parses
-- as a URL at github.com.
pub load_config_lem :
    (env : Environment) (u : Url)
    → env.setting.parse default_anibridge_url ≡ some u
    → u.scheme ≡ "https"
    → u.hostname ≡ "github.com"
    → env.setting.to_lower "github.com" ≡ "github.com"
    → let cfg = load_config env in
      (pos 1 ≤ℤ cfg.port)
      × (cfg.port ≤ℤ pos 65535)
      × (cfg.prewarm_years ≢ [])
      × All (IsNear env) cfg.prewarm_years
      × (cfg.include_types ≢ [])
      × IsDataPath env default_cache_db_path cfg.cache_db_path
      × IsDataPath env default_anibridge_mapping_path cfg.anibridge_mapping_path
      × (validate_remote_url env.setting cfg.anibridge_url ≡ none)
unfolding load_config
load_config_lem env u p s h l =
    let (low, high) = clamp_port_bounds (get_env_int env "PORT" default_port) in
    (
      low,
      high,
      parse_year_list-ne-nil env "PREWARM_YEARS",
      parse_year_list-All env "PREWARM_YEARS",
      parse_string_list-ne-nil env "INCLUDE_TYPES" "TV" ("ONA" ∷ []),
      validate_data_path-IsDataPath env _ default_cache_db_path,
      validate_data_path-IsDataPath env _ default_anibridge_mapping_path,
      (validate_mapping_url-validate_remote_url env.setting _ u p s h l).1,
    )
