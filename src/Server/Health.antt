-- ===== src/Server/Health.antt =====
-- `handleHealth` (cmd/server/main.go). The answer of `HasYearsContext` and whether the resolver is loaded are
-- arguments; the response is a value instead of its JSON.
use sonarr_anime_bridge.Prelude.{
  ℕ, ◌≡◌, ◌↔◌, refl, Bool, true, false, not, ◌&&◌, ◌||◌, if◌then◌else◌, List, [], ◌∷◌, Option, none,
  some, arith, All, ℤ, String, str_eq, is_some,
}
use sonarr_anime_bridge.Retry.{DbError, DbResult, ok, err}
use sonarr_anime_bridge.Cache.{Cache, has_years}
use sonarr_anime_bridge.Cache.Laws.{HasRow, has_years_iff}
use sonarr_anime_bridge.Mapping.{Resolver}

pub data HealthStatus : Type 0 where
  healthy warming degraded unhealthy : HealthStatus

pub record HealthResponse : Type 0 where
  pub status : HealthStatus
  pub reason : String
  pub cache_check : HealthStatus
  pub resolver_check : HealthStatus

pub data HealthAnswer : Type 0 where
  method_not_allowed : HealthAnswer
  responds : ℕ → HealthResponse → HealthAnswer

abbrev pub is_read : String → Bool
is_read method = str_eq method "GET" || str_eq method "HEAD"

-- The status of the cache, the aggregate, and the HTTP status, after the first test.
abbrev pub cache_health : DbResult Bool → HealthStatus × HealthStatus × ℕ
cache_health (err e) = (unhealthy, unhealthy, 503)
cache_health (ok ready) = (if ready then healthy else warming, healthy, 200)

abbrev pub is_ok : DbResult Bool → Bool
is_ok (ok ready) = true
is_ok (err e) = false

unfoldable pub health_of : DbResult Bool → Bool → HealthAnswer
health_of answer resolver_loaded =
    let (cache_status, aggregate, code) = cache_health answer in
    let down = not resolver_loaded && is_ok answer in
    responds (if down then 503 else code) (record {
      status = if down then degraded else aggregate;
      reason = if down then "resolver not loaded" else "";
      cache_check = cache_status;
      resolver_check = if resolver_loaded then healthy else degraded;
    })

unfoldable pub handle_health : String → List ℤ → Option DbError → Resolver → Cache → HealthAnswer
unfolding health_of has_years
handle_health method prewarm_years answer resolver c =
    if not (is_read method)
    then method_not_allowed
    else health_of (has_years prewarm_years answer c) (is_some resolver.mapping)

-- 200 needs both parts, whatever the cache still has to fetch.
health_of-code :
    (answer : DbResult Bool) (loaded : Bool)
    → (code : ℕ) × (r : HealthResponse) × (health_of answer loaded ≡ responds code r)
      × ((code ≡ 200) ↔ ((is_ok answer ≡ true) × (loaded ≡ true)))
      × ((r.cache_check ≡ healthy) ↔ (answer ≡ ok true))
      × ((r.resolver_check ≡ healthy) ↔ (loaded ≡ true))
unfolding health_of
health_of-code (err e) true = (_, _, refl, ground arith, ground arith, ground arith)
health_of-code (err e) false = (_, _, refl, ground arith, ground arith, ground arith)
health_of-code (ok true) true = (_, _, refl, ground arith, ground arith, ground arith)
health_of-code (ok true) false = (_, _, refl, ground arith, ground arith, ground arith)
health_of-code (ok false) true = (_, _, refl, ground arith, ground arith, ground arith)
health_of-code (ok false) false = (_, _, refl, ground arith, ground arith, ground arith)

has_years_answered :
    (years : List ℤ) (answer : Option DbError) (c : Cache)
    → (is_ok (has_years years answer c) ≡ true) ↔ (answer ≡ none)
unfolding has_years
has_years_answered years (some e) c = (λ h. cc h, λ h. cc h)
has_years_answered [] none c = (λ h. refl, λ h. refl)
has_years_answered (y ∷ years) none c = (λ h. refl, λ h. refl)

has_years_ready :
    (years : List ℤ) (answer : Option DbError) (c : Cache)
    → (has_years years answer c ≡ ok true) ↔ ((answer ≡ none) × All (HasRow c.year_cache) years)
unfolding has_years
has_years_ready years (some e) c = (λ h. cc h, λ h. cc (h.0))
has_years_ready years none c =
    let ready = has_years_iff years c in (λ h. (refl, ready.0 h), λ h. ready.1 (h.1))

-- A GET or HEAD of the health endpoint gets 200 exactly when the database answers and a mapping is loaded. The
-- cache counts as healthy exactly when the database answers and every year to be prewarmed has a row,
-- and the resolver when a mapping is loaded.
pub handle_health-code :
    (method : String) (years : List ℤ) (answer : Option DbError) (resolver : Resolver) (c : Cache)
    → is_read method ≡ true
    → (code : ℕ) × (r : HealthResponse) × (handle_health method years answer resolver c
        ≡ responds code r)
      × ((code ≡ 200) ↔ ((answer ≡ none) × (is_some resolver.mapping ≡ true)))
      × ((r.cache_check ≡ healthy) ↔ ((answer ≡ none) × All (HasRow c.year_cache) years))
      × ((r.resolver_check ≡ healthy) ↔ (is_some resolver.mapping ≡ true))
unfolding handle_health
handle_health-code method years answer resolver c read =
    let (code, r, e, success, cached, resolved) =
      health_of-code (has_years years answer c) (is_some resolver.mapping) in
    let answered = has_years_answered years answer c in
    let ready = has_years_ready years answer c in
    (
      code,
      r,
      rw (read, handle_health) e,
      (
        λ h. (answered.0 ((success.0 h).0), (success.0 h).1),
        λ h. success.1 (answered.1 (h.0), h.1),
      ),
      (λ h. ready.0 (cached.0 h), λ h. cached.1 (ready.1 h)),
      resolved,
    )
