-- ===== src/Server/Admin.antt =====
-- The debug endpoints behind their guard (cmd/server/main.go, `handleCacheStats`, `handleCacheClear`). The
-- texts of JSON are arguments, where `none` is an error of the encoder.
use sonarr_anime_bridge.Prelude.{
  ℕ, arith, ◌≡◌, ◌≢◌, ◌↔◌, Bool-cases, str_eq_iff, ◌⊎◌, ◌==◌, if◌then◌else◌, inl, inr, refl, Bool,
  true, false, List, [], ◌∷◌, any, Option, none, some, String, str_eq,
}
use sonarr_anime_bridge.Retry.{DbError}
use sonarr_anime_bridge.Cache.{Cache, CacheStats, clear, stats}
use sonarr_anime_bridge.Server.Debug.{
  DebugConfig, replies, passes_to, debug_handler, IsAllowed, authorized_debug_request,
  authorized_debug_request_iff,
}
use sonarr_anime_bridge.Server.Response.{
  Call, writes_header, write_json, method_not_allowed, http_error,
}
use sonarr_anime_bridge.Server.Response.Laws.{first_status}

-- What the guard itself replies, with 405 or 404; `failed` is whether the client cannot be reached.
abbrev pub refuse : Bool → ℕ → List Call
refuse failed code =
    if code == 405 then method_not_allowed failed else http_error "not found\n" code failed

abbrev write_stats : Bool → Option String → List Call
write_stats failed none = writes_header 500 ∷ []
write_stats failed (some text) = write_json 200 failed text

abbrev serve_stats : (CacheStats → Option String) → Bool → CacheStats × Option DbError → List Call
serve_stats marshal failed (s, some e) = writes_header 500 ∷ []
serve_stats marshal failed (s, none) = write_stats failed (marshal s)

unfoldable pub handle_cache_stats :
    Option DebugConfig
    → (CacheStats → Option String)
    → Bool
    → String
    → String
    → Option DbError
    → Cache
    → List Call
unfolding write_json method_not_allowed
handle_cache_stats cfg marshal failed method authorization answer c =
    elim (debug_handler {0} cfg ("GET" ∷ "HEAD" ∷ []) tt method authorization) [
      | replies code ↦ refuse failed code
      | passes_to next ↦ serve_stats marshal failed (stats answer c)
    ]

abbrev serve_clear : Bool → Cache × Option DbError → Cache × List Call
serve_clear failed (c, some e) = (c, writes_header 500 ∷ [])
serve_clear failed (c, none) = (c, write_json 200 failed "{\"status\":\"ok\"}")

unfoldable pub handle_cache_clear :
    Option DebugConfig → Bool → String → String → Option DbError → Cache → Cache × List Call
unfolding write_json method_not_allowed
handle_cache_clear cfg failed method authorization answer c =
    elim (debug_handler {0} cfg ("POST" ∷ []) tt method authorization) [
      | replies code ↦ (c, refuse failed code)
      | passes_to next ↦ serve_clear failed (clear answer c)
    ]

-- The cache was cleared, and its statistics are zero.
pub record IsCleared (c : Cache) : Type 0 where
  rows : c.year_cache ≡ []
  pending : c.pending_last_hits ≡ []
  zero : stats none c ≡ (record { entries = 0; hits = 0; misses = 0 }, none)

clear-IsCleared : (c : Cache) → IsCleared (clear none c).0
unfolding clear stats
clear-IsCleared c = record { rows = refl; pending = refl; zero = refl }

serve_clear-IsCleared :
    (failed : Bool) (answer : Option DbError) (c : Cache)
    → let (c', calls) = serve_clear failed (clear answer c) in
      ((first_status calls false ≡ 200) × IsCleared c' × (answer ≡ none))
      ⊎ ((c' ≡ c) × (first_status calls false ≡ 500) × (answer ≢ none))
unfolding clear write_json
serve_clear-IsCleared failed none c = inl (refl, clear-IsCleared c, refl)
serve_clear-IsCleared failed (some e) c = inr (refl, refl, λ h. cc h)

-- What each request to clear the cache gets, with the status `code`, and leaves of the cache.
abbrev pub IsAnswered :
    Option DebugConfig → String → String → Option DbError → Cache → Cache → ℕ → Type 0
IsAnswered cfg method authorization answer c c' code =
    ((method ≢ "POST") × (code ≡ 405) × (c' ≡ c))
    ⊎ (((method ≡ "POST") × ¬ IsAllowed cfg authorization × (code ≡ 404) × (c' ≡ c))
        ⊎ (((method ≡ "POST")
              × IsAllowed cfg authorization
              × (answer ≢ none)
              × (code ≡ 500)
              × (c' ≡ c))
            ⊎ ((method ≡ "POST")
                × IsAllowed cfg authorization
                × (answer ≡ none)
                × (code ≡ 200)
                × IsCleared c')))

post_iff : (method : String) → (any (str_eq method) ("POST" ∷ []) ≡ true) ↔ (method ≡ "POST")
post_iff method =
    (λ h. ground (arith, str_eq_iff method "POST"), λ h. ground (arith, str_eq_iff method "POST"))

-- A request to clear the cache that is no POST gets 405; a POST that is not authorized gets 404; and one that
-- is gets 500 with an error of the database, and otherwise 200. The cache is cleared, with its statistics
-- at zero, in the last case, and is left as it is in the others.
pub handle_cache_clear-IsAnswered :
    (cfg : Option DebugConfig) (failed : Bool) (method authorization : String)
    (answer : Option DbError) (c : Cache)
    → let (c', calls) = handle_cache_clear cfg failed method authorization answer c in
      IsAnswered cfg method authorization answer c c' (first_status calls false)
unfolding handle_cache_clear write_json method_not_allowed debug_handler
handle_cache_clear-IsAnswered cfg failed method authorization answer c =
    let post = post_iff method in
    let allowed = authorized_debug_request_iff authorization cfg in
    elim (Bool-cases (any (str_eq method) ("POST" ∷ []))) [
      | inr other ↦
          rw (other, handle_cache_clear, debug_handler)
            (inl (λ e. cc (other, post.1 e), refl, refl))
      | inl is_post ↦ elim (Bool-cases (authorized_debug_request authorization cfg)) [
        | inr out ↦
            rw (is_post, out, handle_cache_clear, debug_handler)
              (inr (inl (post.0 is_post, λ a. cc (out, allowed.1 a), refl, refl)))
        | inl in_ ↦
            rw (is_post, in_, handle_cache_clear, debug_handler)
              (elim (serve_clear-IsCleared failed answer c) [
                | inl (code, cleared, done) ↦
                    inr (inr (inr (post.0 is_post, allowed.0 in_, done, code, cleared)))
                | inr (same, code, e) ↦
                    inr (inr (inl (post.0 is_post, allowed.0 in_, e, code, same)))
              ])
      ]
    ]
