-- ===== src/Server/Debug.antt =====
-- The guard of the debug endpoints (cmd/server/main.go, `debugHandler`, `authorizedDebugRequest`).
use Prim.Native.String.{◌++◌ as append}
use sonarr_anime_bridge.Prelude.{
  ℕ, ◌≡◌, ◌↔◌, ◌⊎◌, inl, inr, refl, Bool, true, false, not, if◌then◌else◌, List, any, Option, none,
  some, arith, String, str_eq, str_eq_iff, Bool-cases, ap,
}

-- The part of the configuration that the guard reads.
pub record DebugConfig : Type 0 where
  pub debug_endpoints_enabled : Bool
  pub admin_token : String

-- A nil configuration is `none`; `authorization` is the header, "" without one.
unfoldable pub authorized_debug_request : String → Option DebugConfig → Bool
authorized_debug_request authorization none = false
authorized_debug_request authorization (some cfg) =
    if not cfg.debug_endpoints_enabled
    then false
    else if str_eq cfg.admin_token ""
    then true
    else str_eq authorization (append "Bearer " cfg.admin_token)

-- What the guard does: its own response, or the handler behind it.
pub data Guarded {ℓ} (A : Type ℓ) : Type ℓ where
  replies : ℕ → Guarded A
  passes_to : A → Guarded A

-- `allow` is the list of methods, split at the commas.
unfoldable pub debug_handler {ℓ} :
    {A : Type ℓ} → Option DebugConfig → List String → A → String → String → Guarded A
unfolding authorized_debug_request
debug_handler cfg allow next method authorization =
    if not (any (str_eq method) allow)
    then replies 405
    else if not (authorized_debug_request authorization cfg)
    then replies 404
    else passes_to next

-- What lets a request in.
pub record IsAllowed (cfg : Option DebugConfig) (authorization : String) : Type 0 where
  pub config : DebugConfig
  pub configured : cfg ≡ some config
  pub enabled : config.debug_endpoints_enabled ≡ true
  pub token : (config.admin_token ≡ "") ⊎ (authorization ≡ append "Bearer " config.admin_token)

pub authorized_debug_request_iff :
    (authorization : String) (cfg : Option DebugConfig)
    → (authorized_debug_request authorization cfg ≡ true) ↔ IsAllowed cfg authorization
unfolding authorized_debug_request
authorized_debug_request_iff authorization none = (λ h. cc, λ h. cc (h.configured))
authorized_debug_request_iff authorization (some cfg) = (to, from)
  where
    token :
        authorized_debug_request authorization (some cfg) ≡ true
        → (cfg.admin_token ≡ "") ⊎ (authorization ≡ append "Bearer " cfg.admin_token)
    token h = ground (
      arith,
      str_eq_iff cfg.admin_token "",
      str_eq_iff authorization (append "Bearer " cfg.admin_token),
    )

    to :
        authorized_debug_request authorization (some cfg) ≡ true
        → IsAllowed (some cfg) authorization
    to h = record { config = cfg; configured = refl; enabled = ground arith; token = token h }

    from :
        IsAllowed (some cfg) authorization
        → authorized_debug_request authorization (some cfg) ≡ true
    from a =
        let same : cfg ≡ a.config = cc in
        let same_token = ap (λ c. c.admin_token) same in
        ground (
          arith,
          ap (λ c. c.debug_endpoints_enabled) same,
          same_token,
          ap (append "Bearer ") same_token,
          str_eq_iff cfg.admin_token "",
          str_eq_iff authorization (append "Bearer " cfg.admin_token),
        )

-- A debug endpoint is served exactly to requests with an allowed method, where debug endpoints are enabled and
-- either no token is set or the request bears it. Any other request gets 405 or 404.
pub debug_handler-IsAllowed {ℓ} :
    {A : Type ℓ} (cfg : Option DebugConfig) (allow : List String) (next : A)
    (method authorization : String)
    → ((debug_handler cfg allow next method authorization ≡ passes_to next)
        ↔ ((any (str_eq method) allow ≡ true) × IsAllowed cfg authorization))
      × ((debug_handler cfg allow next method authorization ≡ passes_to next)
          ⊎ ((debug_handler cfg allow next method authorization ≡ replies 405)
              ⊎ (debug_handler cfg allow next method authorization ≡ replies 404)))
unfolding debug_handler
debug_handler-IsAllowed cfg allow next method authorization =
    let allowed = authorized_debug_request_iff authorization cfg in
    elim (Bool-cases (any (str_eq method) allow)) [
      | inr refused ↦ rw refused ((λ h. cc h, λ h. cc (h.0)), inr (inl refl))
      | inl fine ↦ elim (Bool-cases (authorized_debug_request authorization cfg)) [
        | inl in_ ↦ rw (fine, in_) ((λ h. (refl, allowed.0 in_), λ h. refl), inl refl)
        | inr out ↦ rw (fine, out) ((λ h. cc h, λ h. cc (out, allowed.1 (h.1))), inr (inr refl))
      ]
    ]
