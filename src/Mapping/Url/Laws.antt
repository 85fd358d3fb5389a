-- ===== src/Mapping/Url/Laws.antt =====
-- Requests for the mapping go out to allowed hosts and public addresses, or to the loopback of a test.
use mathlib.Core.Path.{subst}
use sonarr_anime_bridge.Prelude.{
  ◌≡◌, refl, ◌≢◌, ◌↔◌, ◌⊎◌, inl, inr, Bool, true, false, not, if◌then◌else◌, List, [], ◌∷◌, Option,
  none, some, String, str_eq, str_eq_iff, arith, All, All-map, Option-cases, Bool-cases, ◌∙◌, sym,
  is_some, some_lem,
}
use sonarr_anime_bridge.Mapping.Url.{
  Url, Setting, allowed_host, insecure_loopback_allowed, check_url, validate_remote_url,
  default_anibridge_url, is_accepted, validate_mapping_url, Ip, is_public_ip, check_ips, round_trip,
}

http_ne_https : ◌≢◌ {A = String} "http" "https"
http_ne_https = ground (arith, str_eq_iff "http" "https")

-- A URL over https at an allowed host, or one over http at a loopback host with the opt-in.
abbrev pub IsTrusted : Setting → Url → Type 0
IsTrusted env u =
    ((u.scheme ≡ "https") × (allowed_host env u.hostname ≡ true))
    ⊎ (insecure_loopback_allowed env u ≡ true)

abbrev pub github : Url
github = record { scheme = "https"; hostname = "github.com" }

insecure-http :
    (env : Setting) (u : Url)
    → insecure_loopback_allowed env u ≡ true
    → str_eq u.scheme "https" ≡ false
unfolding insecure_loopback_allowed
insecure-http env u h = elim (Bool-cases (str_eq u.scheme "http")) [
  | inl p ↦ elim (Bool-cases (str_eq u.scheme "https")) [
    | inl q ↦ absurd (http_ne_https (sym ((str_eq_iff _ _).0 p) ∙ (str_eq_iff _ _).0 q))
    | inr q ↦ q
  ]
  | inr p ↦ cc (rw (p, insecure_loopback_allowed) at h)
]

-- The test of the configuration is the test of the loader.
accepted-check_url : (env : Setting) (u : Url) → is_accepted env u ≡ not (is_some (check_url env u))
unfolding is_accepted check_url
accepted-check_url env u = ground (arith, insecure-http env u)

validate_remote_url-cases :
    (env : Setting) (raw : String)
    → validate_mapping_url env raw
      ≡ (if is_some (validate_remote_url env raw) then default_anibridge_url else raw)
unfolding validate_mapping_url validate_remote_url
validate_remote_url-cases env raw = elim (Option-cases (env.parse raw)) [
  | inl e ↦ rw (e, validate_mapping_url, validate_remote_url) refl
  | inr (u, e) ↦ ground (arith, e, accepted-check_url env u)
]

url_of : (u : Url) → u.scheme ≡ "https" → u.hostname ≡ "github.com" → u ≡ github
url_of u s h = cc

allowed_host-github :
    (env : Setting)
    → env.to_lower "github.com" ≡ "github.com"
    → allowed_host env "github.com" ≡ true
unfolding allowed_host
allowed_host-github env l = rw l refl

github-check_url :
    (env : Setting) → env.to_lower "github.com" ≡ "github.com" → check_url env github ≡ none
unfolding check_url
github-check_url env l = ground (arith, str_eq_iff "github.com" "", allowed_host-github env l)

default-check_url :
    (env : Setting) (u : Url)
    → env.parse default_anibridge_url ≡ some u
    → u ≡ github
    → env.to_lower "github.com" ≡ "github.com"
    → validate_remote_url env default_anibridge_url ≡ none
unfolding validate_remote_url
default-check_url env u p e l = rw (p, validate_remote_url, e) (github-check_url env l)

-- What the configuration takes for the URL of the mapping, the loader accepts: it keeps a configured URL
-- exactly if the loader accepts it, and else takes the default, if that parses as a URL at github.com.
pub validate_mapping_url-validate_remote_url :
    (env : Setting) (raw : String) (u : Url)
    → env.parse default_anibridge_url ≡ some u
    → u.scheme ≡ "https"
    → u.hostname ≡ "github.com"
    → env.to_lower "github.com" ≡ "github.com"
    → (validate_mapping_url env raw
        ≡ (if is_some (validate_remote_url env raw) then default_anibridge_url else raw))
      × (validate_remote_url env (validate_mapping_url env raw) ≡ none)
validate_mapping_url-validate_remote_url env raw u p s h l =
    let whole = default-check_url env u p (url_of u s h) l in
    (
      validate_remote_url-cases env raw,
      elim (Option-cases (validate_remote_url env raw)) [
        | inl e ↦ rw (validate_remote_url-cases env raw, e) e
        | inr (x, e) ↦ rw (validate_remote_url-cases env raw, e) whole
      ],
    )

-- An address of none of the kinds that stand for a machine or a network of its own.
pub record IsPublic (ip : Ip) : Type 0 where
  pub not_loopback : ip.is_loopback ≡ false
  pub not_private : ip.is_private ≡ false
  pub not_link_local_unicast : ip.is_link_local_unicast ≡ false
  pub not_link_local_multicast : ip.is_link_local_multicast ≡ false
  pub specified : ip.is_unspecified ≡ false

-- A URL over plain http to a loopback host, where the process is run with the opt-in.
pub record IsOptedIn (env : Setting) (u : Url) : Type 0 where
  pub over_http : u.scheme ≡ "http"
  pub opt_in : env.allow_insecure ≡ "1"
  pub host :
      (env.to_lower u.hostname ≡ "127.0.0.1")
      ⊎ ((env.to_lower u.hostname ≡ "localhost") ⊎ (env.to_lower u.hostname ≡ "::1"))

abbrev pub IsReachable : Setting → Url → Ip → Type 0
IsReachable env u ip = IsPublic ip ⊎ ((ip.is_loopback ≡ true) × IsOptedIn env u)

is_public_ip_iff : (ip : Ip) → (is_public_ip ip ≡ true) ↔ IsPublic ip
unfolding is_public_ip
is_public_ip_iff ip = (λ h. ground arith, λ h. ground arith)

insecure_loopback_allowed_iff :
    (env : Setting) (u : Url) → (insecure_loopback_allowed env u ≡ true) ↔ IsOptedIn env u
unfolding insecure_loopback_allowed
insecure_loopback_allowed_iff env u = (
  λ h. record {
    over_http = ground (arith, str_eq_iff u.scheme "http");
    opt_in = ground (arith, str_eq_iff env.allow_insecure "1");
    host = ground (
      arith,
      str_eq_iff (env.to_lower u.hostname) "127.0.0.1",
      str_eq_iff (env.to_lower u.hostname) "localhost",
      str_eq_iff (env.to_lower u.hostname) "::1",
    );
  },
  λ h. ground (
    arith,
    h.host,
    str_eq_iff u.scheme "http",
    str_eq_iff env.allow_insecure "1",
    str_eq_iff (env.to_lower u.hostname) "127.0.0.1",
    str_eq_iff (env.to_lower u.hostname) "localhost",
    str_eq_iff (env.to_lower u.hostname) "::1",
  ),
)

-- What passes the loop, in terms of its own tests.
abbrev Passes : Bool → Ip → Type 0
Passes insecure_ok ip = (is_public_ip ip ≡ true) ⊎ ((ip.is_loopback ≡ true) × (insecure_ok ≡ true))

Passes-iff :
    (env : Setting) (u : Url) (ip : Ip)
    → Passes (insecure_loopback_allowed env u) ip ↔ IsReachable env u ip
Passes-iff env u ip =
    let (public, private) = is_public_ip_iff ip in
    let (to, from) = insecure_loopback_allowed_iff env u in
    (to_reachable public to, from_reachable private from)
  where
    to_reachable :
        (is_public_ip ip ≡ true → IsPublic ip)
        → (insecure_loopback_allowed env u ≡ true → IsOptedIn env u)
        → Passes (insecure_loopback_allowed env u) ip
        → IsReachable env u ip
    to_reachable f g (inl p) = inl (f p)
    to_reachable f g (inr (l, p)) = inr (l, g p)

    from_reachable :
        (IsPublic ip → is_public_ip ip ≡ true)
        → (IsOptedIn env u → insecure_loopback_allowed env u ≡ true)
        → IsReachable env u ip
        → Passes (insecure_loopback_allowed env u) ip
    from_reachable f g (inl p) = inl (f p)
    from_reachable f g (inr (l, p)) = inr (l, g p)

check_ips-All :
    (insecure_ok : Bool) (ips : List Ip)
    → check_ips insecure_ok ips ≡ none
    → All (Passes insecure_ok) ips
unfolding check_ips
check_ips-All insecure_ok [] h = tt
check_ips-All insecure_ok (ip ∷ ips) h = elim (Bool-cases (is_public_ip ip)) [
  | inl p ↦ (inl p, check_ips-All insecure_ok ips (ground arith))
  | inr p ↦ (inr (ground arith, ground arith), check_ips-All insecure_ok ips (ground arith))
]

All-check_ips :
    (insecure_ok : Bool) (ips : List Ip)
    → All (Passes insecure_ok) ips
    → check_ips insecure_ok ips ≡ none
unfolding check_ips is_public_ip
All-check_ips insecure_ok [] h = refl
All-check_ips insecure_ok (ip ∷ ips) (inl p, h) = ground (arith, All-check_ips insecure_ok ips h)
All-check_ips insecure_ok (ip ∷ ips) (inr p, h) = ground (arith, All-check_ips insecure_ok ips h)

abbrev pub ips_of : Option Ip → Option (List Ip) → Option (List Ip)
ips_of (some ip) answer = some (ip ∷ [])
ips_of none answer = answer

check_ips_iff :
    (env : Setting) (u : Url) (ips : List Ip)
    → (check_ips (insecure_loopback_allowed env u) ips ≡ none) ↔ All (IsReachable env u) ips
check_ips_iff env u ips = (
  λ h. All-map (λ ip p. (Passes-iff env u ip).0 p) ips (check_ips-All _ ips h),
  λ h. All-check_ips _ ips (All-map (λ ip p. (Passes-iff env u ip).1 p) ips h),
)

-- A request for the mapping goes out exactly if the addresses of its host are known, and each of them is
-- neither loopback nor private nor link-local nor unspecified, or else is a loopback one while the URL is
-- plain http to a loopback host and the opt-in is set to 1.
pub round_trip_iff :
    (env : Setting) (u : Url) (literal : Option Ip) (answer : Option (List Ip))
    → (round_trip env u literal answer ≡ none)
      ↔ ((ips : List Ip) × (ips_of literal answer ≡ some ips) × All (IsReachable env u) ips)
unfolding round_trip
round_trip_iff env u (some ip) answer =
    let (to, from) = check_ips_iff env u (ip ∷ []) in
    (
      λ h. (ip ∷ [], refl, to h),
      λ (ips, e, h). from (subst (All (IsReachable env u)) (sym (some_lem e)) h),
    )
round_trip_iff env u none none = (λ h. cc h, λ (ips, e, h). cc e)
round_trip_iff env u none (some ips) =
    let (to, from) = check_ips_iff env u ips in
    (
      λ h. (ips, refl, to h),
      λ (js, e, h). from (subst (All (IsReachable env u)) (sym (some_lem e)) h),
    )
