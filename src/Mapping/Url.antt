-- ===== src/Mapping/Url.antt =====
-- Which addresses the mapping may come from (internal/mappingurl/allowlist.go; `validateRemoteURL`,
-- `isPublicIP` and `mappingTransport` of internal/mapping/anibridge.go; `validateMappingURL` of
-- internal/config/config.go). `url.Parse` and `strings.ToLower` are arguments, and so are the value of
-- ALLOW_INSECURE_MAPPING_URL and the addresses that a name resolves to.
pub mod Laws
use sonarr_anime_bridge.Prelude.{
  Bool, true, false, not, ◌&&◌, ◌||◌, if◌then◌else◌, List, [], ◌∷◌, any, Option, none, some, String,
  str_eq,
}

-- A parsed URL: its `Scheme` and its `Hostname()`.
pub record Url : Type 0 where
  pub scheme : String
  pub hostname : String

-- What the process is run with.
pub record Setting : Type 0 where
  pub parse : String → Option Url
  pub to_lower : String → String
  pub allow_insecure : String

abbrev pub is_one_of : String → List String → Bool
is_one_of s options = any (str_eq s) options

abbrev pub allowed_hosts : List String
allowed_hosts =
    "github.com" ∷ "objects.githubusercontent.com" ∷ "release-assets.githubusercontent.com" ∷ []

unfoldable pub allowed_host : Setting → String → Bool
allowed_host env host = is_one_of (env.to_lower host) allowed_hosts

abbrev pub loopback_hosts : List String
loopback_hosts = "127.0.0.1" ∷ "localhost" ∷ "::1" ∷ []

unfoldable pub insecure_loopback_allowed : Setting → Url → Bool
insecure_loopback_allowed env u =
    if not (str_eq u.scheme "http") || not (str_eq env.allow_insecure "1")
    then false
    else is_one_of (env.to_lower u.hostname) loopback_hosts

pub data UrlError : Type 0 where
  unparsable no_host not_https host_not_allowed : UrlError

unfoldable pub check_url : Setting → Url → Option UrlError
check_url env u =
    let insecure_ok = insecure_loopback_allowed env u in
    if str_eq u.hostname ""
    then some no_host
    else if not (str_eq u.scheme "https") && not insecure_ok
    then some not_https
    else if not (allowed_host env u.hostname) && not insecure_ok
    then some host_not_allowed
    else none

unfoldable pub validate_remote_url : Setting → String → Option UrlError
unfolding check_url
validate_remote_url env raw = elim (env.parse raw) [
  | none ↦ some unparsable
  | some u ↦ check_url env u
]

abbrev pub default_anibridge_url : String
default_anibridge_url =
    "https://github.com/anibridge/anibridge-mappings/releases/download/v3/mappings.json.zst"

-- The two tests of `validateMappingURL` on a URL that parses.
unfoldable pub is_accepted : Setting → Url → Bool
is_accepted env u =
    not (str_eq u.hostname "")
    && ((str_eq u.scheme "https" || insecure_loopback_allowed env u)
        && not (str_eq u.scheme "https" && not (allowed_host env u.hostname)))

unfoldable pub validate_mapping_url : Setting → String → String
unfolding is_accepted
validate_mapping_url env raw = elim (env.parse raw) [
  | none ↦ default_anibridge_url
  | some u ↦ if is_accepted env u then raw else default_anibridge_url
]

-- What `net.IP` says of an address.
pub record Ip : Type 0 where
  pub is_loopback : Bool
  pub is_private : Bool
  pub is_link_local_unicast : Bool
  pub is_link_local_multicast : Bool
  pub is_unspecified : Bool

unfoldable pub is_public_ip : Ip → Bool
is_public_ip ip =
    not ip.is_loopback
    && (not ip.is_private
        && (not ip.is_link_local_unicast
            && (not ip.is_link_local_multicast && not ip.is_unspecified)))

pub data IpError : Type 0 where
  lookup_failed not_public loopback : IpError

-- The loop of `RoundTrip` over the addresses of the host: `none` if the request may go out.
unfoldable pub check_ips : Bool → List Ip → Option IpError
check_ips insecure_ok [] = none
check_ips insecure_ok (ip ∷ ips) =
    if not (is_public_ip ip) && not ip.is_loopback
    then some not_public
    else if ip.is_loopback && not insecure_ok
    then some loopback
    else check_ips insecure_ok ips

-- The addresses are the literal one of the URL, or what the lookup answers.
unfoldable pub round_trip : Setting → Url → Option Ip → Option (List Ip) → Option IpError
unfolding check_ips
round_trip env u (some ip) answer = check_ips (insecure_loopback_allowed env u) (ip ∷ [])
round_trip env u none none = some lookup_failed
round_trip env u none (some ips) = check_ips (insecure_loopback_allowed env u) ips
