-- ===== src/Mapping/Loader.antt =====
-- The loader of the mapping (internal/mapping/loader.go, and `saveKeySnapshot` of anibridge.go). A mapping file
-- is its bytes; what the disk and the network answer in turn, and whether the context has ended at each
-- check, are arguments. A gate lets one load run at a time.
pub mod Load
pub mod Laws
pub mod Outcome
use sonarr_anime_bridge.Prelude.{
  ℕ, Bool, true, false, not, ◌&&◌, ◌||◌, if◌then◌else◌, List, Option, none, some, String, str_eq,
  codes_eq,
}
use sonarr_anime_bridge.Mapping.{AnibridgeMapping, mapping_keys}
use sonarr_anime_bridge.Mapping.Url.{Setting, UrlError, validate_remote_url, default_anibridge_url}
use sonarr_anime_bridge.Mapping.Source.{
  Metadata, zero_metadata, Codecs, Response, RequestError, Requested, got, error, head, fetch,
}

pub data Disposition : Type 0 where
  loaded reused fallback : Disposition

pub record LoadResult : Type 0 where
  pub mapping : AnibridgeMapping
  pub metadata : Metadata
  pub disposition : Disposition

pub record ParsedSource : Type 0 where
  pub path : String
  pub url : String
  pub digest : List ℕ
  pub mapping : AnibridgeMapping
  pub metadata : Metadata

pub record SelectedSource : Type 0 where
  pub result : LoadResult
  pub digest : List ℕ

pub record Loader : Type 0 where
  pub state : Option ParsedSource

-- `parseAnibridge` on the bytes of a file.
abbrev pub Parse : Type 0
Parse = List ℕ → Option AnibridgeMapping

abbrev pub is_same : ParsedSource → String → String → List ℕ → Bool
is_same s path url digest = str_eq s.path path && (str_eq s.url url && codes_eq s.digest digest)

-- The parsed source, if it is this one.
unfoldable pub matching : Option ParsedSource → String → String → List ℕ → Option ParsedSource
matching none path url digest = none
matching (some s) path url digest = if is_same s path url digest then some s else none

-- What `local` reads: the file's bytes while it is hashed, and again while it is parsed; `none` is an
-- error.
pub record FileReads : Type 0 where
  pub inspected : Option (List ℕ)
  pub parsed : Option (List ℕ)

abbrev pub unless_fallback : Disposition → Disposition
unless_fallback fallback = fallback
unless_fallback loaded = reused
unless_fallback reused = reused

abbrev pub select : AnibridgeMapping → Metadata → Disposition → List ℕ → SelectedSource
select m meta disposition digest = record {
  result = record { mapping = m; metadata = meta; disposition = disposition };
  digest = digest;
}

-- The second reading has to have the digest of the first.
unfoldable pub parse_again :
    Codecs → Parse → Metadata → Disposition → List ℕ → Option (List ℕ) → Option SelectedSource
parse_again codecs parse meta disposition digest none = none
parse_again codecs parse meta disposition digest (some bytes) = elim (parse bytes) [
  | none ↦ none
  | some m ↦
      if codes_eq digest (codecs.sha256_sum bytes)
      then some (select m meta disposition digest)
      else none
]

unfoldable pub local_from :
    Codecs
    → Parse
    → Loader
    → String
    → String
    → Metadata
    → Disposition
    → List ℕ
    → Option (List ℕ)
    → Option SelectedSource
unfolding matching parse_again
local_from codecs parse l path url meta disposition digest again =
    elim (matching l.state path url digest) [
      | some s ↦ some (select s.mapping meta (unless_fallback disposition) digest)
      | none ↦ parse_again codecs parse meta disposition digest again
    ]

-- `none` is an error.
unfoldable pub local :
    Codecs
    → Parse
    → Loader
    → String
    → String
    → Metadata
    → Disposition
    → FileReads
    → Option SelectedSource
unfolding local_from
local codecs parse l path url meta disposition reads = elim reads.inspected [
  | none ↦ none
  | some bytes ↦
      local_from codecs parse l path url meta disposition (codecs.sha256_sum bytes) reads.parsed
]

pub data LoadError : Type 0 where
  context_done cache_unreadable cannot_write cannot_parse bad_path : LoadError
  bad_url : UrlError → LoadError
  not_downloaded : RequestError → LoadError

pub data Loaded {ℓ} (A : Type ℓ) : Type ℓ where
  ok : A → Loaded A
  err : LoadError → Loaded A

-- What the outside answers during one load: the sidecar (`zero_metadata` if it is missing or unreadable),
-- whether the file is there, the HEAD and the GET at a time, the readings of the file, and whether the
-- context has ended: at the start, before the download, after it failed, after it, after the file was hashed,
-- before the data are parsed, when they could not be, after that, and at the end.
pub record Answers : Type 0 where
  pub sidecar : Metadata
  pub have_cache : Bool
  pub now : ℕ
  pub head_answer : Option Response
  pub etag_reads : FileReads
  pub get_answer : Option Response
  pub fallback_reads : FileReads
  pub hashed : Option (List ℕ)
  pub md5_reads : FileReads
  pub written : Bool
  pub ends_at_start : Bool
  pub ends_before_fetch : Bool
  pub ends_in_fetch : Bool
  pub ends_after_fetch : Bool
  pub ends_after_hash : Bool
  pub ends_before_parse : Bool
  pub ends_in_parse : Bool
  pub ends_after_parse : Bool
  pub ends_at_last : Bool

-- What a load leaves on disk: the bytes of the mapping file, and the sidecar, where it writes them.
pub record Writes : Type 0 where
  pub file : Option (List ℕ)
  pub saved : Option Metadata

abbrev pub nothing : Writes
nothing = record { file = none; saved = none }

-- `saveKeySnapshot`: the metadata with the keys of the mapping, which are written to the sidecar.
unfoldable pub save_key_snapshot : AnibridgeMapping → Metadata → Metadata
save_key_snapshot m meta = record meta {
  mal_keys = (mapping_keys m).0;
  anilist_keys = (mapping_keys m).1;
}

-- Whether the state was loaded from another URL for the same path.
abbrev pub other_url : Option ParsedSource → String → String → Bool
other_url none path url = false
other_url (some s) path url = str_eq s.path path && not (str_eq s.url url)

unfoldable pub url_changed : Loader → String → String → Bool → Metadata → Bool
url_changed l path url have_cache meta =
    have_cache
    && ((not (str_eq meta.url "") && not (str_eq meta.url url)) || other_url l.state path url)

abbrev pub or_fail : LoadError → Option SelectedSource → Loaded SelectedSource
or_fail e none = err e
or_fail e (some source) = ok source
