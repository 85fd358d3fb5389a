-- ===== src/Mapping/Source.antt =====
-- The requests for the mapping (internal/mapping/anibridge.go from `Metadata` to `doMappingRequest`) with
-- their checks on the answer. Text of a header is a String, bytes are numbers. What crypto, encoding
-- and strings compute is an argument.
pub mod Laws
use sonarr_anime_bridge.Prelude.{
  ℕ, ◌*◌, ◌^◌, ◌==◌, ltb, Bool, true, false, not, if◌then◌else◌, List, [], length, Option, none,
  some, ℤ, String, str_eq,
}
use sonarr_anime_bridge.Show.{equal_fold}
use sonarr_anime_bridge.Mapping.Url.{Setting, UrlError, validate_remote_url}

pub record Metadata : Type 0 where
  pub etag : String
  pub last_modified : String
  pub md5 : String
  pub fetched_at : ℕ
  pub url : String
  pub mal_keys : List ℤ
  pub anilist_keys : List ℤ

abbrev pub zero_metadata : Metadata
zero_metadata = record {
  etag = "";
  last_modified = "";
  md5 = "";
  fetched_at = 0;
  url = "";
  mal_keys = [];
  anilist_keys = [];
}

-- `md5.Sum`, `sha256.Sum256`, `hex.EncodeToString`, `base64.StdEncoding.DecodeString`, the folding of
-- `strings.EqualFold`, and `strings.TrimSpace`.
pub record Codecs : Type 0 where
  pub md5_sum : List ℕ → List ℕ
  pub sha256_sum : List ℕ → List ℕ
  pub to_hex : List ℕ → String
  pub from_base64 : String → Option (List ℕ)
  pub fold : ℕ → ℕ
  pub trim_space : String → String

-- What a server answers: its status, the headers that are read, and the body up to its end or a fault.
pub record Response : Type 0 where
  pub status : ℕ
  pub etag_header : String
  pub last_modified_header : String
  pub md5_header : String
  pub body : List ℕ
  pub breaks_off : Bool

pub data RequestError : Type 0 where
  bad_url : UrlError → RequestError
  not_sent bad_status bad_body too_large bad_checksum checksum_mismatch : RequestError

pub data Requested {ℓ} (A : Type ℓ) : Type ℓ where
  got : A → Requested A
  error : RequestError → Requested A

unfoldable pub metadata_of : String → ℕ → Response → Metadata
metadata_of url now r = record {
  etag = r.etag_header;
  last_modified = r.last_modified_header;
  md5 = "";
  fetched_at = now;
  url = url;
  mal_keys = [];
  anilist_keys = [];
}

-- `none` is an error of `client.Do`.
unfoldable pub send : String → ℕ → Option Response → Requested (Response × Metadata)
unfolding metadata_of
send url now none = error not_sent
send url now (some r) = if r.status == 200 then got (r, metadata_of url now r) else error bad_status

unfoldable pub do_mapping_request :
    Setting → String → ℕ → Option Response → Requested (Response × Metadata)
unfolding send
do_mapping_request env url now answer = elim (validate_remote_url env url) [
  | some e ↦ error (bad_url e)
  | none ↦ send url now answer
]

-- The checksum that a HEAD announces; an unreadable one is ignored.
unfoldable pub announced_md5 : Codecs → String → String
announced_md5 codecs raw =
    if str_eq raw ""
    then ""
    else elim (codecs.from_base64 raw) [ none ↦ "" | some sum ↦ codecs.to_hex sum ]

abbrev pub head_metadata : Codecs → Requested (Response × Metadata) → Requested Metadata
head_metadata codecs (got (r, meta)) = got (record meta { md5 = announced_md5 codecs r.md5_header })
head_metadata codecs (error e) = error e

unfoldable pub head : Codecs → Setting → String → ℕ → Option Response → Requested Metadata
unfolding do_mapping_request announced_md5
head codecs env url now answer = head_metadata codecs (do_mapping_request env url now answer)

abbrev pub max_compressed_mapping_bytes : ℕ
max_compressed_mapping_bytes = 50 * 2 ^ 20

-- The check of the body against the header of its checksum.
unfoldable pub check_md5 : Codecs → String → List ℕ → Metadata → Requested (List ℕ × Metadata)
check_md5 codecs expected data_ meta =
    if str_eq expected "" then got (data_, meta) else elim (codecs.from_base64 expected) [
      | none ↦ error bad_checksum
      | some raw ↦
          let sum = codecs.to_hex (codecs.md5_sum data_) in
          if equal_fold codecs.fold sum (codecs.to_hex raw)
          then got (data_, record meta { md5 = sum })
          else error checksum_mismatch
    ]

unfoldable pub read_body : Codecs → Requested (Response × Metadata) → Requested (List ℕ × Metadata)
unfolding check_md5
read_body codecs (error e) = error e
read_body codecs (got (r, meta)) =
    if r.breaks_off
    then error bad_body
    else if ltb max_compressed_mapping_bytes (length r.body)
    then error too_large
    else check_md5 codecs r.md5_header r.body meta

unfoldable pub fetch :
    Codecs → Setting → String → ℕ → Option Response → Requested (List ℕ × Metadata)
unfolding do_mapping_request read_body
fetch codecs env url now answer = read_body codecs (do_mapping_request env url now answer)
