-- ===== src/Mapping/Loader/Load.antt =====
-- The steps of one load (internal/mapping/loader.go, `load` and `Load`).
use sonarr_anime_bridge.Prelude.{
  ℕ, Bool, false, not, ◌&&◌, if◌then◌else◌, List, Option, none, some, String, str_eq, codes_eq,
}
use sonarr_anime_bridge.Mapping.{AnibridgeMapping}
use sonarr_anime_bridge.Mapping.Url.{Setting, validate_remote_url, default_anibridge_url}
use sonarr_anime_bridge.Mapping.Source.{
  Metadata, zero_metadata, Codecs, RequestError, Requested, got, error, head, fetch,
}
use sonarr_anime_bridge.Mapping.Loader.{
  Loaded, Disposition, LoadResult, ParsedSource, SelectedSource, Loader, Parse, matching, FileReads,
  select, local, Answers, Writes, nothing, save_key_snapshot, url_changed, or_fail, loaded, reused,
  fallback, context_done, cache_unreadable, cannot_write, cannot_parse, bad_path, bad_url,
  not_downloaded, ok, err,
}

-- What one load works with.
pub record Task : Type 0 where
  pub env : Setting
  pub codecs : Codecs
  pub parse : Parse
  pub loader : Loader
  pub path : String
  pub url : String

abbrev pub local_of : Task → Metadata → Disposition → FileReads → Option SelectedSource
local_of t meta disposition reads =
    local t.codecs t.parse t.loader t.path t.url meta disposition reads

abbrev pub same_etag : Codecs → Requested Metadata → Metadata → Bool
same_etag codecs (error e) meta = false
same_etag codecs (got upstream) meta =
    str_eq (codecs.trim_space upstream.etag) (codecs.trim_space meta.etag)

-- The file, if the upstream still has its ETag.
unfoldable pub etag_hit : Task → Answers → Bool → Metadata → Option SelectedSource
unfolding local head
etag_hit t a can_use_cache meta =
    if can_use_cache
      && (not (str_eq meta.etag "")
          && same_etag t.codecs (head t.codecs t.env t.url a.now a.head_answer) meta)
    then local_of t meta loaded a.etag_reads
    else none

unfoldable pub without_download :
    Task → Answers → Bool → Metadata → RequestError → Loaded SelectedSource
unfolding local
without_download t a can_use_cache meta e =
    if a.ends_in_fetch
    then err context_done
    else if can_use_cache
    then or_fail cache_unreadable (local_of t meta fallback a.fallback_reads)
    else err (not_downloaded e)

abbrev pub is_digest : List ℕ → Option (List ℕ) → Bool
is_digest digest none = false
is_digest digest (some other) = codes_eq other digest

-- The bytes of the parsed source were downloaded again: the file is repaired if it is not these.
unfoldable pub reuse :
    Task → Answers → List ℕ → List ℕ → Metadata → ParsedSource → Loaded SelectedSource × Writes
unfolding save_key_snapshot
reuse t a data_ digest new_meta s =
    let meta = save_key_snapshot s.mapping new_meta in
    let source = select s.mapping meta reused digest in
    if a.ends_after_hash
    then (err context_done, nothing)
    else if is_digest digest a.hashed
    then (ok source, record { file = none; saved = some meta })
    else if a.written
    then (ok source, record { file = some data_; saved = some meta })
    else (err cannot_write, nothing)

-- The file, if its recorded checksum is that of the download.
unfoldable pub md5_hit : Task → Answers → Bool → Metadata → Metadata → Option SelectedSource
unfolding local
md5_hit t a can_use_cache meta new_meta =
    if can_use_cache && (not (str_eq meta.md5 "") && str_eq meta.md5 new_meta.md5)
    then local_of t new_meta loaded a.md5_reads
    else none

unfoldable pub with_snapshot : SelectedSource → SelectedSource
unfolding save_key_snapshot
with_snapshot source =
    let r = source.result in
    record source { result = record r { metadata = save_key_snapshot r.mapping r.metadata } }

-- The download does not parse.
unfoldable pub without_parse : Task → Answers → Bool → Metadata → Loaded SelectedSource
unfolding local
without_parse t a can_use_cache meta =
    if a.ends_in_parse
    then err context_done
    else if can_use_cache
    then or_fail cannot_parse (local_of t meta fallback a.fallback_reads)
    else err cannot_parse

unfoldable pub store_parsed :
    Answers → List ℕ → List ℕ → Metadata → AnibridgeMapping → Loaded SelectedSource × Writes
unfolding save_key_snapshot
store_parsed a data_ digest new_meta m =
    let meta = save_key_snapshot m new_meta in
    if a.ends_after_parse
    then (err context_done, nothing)
    else if a.written
    then (ok (select m meta loaded digest), record { file = some data_; saved = some meta })
    else (err cannot_write, nothing)

unfoldable pub parse_download :
    Task → Answers → Bool → Metadata → List ℕ → List ℕ → Metadata → Loaded SelectedSource × Writes
parse_download t a can_use_cache meta data_ digest new_meta =
    if a.ends_before_parse then (err context_done, nothing) else elim (t.parse data_) [
      | none ↦ (without_parse t a can_use_cache meta, nothing)
      | some m ↦ store_parsed a data_ digest new_meta m
    ]

unfoldable pub use_download :
    Task → Answers → Bool → Metadata → List ℕ → List ℕ → Metadata → Loaded SelectedSource × Writes
use_download t a can_use_cache meta data_ digest new_meta =
    elim (matching t.loader.state t.path t.url digest) [
      | some s ↦ reuse t a data_ digest new_meta s
      | none ↦ elim (md5_hit t a can_use_cache meta new_meta) [
        | some source ↦ (
          ok (with_snapshot source),
          record { file = none; saved = some (with_snapshot source).result.metadata },
        )
        | none ↦ parse_download t a can_use_cache meta data_ digest new_meta
      ]
    ]

unfoldable pub after_fetch :
    Task
    → Answers
    → Bool
    → Metadata
    → Requested (List ℕ × Metadata)
    → Loaded SelectedSource × Writes
after_fetch t a can_use_cache meta (error e) = (without_download t a can_use_cache meta e, nothing)
after_fetch t a can_use_cache meta (got (data_, new_meta)) =
    if a.ends_after_fetch
    then (err context_done, nothing)
    else use_download t a can_use_cache meta data_ (t.codecs.sha256_sum data_) new_meta

-- The method `load`.
unfoldable pub load_source : Task → Answers → Loaded SelectedSource × Writes
load_source t a =
    let changed = url_changed t.loader t.path t.url a.have_cache a.sidecar in
    let meta = if changed then zero_metadata else a.sidecar in
    let can_use_cache = a.have_cache && not changed in
    elim (etag_hit t a can_use_cache meta) [
      | some source ↦ (ok source, nothing)
      | none ↦
          if a.ends_before_fetch
          then (err context_done, nothing)
          else after_fetch t a can_use_cache meta (fetch t.codecs t.env t.url a.now a.get_answer)
    ]

abbrev pub parsed_source : Task → SelectedSource → ParsedSource
parsed_source t source = record {
  path = t.path;
  url = t.url;
  digest = source.digest;
  mapping = source.result.mapping;
  metadata = source.result.metadata;
}

-- The end of the method `Load`: only a load that succeeds changes the state.
unfoldable pub finish_load :
    Task → Answers → Loaded SelectedSource × Writes → Loader × Loaded LoadResult × Writes
finish_load t a (err e, w) = (t.loader, err e, w)
finish_load t a (ok source, w) =
    if a.ends_at_last
    then (t.loader, err context_done, w)
    else (record { state = some (parsed_source t source) }, ok source.result, w)

abbrev pub or_default : String → String → String
or_default def s = if str_eq s "" then def else s

abbrev pub default_anibridge_mapping_path : String
default_anibridge_mapping_path = "/data/anibridge_mappings.json.zst"

-- The checks of `Load`; `datapath.Validate` is the first argument.
unfoldable pub load :
    (String → Option String) → Task → Answers → Loader × Loaded LoadResult × Writes
load validate t a =
    let url = or_default default_anibridge_url t.url in
    if a.ends_at_start
    then (t.loader, err context_done, nothing)
    else elim (validate (or_default default_anibridge_mapping_path t.path)) [
      | none ↦ (t.loader, err bad_path, nothing)
      | some path ↦ elim (validate_remote_url t.env url) [
        | some e ↦ (t.loader, err (bad_url e), nothing)
        | none ↦
            let task = record t { path = path; url = url } in
            finish_load task a (load_source task a)
      ]
    ]
