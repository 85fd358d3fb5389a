-- ===== src/Mapping/Loader/Outcome.antt =====
-- What a load returns and keeps, on every path (internal/mapping/loader.go, `load` and `Load`).
use sonarr_anime_bridge.Prelude.{
  ℕ, Bool, true, false, not, ◌&&◌, if◌then◌else◌, List, Option, none, some, String, ◌≡◌, ◌⊎◌, inl,
  inr, refl, sym, Option-cases, Bool-cases,
}
use sonarr_anime_bridge.Mapping.{AnibridgeMapping}
use sonarr_anime_bridge.Mapping.Url.{validate_remote_url, default_anibridge_url}
use sonarr_anime_bridge.Mapping.Source.{
  Metadata, zero_metadata, RequestError, Requested, got, error, fetch,
}
use sonarr_anime_bridge.Mapping.Loader.{
  Loaded, LoadResult, ParsedSource, SelectedSource, Loader, matching, select, LoadError, Answers,
  Writes, save_key_snapshot, url_changed, or_fail, loaded, reused, fallback, cache_unreadable,
  cannot_parse, ok, err,
}
use sonarr_anime_bridge.Mapping.Loader.Load.{
  Task, is_digest, local_of, etag_hit, without_download, reuse, md5_hit, with_snapshot,
  without_parse, store_parsed, parse_download, use_download, after_fetch, load_source, finish_load,
  load, or_default, default_anibridge_mapping_path,
}
use sonarr_anime_bridge.Mapping.Loader.Laws.{
  IsParsed, IsFaithful, Each, absent, present, Each-map, Each-some, matching-Each, IsGenuine,
  local_of-Each,
}

-- A property of the source that a load ends with, if it succeeds.
pub data Ends {ℓ} (P : SelectedSource → Type ℓ) : Loaded SelectedSource → Type ℓ where
  failed : {e : LoadError} → Ends P (err e)
  selected : {s : SelectedSource} → P s → Ends P (ok s)

Ends-if {ℓ} :
    {P : SelectedSource → Type ℓ} (b : Bool) (x y : Loaded SelectedSource × Writes)
    → Ends P x.0
    → Ends P y.0
    → Ends P (if b then x else y).0
Ends-if true x y hx hy = hx
Ends-if false x y hx hy = hy

Ends-or_fail {ℓ} :
    {P : SelectedSource → Type ℓ} {o : Option SelectedSource} (e : LoadError)
    → Each P o
    → Ends P (or_fail e o)
Ends-or_fail e absent = failed
Ends-or_fail e (present h) = selected h

and_left : (a b : Bool) → (a && b) ≡ true → a ≡ true
and_left true b h = refl
and_left false b h = cc h

Each-if {ℓ} :
    {P : SelectedSource → Type ℓ} {x : Option SelectedSource} (b : Bool)
    → (b ≡ true → Each P x)
    → Each P (if b then x else none)
Each-if true h = h refl
Each-if false h = absent

Ends-if_done {ℓ} :
    {P : SelectedSource → Type ℓ} (b : Bool) (x y : Loaded SelectedSource)
    → (b ≡ true → Ends P x)
    → Ends P y
    → Ends P (if b then x else y)
Ends-if_done true x y hx hy = hx refl
Ends-if_done false x y hx hy = hy

-- The file on disk may be used: it is there, and is not known to be from another URL.
abbrev pub usable : Task → Answers → Bool
usable t a = a.have_cache && not (url_changed t.loader t.path t.url a.have_cache a.sidecar)

-- The bytes that a load has seen: those of the download, or of the file at a time that it was hashed, if
-- that may be used.
abbrev pub IsSeen : Task → Answers → List ℕ → Type 0
IsSeen t a seen =
    ((meta : Metadata) × (fetch t.codecs t.env t.url a.now a.get_answer ≡ got (seen, meta)))
    ⊎ ((usable t a ≡ true)
        × ((a.etag_reads.inspected ≡ some seen)
            ⊎ ((a.md5_reads.inspected ≡ some seen) ⊎ (a.fallback_reads.inspected ≡ some seen))))

module _ (t : Task) (a : Answers) (faithful : IsFaithful t.codecs t.parse t.loader.state) where
  abbrev pub Good : SelectedSource → Type 0
  Good = IsGenuine t (IsSeen t a)

  etag_hit-Each : (meta : Metadata) → Each Good (etag_hit t a (usable t a) meta)
  unfolding etag_hit
  etag_hit-Each meta = Each-if _ λ b.
      (Each-map (local_of-Each t faithful meta loaded a.etag_reads)
        λ s (p, (seen, q, e)). (p, (seen, q, inr (and_left _ _ b, inl e))))

  fallback-Each :
      (meta : Metadata) → usable t a ≡ true → Each Good (local_of t meta fallback a.fallback_reads)
  fallback-Each meta b =
      Each-map (local_of-Each t faithful meta fallback a.fallback_reads)
        λ s (p, (seen, q, e)). (p, (seen, q, inr (b, inr (inr e))))

  md5_hit-Each : (meta new_meta : Metadata) → Each Good (md5_hit t a (usable t a) meta new_meta)
  unfolding md5_hit
  md5_hit-Each meta new_meta = Each-if _ λ b.
      (Each-map (local_of-Each t faithful new_meta loaded a.md5_reads)
        λ s (p, (seen, q, e)). (p, (seen, q, inr (and_left _ _ b, inr (inl e)))))

  without_download-Ends :
      (meta : Metadata) (e : RequestError) → Ends Good (without_download t a (usable t a) meta e)
  unfolding without_download
  without_download-Ends meta e =
      Ends-if_done a.ends_in_fetch _ _ (λ _. failed)
        (Ends-if_done (usable t a) _ _ (λ b. Ends-or_fail cache_unreadable (fallback-Each meta b))
          failed)

  without_parse-Ends : (meta : Metadata) → Ends Good (without_parse t a (usable t a) meta)
  unfolding without_parse
  without_parse-Ends meta =
      Ends-if_done a.ends_in_parse _ _ (λ _. failed)
        (Ends-if_done (usable t a) _ _ (λ b. Ends-or_fail cannot_parse (fallback-Each meta b))
          failed)

  -- The data of the download.
  module _ (data_ : List ℕ) (new_meta : Metadata)
      (fetched : fetch t.codecs t.env t.url a.now a.get_answer ≡ got (data_, new_meta)) where
    abbrev digest : List ℕ
    digest = t.codecs.sha256_sum data_

    downloaded :
        (s : SelectedSource)
        → IsParsed t.codecs t.parse s.result.mapping digest
        → s.digest ≡ digest
        → Good s
    downloaded s p e = (rw e p, (data_, sym e, inl (new_meta, fetched)))

    reuse-Ends :
        (s : ParsedSource)
        → IsParsed t.codecs t.parse s.mapping digest
        → Ends Good (reuse t a data_ digest new_meta s).0
    unfolding reuse
    reuse-Ends s p = Ends-if a.ends_after_hash _ _ failed (
        Ends-if (is_digest digest a.hashed) _ _
          (selected (
            downloaded (select s.mapping (save_key_snapshot s.mapping new_meta) reused digest) p
              refl))
          (Ends-if a.written _ _
            (selected (
              downloaded (select s.mapping (save_key_snapshot s.mapping new_meta) reused digest) p
                refl))
            failed))

    store_parsed-Ends :
        (m : AnibridgeMapping)
        → t.parse data_ ≡ some m
        → Ends Good (store_parsed a data_ digest new_meta m).0
    unfolding store_parsed
    store_parsed-Ends m e = Ends-if a.ends_after_parse _ _ failed (
        Ends-if a.written _ _
          (selected (
            downloaded (select m (save_key_snapshot m new_meta) loaded digest) (data_, e, refl)
              refl))
          failed)

    parse_download-Ends :
        (meta : Metadata) → Ends Good (parse_download t a (usable t a) meta data_ digest new_meta).0
    unfolding parse_download
    parse_download-Ends meta =
        Ends-if a.ends_before_parse _ _ failed (elim (Option-cases (t.parse data_)) [
          | inl e ↦ rw e (without_parse-Ends meta)
          | inr (m, e) ↦ rw e (store_parsed-Ends m e)
        ])

    use_download-Ends :
        (meta : Metadata) → Ends Good (use_download t a (usable t a) meta data_ digest new_meta).0
    unfolding use_download with_snapshot
    use_download-Ends meta = elim (Option-cases (matching t.loader.state t.path t.url digest)) [
      | inr (s, e) ↦
          rw (e, use_download)
            (reuse-Ends s
              (Each-some (rw e at (matching-Each t t.loader.state t.path t.url digest faithful))))
      | inl e ↦ elim (Option-cases (md5_hit t a (usable t a) meta new_meta)) [
        | inl f ↦ rw (e, use_download, f) (parse_download-Ends meta)
        | inr (source, f) ↦
            rw (e, use_download, f) (selected (Each-some (rw f at (md5_hit-Each meta new_meta))))
      ]
    ]

  after_fetch-Ends :
      (meta : Metadata) (r : Requested (List ℕ × Metadata))
      → fetch t.codecs t.env t.url a.now a.get_answer ≡ r
      → Ends Good (after_fetch t a (usable t a) meta r).0
  unfolding after_fetch
  after_fetch-Ends meta (error e) h = without_download-Ends meta e
  after_fetch-Ends meta (got (data_, new_meta)) h =
      Ends-if a.ends_after_fetch _ _ failed (use_download-Ends data_ new_meta h meta)

  pub load_source-Ends : Ends Good (load_source t a).0
  unfolding load_source
  load_source-Ends = elim (Option-cases (etag_hit t a (usable t a) meta)) [
    | inr (source, e) ↦ rw (e, load_source) (selected (Each-some (rw e at (etag_hit-Each meta))))
    | inl e ↦
        rw (e, load_source) (Ends-if a.ends_before_fetch _ _ failed (after_fetch-Ends meta _ refl))
  ]
    where
      changed : Bool
      changed = url_changed t.loader t.path t.url a.have_cache a.sidecar

      meta : Metadata
      meta = if changed then zero_metadata else a.sidecar

-- After an error the loader is as before. After a success it holds the mapping that was returned, under
-- the path and URL of the call; the mapping was parsed from bytes with the recorded digest, which is
-- that of bytes that this call has downloaded or read.
abbrev pub IsKept : (String → Option String) → Task → Answers → Loader → Loaded LoadResult → Type 0
IsKept validate t a l (err e) = l ≡ t.loader
IsKept validate t a l (ok r) =
    (s : ParsedSource) × (l.state ≡ some s)
    × (s.mapping ≡ r.mapping)
    × (s.metadata ≡ r.metadata)
    × (validate (or_default default_anibridge_mapping_path t.path) ≡ some s.path)
    × (s.url ≡ or_default default_anibridge_url t.url)
    × (validate_remote_url t.env s.url ≡ none)
    × IsParsed t.codecs t.parse s.mapping s.digest
    × ((seen : List ℕ) × (t.codecs.sha256_sum seen ≡ s.digest)
        × IsSeen (record t { path = s.path; url = s.url }) a seen)

finish_load-IsKept :
    (validate : String → Option String) (t : Task) (path : String) (a : Answers)
    (r : Loaded SelectedSource × Writes)
    → validate (or_default default_anibridge_mapping_path t.path) ≡ some path
    → validate_remote_url t.env (or_default default_anibridge_url t.url) ≡ none
    → Ends
        (IsGenuine t
          (IsSeen (record t { path = path; url = or_default default_anibridge_url t.url }) a))
        r.0
    → let task = record t { path = path; url = or_default default_anibridge_url t.url } in
      IsKept validate t a (finish_load task a r).0 (finish_load task a r).1
unfolding finish_load
finish_load-IsKept validate t path a (_, w) v u failed = refl
finish_load-IsKept validate t path a (_, w) v u (selected {s} (p, (seen, q, e))) =
    elim (Bool-cases a.ends_at_last) [
      | inl z ↦ rw z refl
      | inr z ↦ rw z (_, refl, refl, refl, v, refl, u, p, (seen, q, e))
    ]

-- What a load does to the loader, whatever the disk, the network and the context do, if the loader
-- holds a mapping that was parsed from bytes with its digest.
pub load-IsKept :
    (validate : String → Option String) (t : Task) (a : Answers)
    → IsFaithful t.codecs t.parse t.loader.state
    → IsKept validate t a (load validate t a).0 (load validate t a).1
unfolding load
load-IsKept validate t a f = elim (Bool-cases a.ends_at_start) [
  | inl z ↦ rw z refl
  | inr z ↦ elim (Option-cases (validate (or_default default_anibridge_mapping_path t.path))) [
    | inl v ↦ rw (z, load, v) refl
    | inr (path, v) ↦
        elim (Option-cases (validate_remote_url t.env (or_default default_anibridge_url t.url))) [
          | inr (e, u) ↦ rw (z, load, v, u) refl
          | inl u ↦
              rw (z, load, v, u)
                (finish_load-IsKept validate t path a
                  (load_source
                    (record t { path = path; url = or_default default_anibridge_url t.url }) a)
                  v u
                  (load_source-Ends
                    (record t { path = path; url = or_default default_anibridge_url t.url }) a f))
        ]
  ]
]
