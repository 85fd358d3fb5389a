-- ===== src/Mapping/Source/Laws.antt =====
-- What `fetch` of internal/mapping/anibridge.go returns.
use sonarr_anime_bridge.Prelude.{
  ℕ, ◌≤◌, ◌≡◌, ◌⊎◌, inl, inr, true, false, List, length, Option, none, some, String, str_eq, refl,
  arith, Option-cases, Bool-cases, str_eq_iff, sym, ap, ◌∙◌,
}
use sonarr_anime_bridge.Show.{equal_fold}
use sonarr_anime_bridge.Mapping.Url.{Setting, validate_remote_url}
use sonarr_anime_bridge.Mapping.Source.{
  Metadata, Codecs, Response, Requested, got, error, metadata_of, send, do_mapping_request,
  check_md5, read_body, fetch, max_compressed_mapping_bytes,
}

-- No checksum was sent and none is recorded, or the recorded one is that of the data and equals the one
-- sent, up to the case of its letters.
abbrev pub IsChecked : Codecs → String → List ℕ → Metadata → Type 0
IsChecked codecs sent data_ meta =
    ((sent ≡ "") × (meta.md5 ≡ ""))
    ⊎ ((raw : List ℕ) × (codecs.from_base64 sent ≡ some raw)
        × (meta.md5 ≡ codecs.to_hex (codecs.md5_sum data_))
        × (equal_fold codecs.fold meta.md5 (codecs.to_hex raw) ≡ true))

do_mapping_request-got :
    (env : Setting) (url : String) (now : ℕ) (answer : Option Response) (r : Response)
    (meta : Metadata)
    → do_mapping_request env url now answer ≡ got (r, meta)
    → (answer ≡ some r)
      × (validate_remote_url env url ≡ none)
      × (r.status ≡ 200)
      × (meta ≡ metadata_of url now r)
unfolding do_mapping_request send metadata_of
do_mapping_request-got env url now none r meta h = ground arith
do_mapping_request-got env url now (some a) r meta h = ground arith

read_body-got :
    (codecs : Codecs) (q : Requested (Response × Metadata)) (data_ : List ℕ) (meta : Metadata)
    → read_body codecs q ≡ got (data_, meta)
    → (r : Response) × (m : Metadata) × (q ≡ got (r, m))
      × (r.breaks_off ≡ false)
      × (length r.body ≤ max_compressed_mapping_bytes)
      × (check_md5 codecs r.md5_header r.body m ≡ got (data_, meta))
unfolding read_body
read_body-got codecs (error e) data_ meta h = cc h
read_body-got codecs (got (r, m)) data_ meta h =
    (r, m, refl, ground arith, ground arith, ground arith)

got_lem :
    {d d' : List ℕ} {m m' : Metadata}
    → ◌≡◌ {A = Requested (List ℕ × Metadata)} (got (d, m)) (got (d', m'))
    → (d ≡ d') × (m ≡ m')
got_lem e = (cc e, cc e)

abbrev unchecked : Metadata → Metadata
unchecked m = record m { md5 = "" }

check_md5-got :
    (codecs : Codecs) (sent : String) (d : List ℕ) (m : Metadata) (d' : List ℕ) (meta : Metadata)
    → m.md5 ≡ ""
    → check_md5 codecs sent d m ≡ got (d', meta)
    → (d' ≡ d) × (unchecked meta ≡ unchecked m) × IsChecked codecs sent d' meta
unfolding check_md5
check_md5-got codecs sent d m d' meta z h = elim (Bool-cases (str_eq sent "")) [
  | inl p ↦
      let (e, f) = got_lem (rw p at h) in
      (
        sym e,
        ap unchecked (sym f),
        inl ((str_eq_iff _ _).0 p, ap (λ (x : Metadata). x.md5) (sym f) ∙ z),
      )
  | inr p ↦ elim (Option-cases (codecs.from_base64 sent)) [
    | inl q ↦ cc (rw (p, q, check_md5) at h)
    | inr (raw, q) ↦
        elim (Bool-cases
          (equal_fold codecs.fold (codecs.to_hex (codecs.md5_sum d)) (codecs.to_hex raw))) [
            | inr t ↦ cc (rw (p, q, t) at h)
            | inl t ↦
                let (e, f) = got_lem (rw (p, q, t) at h) in
                (
                  sym e,
                  ap unchecked (sym f),
                  inr (
                    raw,
                    q,
                    ap (λ (x : Metadata). x.md5) (sym f)
                        ∙ ap (λ (b : List ℕ). codecs.to_hex (codecs.md5_sum b)) e,
                    ap (λ (b : String). equal_fold codecs.fold b (codecs.to_hex raw))
                          (ap (λ (x : Metadata). x.md5) (sym f))
                        ∙ t,
                  ),
                )
          ]
  ]
]

-- A download that succeeds was made from a URL that the loader accepts, and was answered with status
-- 200: the data are the whole body, at most 50 MiB, their checksum was checked against the header if
-- there is one, and the metadata are those of the answer.
pub fetch_lem :
    (codecs : Codecs) (env : Setting) (url : String) (now : ℕ) (answer : Option Response)
    (data_ : List ℕ) (meta : Metadata)
    → fetch codecs env url now answer ≡ got (data_, meta)
    → (r : Response) × (answer ≡ some r)
      × (validate_remote_url env url ≡ none)
      × (r.status ≡ 200)
      × (r.breaks_off ≡ false)
      × (data_ ≡ r.body)
      × (length data_ ≤ max_compressed_mapping_bytes)
      × (record meta { md5 = "" } ≡ metadata_of url now r)
      × IsChecked codecs r.md5_header data_ meta
unfolding fetch metadata_of
fetch_lem codecs env url now answer data_ meta h =
    let (r, m, q, whole, size, c) =
      read_body-got codecs (do_mapping_request env url now answer) data_ meta h in
    let (a, v, s, e) = do_mapping_request-got env url now answer r m q in
    let (body, same, checked) =
      check_md5-got codecs r.md5_header r.body m data_ meta (rw e refl) c in
    (r, a, v, s, whole, body, rw body size, same ∙ ap unchecked e, checked)
