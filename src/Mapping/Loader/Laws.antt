-- ===== src/Mapping/Loader/Laws.antt =====
-- What a load keeps and returns (internal/mapping/loader.go).
use sonarr_anime_bridge.Prelude.{
  ℕ, Bool, true, ◌&&◌, List, Option, none, some, String, codes_eq→eq, ◌≡◌, inl, inr, refl, sym, ◌∙◌,
  Option-cases, Bool-cases, arith, codes_eq,
}
use sonarr_anime_bridge.Mapping.{AnibridgeMapping}
use sonarr_anime_bridge.Mapping.Source.{Metadata, Codecs}
use sonarr_anime_bridge.Mapping.Loader.{
  Disposition, ParsedSource, SelectedSource, Parse, is_same, matching, FileReads, parse_again,
  local_from, local,
}
use sonarr_anime_bridge.Mapping.Loader.Load.{Task, local_of}

-- The mapping is the parse of bytes that have this digest.
abbrev pub IsParsed : Codecs → Parse → AnibridgeMapping → List ℕ → Type 0
IsParsed codecs parse m digest =
    (bytes : List ℕ) × (parse bytes ≡ some m) × (codecs.sha256_sum bytes ≡ digest)

abbrev pub IsFaithful : Codecs → Parse → Option ParsedSource → Type 0
IsFaithful codecs parse none = Unit
IsFaithful codecs parse (some s) = IsParsed codecs parse s.mapping s.digest

-- A property of what is returned, if something is.
pub data Each {ℓ κ} {A : Type ℓ} (P : A → Type κ) : Option A → Type (ℓ ⊔ κ) where
  absent : Each P none
  present : {a : A} → P a → Each P (some a)

pub Each-map {ℓ κ κ'} :
    {A : Type ℓ} {P : A → Type κ} {Q : A → Type κ'} {o : Option A}
    → Each P o
    → ((a : A) → P a → Q a)
    → Each Q o
Each-map absent f = absent
Each-map (present {a} h) f = present (f a h)

pub Each-some {ℓ κ} : {A : Type ℓ} {P : A → Type κ} {a : A} → Each P (some a) → P a
Each-some (present h) = h

and_right : (a b c : Bool) → (a && (b && c)) ≡ true → c ≡ true
and_right a b c h = ground arith

module _ (t : Task) where
  pub matching-Each :
      (st : Option ParsedSource) (path url : String) (digest : List ℕ)
      → IsFaithful t.codecs t.parse st
      → Each (λ s. IsParsed t.codecs t.parse s.mapping digest) (matching st path url digest)
  unfolding matching
  matching-Each none path url digest f = absent
  matching-Each (some r) path url digest (bytes, p, q) =
      elim (Bool-cases (is_same r path url digest)) [
        | inl e ↦ rw e (present (bytes, p, q ∙ codes_eq→eq _ _ (and_right _ _ _ e)))
        | inr e ↦ rw e absent
      ]

  -- A selected source: its mapping is parsed from bytes with its digest, which is that of bytes that the
  -- load has seen.
  abbrev pub IsGenuine {ℓ} : (List ℕ → Type ℓ) → SelectedSource → Type ℓ
  IsGenuine IsSeen source =
      IsParsed t.codecs t.parse source.result.mapping source.digest
      × ((seen : List ℕ) × (t.codecs.sha256_sum seen ≡ source.digest) × IsSeen seen)

  parse_again-Each :
      (meta : Metadata) (d : Disposition) (digest : List ℕ) (again : Option (List ℕ))
      → Each
          (λ s. IsParsed t.codecs t.parse s.result.mapping s.digest × (s.digest ≡ digest))
          (parse_again t.codecs t.parse meta d digest again)
  unfolding parse_again
  parse_again-Each meta d digest none = absent
  parse_again-Each meta d digest (some bytes) = elim (Option-cases (t.parse bytes)) [
    | inl p ↦ rw (p, parse_again) absent
    | inr (m, p) ↦ elim (Bool-cases (codes_eq digest (t.codecs.sha256_sum bytes))) [
      | inr q ↦ rw (p, parse_again, q) absent
      | inl q ↦ rw (p, parse_again, q) (present ((bytes, p, sym (codes_eq→eq _ _ q)), refl))
    ]
  ]

  module _ (faithful : IsFaithful t.codecs t.parse t.loader.state) where
    local_from-Each :
        (meta : Metadata) (d : Disposition) (digest : List ℕ) (again : Option (List ℕ))
        → Each
            (λ s. IsParsed t.codecs t.parse s.result.mapping s.digest × (s.digest ≡ digest))
            (local_from t.codecs t.parse t.loader t.path t.url meta d digest again)
    unfolding local_from
    local_from-Each meta d digest again =
        elim (Option-cases (matching t.loader.state t.path t.url digest)) [
          | inl e ↦ rw (e, local_from) (parse_again-Each meta d digest again)
          | inr (s, e) ↦
              rw (e, local_from)
                (present (
                  Each-some (rw e at (matching-Each t.loader.state t.path t.url digest faithful)),
                  refl,
                ))
        ]

    pub local_of-Each :
        (meta : Metadata) (d : Disposition) (reads : FileReads)
        → Each (IsGenuine (λ seen. reads.inspected ≡ some seen)) (local_of t meta d reads)
    unfolding local
    local_of-Each meta d reads = elim (Option-cases reads.inspected) [
      | inl e ↦ rw (e, local) absent
      | inr (seen, e) ↦
          rw (e, local)
            (Each-map (local_from-Each meta d (t.codecs.sha256_sum seen) reads.parsed)
              λ source (p, q). (p, (seen, sym q, refl)))
    ]
