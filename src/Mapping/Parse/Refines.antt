-- ===== src/Mapping/Parse/Refines.antt =====
-- `parseAnibridgeJSON` (internal/mapping/parse.go) reads a document token by token as Tree reads it
-- whole.
use sonarr_anime_bridge.Prelude.{
  ℕ, zero, suc, ◌+◌, ◌≤◌, ◌<◌, ◌≡◌, refl, Bool, true, false, List, [], ◌∷◌, Option, none, some,
  length, Bool-cases, Option-cases, inl, inr, ℤ, pos, codes, codes_eq, arith,
}
use sonarr_anime_bridge.Mapping.{AnibridgeMapping}
use sonarr_anime_bridge.Mapping.Parse.Json.{
  Token, Frame, Input, Parsed, at_key, at_value, close_object, ok, after_value, bind, more,
  as_string, check_ctx, parser_token,
}
use sonarr_anime_bridge.Mapping.Parse.Ranges.{atoi, above_zero}
use sonarr_anime_bridge.Mapping.Parse.Document.{
  AnibridgeMeta, no_meta, meta_from, meta_of, parse_dataset_metadata, Side, key_side, read_targets,
  read_property, root_key, root_from, parse_anibridge_json, store, empty_mapping,
}
use sonarr_anime_bridge.Mapping.Parse.Tree.{
  Value, Fields, null, bool, number, text, array, object, no_fields, field, first, body,
  body_fields, size, size_fields, depth, depth_fields, frames_in, reader, Outcome, value, error,
  as_parsed, tvdb_of, then_store, add_targets, add_property, and_then, decode,
}
use sonarr_anime_bridge.Mapping.Parse.Skip.{
  wants_value, length-body_fields, skip_token-first, skip_value-first,
}
use sonarr_anime_bridge.Mapping.Parse.Reads.{read_first, read_key, read_close, extract_tvdb-first}

-- The metadata of a dataset are read to their end, whatever they are.
abbrev Reads : Parsed (AnibridgeMeta × Bool) → Input → Type 0
Reads r i = (m : AnibridgeMeta × Bool) × (r ≡ ok m i)

meta_from-fields :
    (fold : ℕ → ℕ) (ms : Fields) (b : Bool) (f : ℕ) (meta : AnibridgeMeta) (bad : Bool)
    (rest : List Token) (fs : List Frame)
    → size_fields ms < f
    → depth_fields ms + 1 ≤ 10000
    → Reads
        (meta_from fold f meta bad (reader b (body_fields ms (close_object ∷ rest)) (at_key ∷ fs)))
        (reader b (close_object ∷ rest) (at_key ∷ fs))
unfolding meta_from more as_string body size depth after_value
meta_from-fields fold ms b zero meta bad rest fs h d = absurd (omega arith)
meta_from-fields fold no_fields b (suc f) meta bad rest fs h d = ((meta, bad), refl)
meta_from-fields fold (field k v ms) b (suc f) meta bad rest fs h d =
    rw
      (
        read_key k b (first v ∷ body v (body_fields ms (close_object ∷ rest))) fs,
        read_first v b (body_fields ms (close_object ∷ rest)) (at_value ∷ fs) refl,
        skip_token-first v b 1 (body_fields ms (close_object ∷ rest)) (at_value ∷ fs)
            (omega (arith, d)),
      )
      (meta_from-fields fold ms b f _ _ rest fs (omega (arith, h)) (omega (arith, d)))

then_no_meta :
    {r : Parsed (Unit {0})} {i : Input}
    → r ≡ ok tt i
    → Reads (bind r (λ _ j. ok (no_meta, true) j)) i
then_no_meta h = ((no_meta, true), rw h refl)

meta_of-first :
    (fold : ℕ → ℕ) (v : Value) (b : Bool) (rest : List Token) (fs : List Frame)
    → depth v ≤ 10000
    → Reads
        (meta_of fold (first v) (reader b (body v rest) (frames_in v fs)))
        (reader b rest (after_value fs))
unfolding meta_of first body depth frames_in
meta_of-first fold null b rest fs d = ((no_meta, false), refl)
meta_of-first fold (object ms) b rest fs d =
    let (m, e) =
      meta_from-fields fold ms b (suc (length (body_fields ms (close_object ∷ rest)))) no_meta false
        rest fs (omega (arith, length-body_fields ms (close_object ∷ rest))) (omega (arith, d)) in
    (m, rw (e, read_close b rest fs) refl)
meta_of-first fold (bool c) b rest fs d =
    then_no_meta (skip_token-first (bool c) b 0 rest fs (omega (arith, d)))
meta_of-first fold (number n) b rest fs d =
    then_no_meta (skip_token-first (number n) b 0 rest fs (omega (arith, d)))
meta_of-first fold (text s) b rest fs d =
    then_no_meta (skip_token-first (text s) b 0 rest fs (omega (arith, d)))
meta_of-first fold (array xs) b rest fs d =
    then_no_meta (skip_token-first (array xs) b 0 rest fs (omega (arith, d)))

parse_dataset_metadata-first :
    (fold : ℕ → ℕ) (v : Value) (b : Bool) (rest : List Token) (fs : List Frame)
    → wants_value fs ≡ true
    → depth v ≤ 10000
    → Reads
        (parse_dataset_metadata fold (reader b (first v ∷ body v rest) fs))
        (reader b rest (after_value fs))
unfolding parse_dataset_metadata
parse_dataset_metadata-first fold v b rest fs w d =
    rw (read_first v b rest fs w) (meta_of-first fold v b rest fs d)

then_store_lem :
    (side : Side) (id : ℕ) (m : AnibridgeMapping) (found : Outcome (Option ℤ)) (i : Input)
    → bind (as_parsed found i) (λ tvdb_id j. ok (store side (pos id) tvdb_id m) j)
      ≡ as_parsed (then_store side id m found) i
then_store_lem side id m (value t) i = refl
then_store_lem side id m (error e) i = refl

read_targets-first :
    (side : Side) (id : Option ℕ) (m : AnibridgeMapping) (v : Value) (b : Bool) (rest : List Token)
    (fs : List Frame)
    → wants_value fs ≡ true
    → depth v ≤ 10000
    → read_targets side id m (reader b (first v ∷ body v rest) fs)
      ≡ as_parsed (add_targets side id v m) (reader b rest (after_value fs))
unfolding read_targets
read_targets-first side none m v b rest fs w d =
    rw (skip_value-first v b 0 rest fs w (omega (arith, d))) refl
read_targets-first side (some id) m v b rest fs w d =
    rw (extract_tvdb-first v b rest fs w d) (then_store_lem side id m (tvdb_of v) _)

read_property-first :
    (fold : ℕ → ℕ) (k : List ℕ) (m : AnibridgeMapping) (v : Value) (b : Bool) (rest : List Token)
    (fs : List Frame)
    → wants_value fs ≡ true
    → depth v ≤ 10000
    → read_property fold k m (reader b (first v ∷ body v rest) fs)
      ≡ as_parsed (add_property k v m) (reader b rest (after_value fs))
unfolding read_property add_property
read_property-first fold k m v b rest fs w d = elim (Option-cases (key_side k)) [
  | inr (s, e) ↦ rw e (read_targets-first s.0 (above_zero (atoi s.1)) m v b rest fs w d)
  | inl e ↦ elim (Bool-cases (codes_eq k (codes "$meta"))) [
    | inl g ↦ let (mm, h) = parse_dataset_metadata-first fold v b rest fs w d in rw (e, g, h) refl
    | inr g ↦ rw (e, g, skip_value-first v b 0 rest fs w (omega (arith, d))) refl
  ]
]

next_property :
    (fold : ℕ → ℕ) (f : ℕ) (ms : Fields) (o : Outcome AnibridgeMapping) (i j : Input)
    → ((m : AnibridgeMapping) → root_from fold f m i ≡ as_parsed (decode ms m) j)
    → bind (as_parsed o i) (root_from fold f) ≡ as_parsed (and_then o (decode ms)) j
next_property fold f ms (value m) i j h = h m
next_property fold f ms (error e) i j h = refl

root_from-fields :
    (fold : ℕ → ℕ) (ms : Fields) (b : Bool) (f : ℕ) (m : AnibridgeMapping) (rest : List Token)
    (fs : List Frame)
    → size_fields ms < f
    → depth_fields ms ≤ 10000
    → root_from fold f m (reader b (body_fields ms (close_object ∷ rest)) (at_key ∷ fs))
      ≡ as_parsed (decode ms m) (reader b (close_object ∷ rest) (at_key ∷ fs))
unfolding root_from root_key more check_ctx body size depth decode after_value
root_from-fields fold ms b zero m rest fs h d = absurd (omega arith)
root_from-fields fold no_fields b (suc f) m rest fs h d = refl
root_from-fields fold (field k v ms) b (suc f) m rest fs h d =
    rw
      (
        read_key k b (first v ∷ body v (body_fields ms (close_object ∷ rest))) fs,
        read_property-first fold k m v b (body_fields ms (close_object ∷ rest)) (at_value ∷ fs) refl
            (omega (arith, d)),
      )
      (next_property fold f ms (add_property k v m) _ _
        λ m'. root_from-fields fold ms b f m' rest fs (omega (arith, h)) (omega (arith, d)))

close_root :
    (o : Outcome AnibridgeMapping) (b : Bool) (rest : List Token) (fs : List Frame)
    → bind
        (as_parsed o (reader b (close_object ∷ rest) (at_key ∷ fs)))
        (λ m j. bind (parser_token j) λ _ k. ok m k)
      ≡ as_parsed o (reader b rest (after_value fs))
close_root (value m) b rest fs = rw (read_close b rest fs) refl
close_root (error e) b rest fs = refl

-- A document whose values nest at most 10,000 deep, read under a context that does not end, gives what
-- Tree computes from it whole: the same mapping, or the same error. What follows the document is left.
pub parse_anibridge_json-decode :
    (fold : ℕ → ℕ) (ms : Fields) (b : Bool) (rest : List Token)
    → depth_fields ms ≤ 10000
    → parse_anibridge_json fold (reader b (first (object ms) ∷ body (object ms) rest) [])
      ≡ as_parsed (decode ms empty_mapping) (reader b rest [])
unfolding parse_anibridge_json first body depth after_value frames_in
parse_anibridge_json-decode fold ms b rest d =
    rw
      (
        read_first (object ms) b rest [] refl,
        root_from-fields fold ms b (suc (length (body_fields ms (close_object ∷ rest))))
            empty_mapping rest [] (omega (arith, length-body_fields ms (close_object ∷ rest))) d,
      )
      (close_root _ b rest [])
