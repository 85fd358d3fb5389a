-- ===== src/Mapping/Parse/Settles/Document.antt =====
-- `parseAnibridgeJSON` (internal/mapping/parse.go) settles on any input: it returns a mapping or an
-- error, and no type assertion in it fails.
use sonarr_anime_bridge.Prelude.{
  ℕ, zero, suc, ◌<◌, ◌≡◌, refl, Bool, true, false, List, [], ◌∷◌, Option, none, some, length, arith,
  Bool-cases, Option-cases, inl, inr, ap, ◌∙◌, codes, codes_eq,
}
use sonarr_anime_bridge.Mapping.Parse.Json.{
  Token, Frame, Input, Parsed, at_key, at_value, open_object, close_object, open_array, close_array,
  null, bool, number, text, ok, after_value, accept, more, bind,
}
use sonarr_anime_bridge.Mapping.Parse.Targets.{skip_token}
use sonarr_anime_bridge.Mapping.Parse.Settles.{
  Settles, holds, refused, Settles-bind, Settles-map, check_ctx-Settles, parser_token-Settles, Same,
}
use sonarr_anime_bridge.Mapping.Parse.Settles.Places.{
  Left, closed_lem, skip_token-Settles, value_token, skip_value-Settles, key_token, read_key_token,
  close_token,
}
use sonarr_anime_bridge.Mapping.Parse.Settles.Targets.{Ended, opened_lem, extract_tvdb-Settles}
use sonarr_anime_bridge.Mapping.{AnibridgeMapping}
use sonarr_anime_bridge.Mapping.Parse.Document.{
  AnibridgeMeta, no_meta, meta_from, meta_of, parse_dataset_metadata, Side, key_side, read_targets,
  read_property, root_key, root_from, root_of, parse_anibridge_json, empty_mapping,
}

meta_from-Settles :
    (fold : ℕ → ℕ) (f : ℕ) (meta : AnibridgeMeta) (bad : Bool) (i : Input) (gs : List Frame)
    → i.frames ≡ at_key ∷ gs
    → length i.ahead < f
    → Settles (Ended gs (length i.ahead)) (meta_from fold f meta bad i)
unfolding meta_from
meta_from-Settles fold zero meta bad i gs place l = absurd (omega arith)
meta_from-Settles fold (suc f) meta bad i gs place l = elim (Bool-cases (more i)) [
  | inr m ↦ rw (m, meta_from) (holds (place, omega arith, m))
  | inl m ↦
      rw (m, meta_from)
        (key_token gs i place m λ key j fs e. value_token gs j fs λ t k a e'.
          Settles-bind (skip_token-Settles t 1 k gs a) λ _ o (p, l').
            Settles-map (meta_from-Settles fold f _ _ o gs p (omega arith))
              λ _ o' (q, l'', m'). (q, omega arith, m'))
]

abbrev no_meta_at : Input → Parsed (AnibridgeMeta × Bool)
no_meta_at j = ok (no_meta, true) j

meta_bad-Settles :
    (t : Token) (i : Input) (gs : List Frame)
    → accept t (at_value ∷ gs) ≡ some i.frames
    → Settles (Left gs (length i.ahead)) (bind (skip_token t 0 i) λ _ j. no_meta_at j)
meta_bad-Settles t i gs a = Settles-bind (skip_token-Settles t 0 i gs a) λ _ j h. holds h

meta_of-Settles :
    (fold : ℕ → ℕ) (t : Token) (i : Input) (gs : List Frame)
    → accept t (at_value ∷ gs) ≡ some i.frames
    → Settles (Left gs (length i.ahead)) (meta_of fold t i)
unfolding meta_of after_value
meta_of-Settles fold null i gs a = holds (closed_lem null _ gs a refl, omega arith)
meta_of-Settles fold open_object i gs a =
    Settles-bind
      (meta_from-Settles fold (suc (length i.ahead)) no_meta false i (at_value ∷ gs)
        (opened_lem _ gs a) (omega arith))
      λ _ j (p, l, m). close_token (at_value ∷ gs) j p m λ _ k q e. holds (q, omega arith)
meta_of-Settles fold close_object i gs a = meta_bad-Settles close_object i gs a
meta_of-Settles fold open_array i gs a = meta_bad-Settles open_array i gs a
meta_of-Settles fold close_array i gs a = meta_bad-Settles close_array i gs a
meta_of-Settles fold (bool b) i gs a = meta_bad-Settles (bool b) i gs a
meta_of-Settles fold (number n) i gs a = meta_bad-Settles (number n) i gs a
meta_of-Settles fold (text s) i gs a = meta_bad-Settles (text s) i gs a

parse_dataset_metadata-Settles :
    (fold : ℕ → ℕ) (i : Input) (gs : List Frame)
    → i.frames ≡ at_value ∷ gs
    → Settles (Left gs (length i.ahead)) (parse_dataset_metadata fold i)
unfolding parse_dataset_metadata
parse_dataset_metadata-Settles fold i gs p =
    value_token gs i p
      λ t j a e. Settles-map (meta_of-Settles fold t j gs a) λ _ k (q, l). (q, omega arith)

read_targets-Settles :
    (side : Side) (id : Option ℕ) (m : AnibridgeMapping) (i : Input) (gs : List Frame)
    → i.frames ≡ at_value ∷ gs
    → Settles (Left gs (length i.ahead)) (read_targets side id m i)
unfolding read_targets
read_targets-Settles side none m i gs p =
    Settles-bind (skip_value-Settles gs i p 0) λ _ j h. holds h
read_targets-Settles side (some id) m i gs p =
    Settles-bind (extract_tvdb-Settles i gs p) λ _ j h. holds h

read_property-Settles :
    (fold : ℕ → ℕ) (key : List ℕ) (m : AnibridgeMapping) (i : Input) (gs : List Frame)
    → i.frames ≡ at_value ∷ gs
    → Settles (Left gs (length i.ahead)) (read_property fold key m i)
unfolding read_property
read_property-Settles fold key m i gs p = elim (Option-cases (key_side key)) [
  | inr (s, e) ↦ rw e (read_targets-Settles s.0 _ m i gs p)
  | inl e ↦ elim (Bool-cases (codes_eq key (codes "$meta"))) [
    | inl g ↦ rw (e, g) (Settles-bind (parse_dataset_metadata-Settles fold i gs p) λ _ j h. holds h)
    | inr g ↦ rw (e, g) (Settles-bind (skip_value-Settles gs i p 0) λ _ j h. holds h)
  ]
]

more-Same : (i j : Input) → Same i tt j → more j ≡ more i
unfolding more
more-Same i j (a, f, b) = cc

root_from-Settles :
    (fold : ℕ → ℕ) (f : ℕ) (m : AnibridgeMapping) (i : Input) (gs : List Frame)
    → i.frames ≡ at_key ∷ gs
    → length i.ahead < f
    → Settles (Ended gs (length i.ahead)) (root_from fold f m i)
unfolding root_from root_key
root_from-Settles fold zero m i gs place l = absurd (omega arith)
root_from-Settles fold (suc f) m i gs place l = elim (Bool-cases (more i)) [
  | inr m ↦ rw (m, root_from) (holds (place, omega arith, m))
  | inl m ↦
      rw (m, root_from)
        (Settles-bind (check_ctx-Settles i) λ _ j same.
          read_key_token gs j (same.1 ∙ place) root_key (λ s k. refl) (more-Same i j same ∙ m)
            λ key k fs e. Settles-bind (read_property-Settles fold key _ k gs fs) λ m' o (p, l').
              Settles-map (root_from-Settles fold f m' o gs p (omega (arith, ap length same.0)))
                λ _ o' (q, l'', m''). (q, omega (arith, ap length same.0), m''))
]

opened_root : (fs : List Frame) → accept open_object [] ≡ some fs → fs ≡ at_key ∷ []
unfolding accept
opened_root fs a = cc

root_of-Settles :
    (fold : ℕ → ℕ) (t : Token) (i : Input)
    → accept t [] ≡ some i.frames
    → Settles (λ _ j. j.frames ≡ []) (root_of fold t i)
unfolding root_of after_value
root_of-Settles fold open_object i a =
    Settles-bind
      (root_from-Settles fold (suc (length i.ahead)) empty_mapping i [] (opened_root _ a)
        (omega arith))
      λ m j (p, l, more_j). close_token [] j p more_j λ _ k q e. holds q
root_of-Settles fold _ i a = refused

-- On any tokens, and whenever the context ends, the parser returns a mapping or an error: it does not
-- fail a type assertion, and the fuel of its loops is enough. With a mapping the decoder has left
-- the document.
pub parse_anibridge_json-Settles :
    (fold : ℕ → ℕ) (i : Input)
    → i.frames ≡ []
    → Settles (λ _ j. j.frames ≡ []) (parse_anibridge_json fold i)
unfolding parse_anibridge_json
parse_anibridge_json-Settles fold i p =
    Settles-bind (parser_token-Settles i) λ t j (a, e). root_of-Settles fold t j (rw p at a)
