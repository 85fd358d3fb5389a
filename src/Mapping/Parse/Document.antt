-- ===== src/Mapping/Parse/Document.antt =====
-- `parseDatasetMetadata` and `parseAnibridgeJSON` of internal/mapping/parse.go. The bound of the
-- reader on decoded bytes is an end of the input.
use sonarr_anime_bridge.Prelude.{
  ℕ, zero, suc, Bool, true, false, ◌||◌, List, [], map, Option, none, some, length, if◌then◌else◌,
  insert, ℤ, pos, ℤ_discrete, codes, codes_eq,
}
use sonarr_anime_bridge.Mapping.{AnibridgeMapping}
use sonarr_anime_bridge.Mapping.Parse.Json.{
  Token, Parser, open_object, null, text, not_an_object, not_a_key, ok, failed, out_of_fuel, bind,
  ◌>>=◌, more, check_ctx, parser_token, as_string,
}
use sonarr_anime_bridge.Mapping.Parse.Ranges.{cut_prefix, atoi, above_zero}
use sonarr_anime_bridge.Mapping.Parse.Targets.{skip_token, skip_value, extract_tvdb}

pub record AnibridgeMeta : Type 0 where
  pub schema_version : List ℕ
  pub generated_on : List ℕ

abbrev fold_eq : (ℕ → ℕ) → List ℕ → List ℕ → Bool
fold_eq fold s t = codes_eq (map fold s) (map fold t)

-- The field named by a key gets its value: the metadata, and whether the value is of the wrong type.
unfoldable pub set_field : (ℕ → ℕ) → List ℕ → Token → AnibridgeMeta → AnibridgeMeta × Bool
set_field fold key null meta = (meta, false)
set_field fold key (text value) meta =
    if fold_eq fold key (codes "schema_version")
    then (record meta { schema_version = value }, false)
    else if fold_eq fold key (codes "generated_on")
    then (record meta { generated_on = value }, false)
    else (meta, false)
set_field fold key t meta =
    (meta, fold_eq fold key (codes "schema_version") || fold_eq fold key (codes "generated_on"))

unfoldable pub meta_from : (ℕ → ℕ) → ℕ → AnibridgeMeta → Bool → Parser (AnibridgeMeta × Bool)
unfolding set_field
meta_from fold zero meta bad i = out_of_fuel
meta_from fold (suc fuel) meta bad i = elim (more i) [
  | false ↦ ok (meta, bad) i
  | true ↦ bind (parser_token i) λ t i. bind (as_string t i) λ key i. bind (parser_token i) λ t i.
      bind (skip_token t 1 i) λ _ i.
        let (meta', wrong) = set_field fold key t meta in meta_from fold fuel meta' (wrong || bad) i
]

abbrev pub no_meta : AnibridgeMeta
no_meta = record { schema_version = []; generated_on = [] }

unfoldable pub meta_of : (ℕ → ℕ) → Token → Parser (AnibridgeMeta × Bool)
unfolding meta_from
meta_of fold null i = ok (no_meta, false) i
meta_of fold open_object i =
    bind (meta_from fold (suc (length i.ahead)) no_meta false i)
      λ meta j. bind (parser_token j) λ _ k. ok meta k
meta_of fold t i = bind (skip_token t 0 i) λ _ j. ok (no_meta, true) j

unfoldable pub parse_dataset_metadata : (ℕ → ℕ) → Parser (AnibridgeMeta × Bool)
unfolding meta_of
parse_dataset_metadata fold = do t ← parser_token; meta_of fold t

pub data Side : Type 0 where
  mal anilist : Side

-- The map and the text of the number that a key of the root names.
unfoldable pub key_side : List ℕ → Option (Side × List ℕ)
unfolding cut_prefix
key_side key = elim (cut_prefix (codes "mal:") key) [
  | some rest ↦ some (mal, rest)
  | none ↦ elim (cut_prefix (codes "anilist:") key) [
    | some rest ↦ some (anilist, rest)
    | none ↦ none
  ]
]

unfoldable pub store : Side → ℤ → Option ℤ → AnibridgeMapping → AnibridgeMapping
store side id none m = m
store mal id (some tvdb_id) m = record m { by_mal = insert ℤ_discrete id tvdb_id m.by_mal }
store anilist id (some tvdb_id) m = record m {
  by_anilist = insert ℤ_discrete id tvdb_id m.by_anilist;
}

-- The value of a key that names a map, once its number is read.
unfoldable pub read_targets : Side → Option ℕ → AnibridgeMapping → Parser AnibridgeMapping
unfolding extract_tvdb skip_value store
read_targets side none m i = bind (skip_value 0 i) λ _ j. ok m j
read_targets side (some id) m i =
    bind (extract_tvdb i) λ tvdb_id j. ok (store side (pos id) tvdb_id m) j

-- One property of the root.
unfoldable pub read_property : (ℕ → ℕ) → List ℕ → AnibridgeMapping → Parser AnibridgeMapping
unfolding key_side read_targets parse_dataset_metadata skip_value atoi above_zero
read_property fold key m i = elim (key_side key) [
  | some (side, raw_id) ↦ read_targets side (above_zero (atoi raw_id)) m i
  | none ↦
      if codes_eq key (codes "$meta")
      then bind (parse_dataset_metadata fold i) (λ _ j. ok m j)
      else bind (skip_value 0 i) (λ _ j. ok m j)
]

-- `t.(string)` with its failure taken care of.
unfoldable pub root_key : Token → Parser (List ℕ)
root_key (text s) i = ok s i
root_key t i = failed not_a_key

unfoldable pub root_from : (ℕ → ℕ) → ℕ → AnibridgeMapping → Parser AnibridgeMapping
unfolding read_property root_key
root_from fold zero m i = out_of_fuel
root_from fold (suc fuel) m i = elim (more i) [
  | false ↦ ok m i
  | true ↦ bind (check_ctx i) λ _ i. bind (parser_token i) λ t i.
      bind (root_key t i) λ key i. bind (read_property fold key m i) λ m i. root_from fold fuel m i
]

abbrev pub empty_mapping : AnibridgeMapping
empty_mapping = record { by_mal = []; by_anilist = [] }

unfoldable pub root_of : (ℕ → ℕ) → Token → Parser AnibridgeMapping
unfolding root_from
root_of fold open_object i =
    bind (root_from fold (suc (length i.ahead)) empty_mapping i)
      λ m j. bind (parser_token j) λ _ k. ok m k
root_of fold t i = failed not_an_object

unfoldable pub parse_anibridge_json : (ℕ → ℕ) → Parser AnibridgeMapping
unfolding root_of
parse_anibridge_json fold = do t ← parser_token; root_of fold t
