-- ===== src/Tests/Parsing.antt =====
-- The parser of mapping files.
use mathlib.Core.List.Perm
use sonarr_anime_bridge.Prelude.{
  ℕ, insert, delete, codes_discrete, ℤ_discrete, ◌≡◌, refl, true, false, List, [], ◌∷◌, pos, All,
  codes, arith,
}
use sonarr_anime_bridge.Mapping.Parse.Json.{
  Token, Input, more, parser_token, check_ctx, check_left, as_string, after_value, ok, open_object,
  close_array,
}
use sonarr_anime_bridge.Mapping.Parse.Ranges.{source_range_count, cut, cut_prefix, atoi, above_zero}
use sonarr_anime_bridge.Mapping.Parse.Targets.{
  TargetSummary, beats, better, has_more, choose_from, no_target,
}
use sonarr_anime_bridge.Mapping.Parse.Document.{parse_anibridge_json, empty_mapping}
use sonarr_anime_bridge.Mapping.Parse.Tree.{
  Value, Fields, object, text, no_fields, field, first, body, depth, reader, as_parsed, decode,
}
use sonarr_anime_bridge.Mapping.Parse.Refines.{parse_anibridge_json-decode}
use sonarr_anime_bridge.Mapping.Parse.Settles.{Settles}
use sonarr_anime_bridge.Mapping.Parse.Settles.Document.{parse_anibridge_json-Settles}
use sonarr_anime_bridge.Mapping.Parse.Best.{choose_from-beats}

abbrev plain : ℕ → ℕ
plain c = c

-- {"tvdb_show:76885:s1": {"1-26": "1-26"}, "tvdb_show:9:s2": {"1-50": null}}
abbrev targets : Value
targets = object (
    field (codes "tvdb_show:76885:s1")
      (object (field (codes "1-26") (text (codes "1-26")) no_fields))
      (field (codes "tvdb_show:9:s2") (object (field (codes "1-50") Value.null no_fields))
        no_fields))

-- {"$meta": {"schema_version": "3"}, "mal:1": targets, "anilist:0": [], "anilist:7": targets}
abbrev document : Fields
document =
    field (codes "$meta") (object (field (codes "schema_version") (text (codes "3")) no_fields)) (
      field (codes "mal:1") targets
        (field (codes "anilist:0") Value.null (field (codes "anilist:7") targets no_fields)))

parse_anibridge_json-decode_example :
    parse_anibridge_json plain
      (reader false (first (object document) ∷ body (object document) (Token.null ∷ [])) [])
    ≡ as_parsed (decode document empty_mapping) (reader false (Token.null ∷ []) [])
parse_anibridge_json-decode_example =
    parse_anibridge_json-decode plain document false (Token.null ∷ []) (unfold depth in omega arith)

parsed_document :
    parse_anibridge_json plain
      (reader false (first (object document) ∷ body (object document) []) [])
    ≡ ok
        (record { by_mal = (pos 1, pos 76885) ∷ []; by_anilist = (pos 7, pos 76885) ∷ [] })
        (reader false [] [])
unfolding parse_anibridge_json first body more parser_token check_ctx as_string beats better
    check_left codes_discrete cut atoi above_zero source_range_count insert delete ℤ_discrete
    has_more no_target after_value cut_prefix
parsed_document = refl

-- `{"mal:1": {]`, cut off by the decoder.
abbrev broken : Input
broken = reader false (open_object ∷ Token.text (codes "mal:1") ∷ open_object ∷ close_array ∷ []) []

parse_anibridge_json-Settles_example :
    Settles (λ _ j. j.frames ≡ []) (parse_anibridge_json plain broken)
parse_anibridge_json-Settles_example = parse_anibridge_json-Settles plain broken refl

abbrev season_one : List ℕ × TargetSummary
season_one =
    (codes "tvdb_show:5:s1", record { id = pos 5; episodes = pos 12; is_s1 = true; err = false })

abbrev season_two : List ℕ × TargetSummary
season_two =
    (codes "tvdb_show:4:s2", record { id = pos 4; episodes = pos 24; is_s1 = false; err = false })

choose_from-beats_example :
    (choose_from (season_two ∷ season_one ∷ []) no_target (reader false [] [])
      ≡ ok season_one.1 (reader false [] []))
    × All (λ s. beats season_one.1 s.1 ≡ false) (season_two ∷ season_one ∷ [])
choose_from-beats_example =
    choose_from-beats (season_one ∷ season_two ∷ []) (season_two ∷ season_one ∷ []) false [] []
      season_one.1 (reader false [] []) (Perm.swap season_two season_one [])
      (unfold choose_from better beats check_ctx no_target in refl)
