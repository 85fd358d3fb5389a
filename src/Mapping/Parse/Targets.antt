-- ===== src/Mapping/Parse/Targets.antt =====
-- `skipToken`, `skipValue`, `scanEpisodeRanges` and `extractTVDB` of internal/mapping/parse.go. A map
-- of Go is an association list, in the order in which a `range` goes through it. Each loop takes
-- fuel for the tokens ahead, since each round reads one.
use sonarr_anime_bridge.Prelude.{
  ℕ, zero, suc, ◌+◌, ◌-◌, ◌%◌, ◌^◌, Bool, true, false, not, ◌&&◌, ◌||◌, List, [], ◌∷◌, Option, none,
  some, length, ltb, if◌then◌else◌, insert, ℤ, pos, negsuc, ltb_ℤ, eqb_ℤ, codes, codes_eq,
  codes_discrete,
}
use sonarr_anime_bridge.Mapping.Parse.Json.{
  Token, Parser, open_object, close_object, open_array, close_array, null, text, too_deep,
  bad_targets, bad_episodes, ok, failed, out_of_fuel, bind, ◌>>=◌, more, check_ctx, parser_token,
  as_string,
}
use sonarr_anime_bridge.Mapping.Parse.Ranges.{cut_prefix, cut, atoi, above_zero, source_range_count}

abbrev pub max_mapping_value_depth : ℕ
max_mapping_value_depth = 10000

abbrev tail : List Token → List Token
tail [] = []
tail (t ∷ ts) = ts

unfoldable pub push : ℕ → Token → List Token → Option (List Token)
push enclosing_depth d stack =
    if ltb max_mapping_value_depth (length (d ∷ stack) + enclosing_depth)
    then none
    else some (d ∷ stack)

-- The stack after a token, unless that exceeds the depth.
unfoldable pub stack_after : ℕ → Token → List Token → Option (List Token)
unfolding push
stack_after enclosing_depth open_object stack = push enclosing_depth open_object stack
stack_after enclosing_depth open_array stack = push enclosing_depth open_array stack
stack_after enclosing_depth close_object stack = some (tail stack)
stack_after enclosing_depth close_array stack = some (tail stack)
stack_after enclosing_depth t stack = some stack

unfoldable pub skip_from : ℕ → ℕ → List Token → Parser (Unit {0})
unfolding stack_after
skip_from fuel enclosing_depth [] i = ok tt i
skip_from zero enclosing_depth (d ∷ stack) i = out_of_fuel
skip_from (suc fuel) enclosing_depth (d ∷ stack) i = bind (parser_token i) λ t j.
    elim (stack_after enclosing_depth t (d ∷ stack)) [
      | none ↦ failed too_deep
      | some stack' ↦ skip_from fuel enclosing_depth stack' j
    ]

abbrev pub is_delim : Token → Bool
is_delim open_object = true
is_delim close_object = true
is_delim open_array = true
is_delim close_array = true
is_delim t = false

unfoldable pub skip_token : Token → ℕ → Parser (Unit {0})
unfolding skip_from
skip_token t enclosing_depth i =
    if not (is_delim t)
    then ok tt i
    else if ltb max_mapping_value_depth (1 + enclosing_depth)
    then failed too_deep
    else skip_from (suc (length i.ahead)) enclosing_depth (t ∷ []) i

unfoldable pub skip_value : ℕ → Parser (Unit {0})
unfolding skip_token
skip_value enclosing_depth = do t ← parser_token; skip_token t enclosing_depth

abbrev pub xor : Bool → Bool → Bool
xor a b = if a then not b else b

-- Neither text nor null.
abbrev pub is_bad_destination : Token → Bool
is_bad_destination (text s) = false
is_bad_destination null = false
is_bad_destination t = true

-- The loop over the ranges of a target: their set, and whether a destination is of the wrong type.
unfoldable pub scan_from :
    ℕ → List (List ℕ × Unit {0}) → Bool → Parser (List (List ℕ × Unit {0}) × Bool)
unfolding skip_token
scan_from zero ranges bad i = out_of_fuel
scan_from (suc fuel) ranges bad i = elim (more i) [
  | false ↦ ok (ranges, bad) i
  | true ↦ bind (parser_token i) λ t i. bind (as_string t i) λ range i. bind (parser_token i) λ t i.
      bind (skip_token t 2 i) λ _ i.
        scan_from fuel (insert codes_discrete range tt ranges) (is_bad_destination t || bad) i
]

-- Go's `int` wraps around; `total` is its bit pattern.
unfoldable pub int_of : ℕ → ℤ
int_of total = if ltb total (2 ^ 63) then pos total else negsuc (2 ^ 64 - 1 - total)

-- The episodes, and whether they could not be counted.
unfoldable pub count_ranges : List (List ℕ × Unit {0}) → ℕ → Parser (ℤ × Bool)
unfolding int_of
count_ranges [] total i = ok (int_of total, false) i
count_ranges (r ∷ ranges) total i = bind (check_ctx i) λ _ j. elim (source_range_count r.0) [
  | none ↦ ok (pos 0, true) j
  | some count ↦ count_ranges ranges ((total + count) % 2 ^ 64) j
]

unfoldable pub count_unless : List (List ℕ × Unit {0}) × Bool → Parser (ℤ × Bool)
unfolding count_ranges
count_unless (ranges, true) i = ok (pos 0, true) i
count_unless (ranges, false) i = count_ranges ranges 0 i

unfoldable pub scan_value : Token → Parser (ℤ × Bool)
unfolding scan_from count_unless
scan_value null i = ok (pos 0, false) i
scan_value open_object i =
    bind (scan_from (suc (length i.ahead)) [] false i)
      λ scanned j. bind (parser_token j) λ _ k. count_unless scanned k
scan_value t i = bind (skip_token t 1 i) λ _ j. ok (pos 0, true) j

unfoldable pub scan_episode_ranges : Parser (ℤ × Bool)
unfolding scan_value
scan_episode_ranges = do t ← parser_token; scan_value t

-- `err` is whether there is an error.
pub record TargetSummary : Type 0 where
  pub id : ℤ
  pub episodes : ℤ
  pub is_s1 : Bool
  pub err : Bool

-- The number and the scope of a descriptor "tvdb_show:<id>:<scope>".
unfoldable pub descriptor_parts : Option ℕ → List ℕ → Bool → Option (ℕ × Bool)
descriptor_parts (some id) scope true = some (id, codes_eq scope (codes "s1"))
descriptor_parts (some id) scope false = none
descriptor_parts none scope found = none

unfoldable pub target_of : List ℕ → Option (ℕ × Bool)
unfolding descriptor_parts cut_prefix cut atoi above_zero
target_of descriptor = elim (cut_prefix (codes "tvdb_show:") descriptor) [
  | none ↦ none
  | some rest ↦
      let (raw_id, scope, found) = cut b':' rest in
      descriptor_parts (above_zero (atoi raw_id)) scope found
]

abbrev pub summary : ℕ × Bool → ℤ × Bool → TargetSummary
summary (id, is_s1) (episodes, err) = record {
  id = pos id;
  episodes = episodes;
  is_s1 = is_s1;
  err = err;
}

abbrev pub Summaries : Type 0
Summaries = List (List ℕ × TargetSummary)

-- One descriptor of the loop.
unfoldable pub read_target : List ℕ → Summaries → Parser Summaries
unfolding target_of skip_value scan_episode_ranges
read_target descriptor summaries i = elim (target_of descriptor) [
  | none ↦ bind (skip_value 1 i) λ _ j. ok summaries j
  | some target ↦
      bind (scan_episode_ranges i)
        λ scanned j. ok (insert codes_discrete descriptor (summary target scanned) summaries) j
]

unfoldable pub targets_from : ℕ → Summaries → Parser Summaries
unfolding read_target
targets_from zero summaries i = out_of_fuel
targets_from (suc fuel) summaries i = elim (more i) [
  | false ↦ ok summaries i
  | true ↦ bind (parser_token i) λ t i. bind (as_string t i) λ descriptor i.
      bind (read_target descriptor summaries i) λ summaries i. targets_from fuel summaries i
]

unfoldable pub no_target : TargetSummary
no_target = record { id = pos 0; episodes = negsuc 0; is_s1 = false; err = false }

unfoldable pub has_more : TargetSummary → TargetSummary → Bool
has_more best candidate =
    ltb_ℤ best.episodes candidate.episodes
    || (eqb_ℤ candidate.episodes best.episodes && ltb_ℤ candidate.id best.id)

-- Whether a candidate takes the place of the best one so far.
unfoldable pub beats : TargetSummary → TargetSummary → Bool
unfolding has_more
beats best candidate =
    if xor candidate.is_s1 best.is_s1 then candidate.is_s1 else has_more best candidate

unfoldable pub better : TargetSummary → TargetSummary → TargetSummary
better best candidate = if beats best candidate then candidate else best

unfoldable pub choose_from : Summaries → TargetSummary → Parser TargetSummary
unfolding better
choose_from [] best i = ok best i
choose_from (s ∷ summaries) best i =
    bind (check_ctx i)
      λ _ j. if s.1.err then failed bad_episodes else choose_from summaries (better best s.1) j

-- `best.id, best.id > 0`
unfoldable pub found_id : TargetSummary → Option ℤ
found_id best = if ltb_ℤ (pos 0) best.id then some best.id else none

unfoldable pub targets_of : Token → Parser (Option ℤ)
unfolding targets_from choose_from no_target found_id
targets_of null i = ok none i
targets_of open_object i = bind (targets_from (suc (length i.ahead)) [] i) λ summaries j.
    bind (parser_token j)
      λ _ k. bind (choose_from summaries no_target k) λ best l. ok (found_id best) l
targets_of t i = failed bad_targets

unfoldable pub extract_tvdb : Parser (Option ℤ)
unfolding targets_of
extract_tvdb = do t ← parser_token; targets_of t
