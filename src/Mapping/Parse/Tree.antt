-- ===== src/Mapping/Parse/Tree.antt =====
-- JSON values as trees, the tokens that encoding/json reads a tree as, and the meaning of an anibridge
-- document as a function of its tree: what internal/mapping/parse.go has to compute token by token.
use sonarr_anime_bridge.Prelude.{
  ℕ, suc, ◌+◌, ◌%◌, ◌^◌, max, Bool, true, false, ◌||◌, List, [], ◌∷◌, Option, none, some,
  if◌then◌else◌, insert, ℤ, pos, codes_discrete,
}
use sonarr_anime_bridge.Mapping.{AnibridgeMapping}
use sonarr_anime_bridge.Mapping.Parse.Json.{
  Token, Frame, Input, Parsed, ok, failed, in_array, at_key, open_object, close_object, open_array,
  close_array, ParseError, bad_targets, bad_episodes, after_value,
}
use sonarr_anime_bridge.Mapping.Parse.Ranges.{atoi, above_zero, source_range_count}
use sonarr_anime_bridge.Mapping.Parse.Targets.{
  int_of, target_of, summary, Summaries, TargetSummary, better, no_target, found_id,
}
use sonarr_anime_bridge.Mapping.Parse.Document.{Side, key_side, store}

mutual
  pub data Value : Type 0 where
    null : Value
    bool : Bool → Value
    number : List ℕ → Value
    text : List ℕ → Value
    array : Items → Value
    object : Fields → Value

  pub data Items : Type 0 where
    no_items : Items
    item : Value → Items → Items

  pub data Fields : Type 0 where
    no_fields : Fields
    field : List ℕ → Value → Fields → Fields

unfoldable pub first : Value → Token
first null = Token.null
first (bool b) = Token.bool b
first (number n) = Token.number n
first (text s) = Token.text s
first (array xs) = open_array
first (object fs) = open_object

-- The tokens of a value after its first, before what follows the value.
unfoldable mutual
  pub body : Value → List Token → List Token
  body (array xs) rest = body_items xs (close_array ∷ rest)
  body (object fs) rest = body_fields fs (close_object ∷ rest)
  body null rest = rest
  body (bool b) rest = rest
  body (number n) rest = rest
  body (text s) rest = rest

  pub body_items : Items → List Token → List Token
  body_items no_items rest = rest
  body_items (item v xs) rest = first v ∷ body v (body_items xs rest)

  pub body_fields : Fields → List Token → List Token
  body_fields no_fields rest = rest
  body_fields (field k v fs) rest = Token.text k ∷ first v ∷ body v (body_fields fs rest)

-- The number of tokens after the first.
unfoldable mutual
  pub size : Value → ℕ
  size (array xs) = size_items xs + 1
  size (object fs) = size_fields fs + 1
  size null = 0
  size (bool b) = 0
  size (number n) = 0
  size (text s) = 0

  pub size_items : Items → ℕ
  size_items no_items = 0
  size_items (item v xs) = size_items xs + size v + 1

  pub size_fields : Fields → ℕ
  size_fields no_fields = 0
  size_fields (field k v fs) = size_fields fs + size v + 2

-- How deep containers are nested.
unfoldable mutual
  pub depth : Value → ℕ
  depth (array xs) = suc (depth_items xs)
  depth (object fs) = suc (depth_fields fs)
  depth null = 0
  depth (bool b) = 0
  depth (number n) = 0
  depth (text s) = 0

  pub depth_items : Items → ℕ
  depth_items no_items = 0
  depth_items (item v xs) = max (depth v) (depth_items xs)

  pub depth_fields : Fields → ℕ
  depth_fields no_fields = 0
  depth_fields (field k v fs) = max (depth v) (depth_fields fs)

-- The open containers after the first token of a value.
unfoldable pub frames_in : Value → List Frame → List Frame
frames_in (array xs) fs = in_array ∷ fs
frames_in (object members) fs = at_key ∷ fs
frames_in null fs = after_value fs
frames_in (bool b) fs = after_value fs
frames_in (number n) fs = after_value fs
frames_in (text s) fs = after_value fs

-- A reader under a context that does not end.
abbrev pub reader : Bool → List Token → List Frame → Input
reader malformed ahead frames = record {
  ctx = none;
  ahead = ahead;
  malformed = malformed;
  frames = frames;
}

pub data Outcome {ℓ} (A : Type ℓ) : Type ℓ where
  value : A → Outcome A
  error : ParseError → Outcome A

abbrev pub is_bad_value : Value → Bool
is_bad_value null = false
is_bad_value (text s) = false
is_bad_value v = true

unfoldable pub range_set : Fields → List (List ℕ × Unit {0}) → List (List ℕ × Unit {0})
range_set no_fields ranges = ranges
range_set (field k v fs) ranges = range_set fs (insert codes_discrete k tt ranges)

unfoldable pub has_bad_value : Fields → Bool → Bool
has_bad_value no_fields bad = bad
has_bad_value (field k v fs) bad = has_bad_value fs (is_bad_value v || bad)

unfoldable pub sum_ranges : List (List ℕ × Unit {0}) → ℕ → ℤ × Bool
sum_ranges [] total = (int_of total, false)
sum_ranges (r ∷ ranges) total = elim (source_range_count r.0) [
  | none ↦ (pos 0, true)
  | some count ↦ sum_ranges ranges ((total + count) % 2 ^ 64)
]

-- The episodes of a target, and whether they could not be counted.
unfoldable pub episodes_of : Value → ℤ × Bool
unfolding range_set has_bad_value sum_ranges
episodes_of null = (pos 0, false)
episodes_of (object fs) =
    if has_bad_value fs false then (pos 0, true) else sum_ranges (range_set fs []) 0
episodes_of v = (pos 0, true)

unfoldable pub add_summary : List ℕ → Value → Summaries → Summaries
unfolding target_of episodes_of
add_summary descriptor v summaries = elim (target_of descriptor) [
  | none ↦ summaries
  | some target ↦ insert codes_discrete descriptor (summary target (episodes_of v)) summaries
]

unfoldable pub summaries_of : Fields → Summaries → Summaries
unfolding add_summary
summaries_of no_fields summaries = summaries
summaries_of (field k v fs) summaries = summaries_of fs (add_summary k v summaries)

unfoldable pub best_of : Summaries → TargetSummary → Outcome TargetSummary
best_of [] best = value best
best_of (s ∷ summaries) best =
    if s.1.err then error bad_episodes else best_of summaries (better best s.1)

abbrev pub then_found : Outcome TargetSummary → Outcome (Option ℤ)
then_found (value best) = value (found_id best)
then_found (error e) = error e

-- The TVDB number of the targets of one entry.
unfoldable pub tvdb_of : Value → Outcome (Option ℤ)
unfolding summaries_of best_of found_id
tvdb_of null = value none
tvdb_of (object fs) = then_found (best_of (summaries_of fs []) no_target)
tvdb_of v = error bad_targets

abbrev pub then_store : Side → ℕ → AnibridgeMapping → Outcome (Option ℤ) → Outcome AnibridgeMapping
then_store side id m (value tvdb_id) = value (store side (pos id) tvdb_id m)
then_store side id m (error e) = error e

abbrev pub add_targets : Side → Option ℕ → Value → AnibridgeMapping → Outcome AnibridgeMapping
add_targets side none v m = value m
add_targets side (some id) v m = then_store side id m (tvdb_of v)

-- One property of the root.
unfoldable pub add_property : List ℕ → Value → AnibridgeMapping → Outcome AnibridgeMapping
unfolding key_side tvdb_of store
add_property key v m = elim (key_side key) [
  | none ↦ value m
  | some (side, raw_id) ↦ add_targets side (above_zero (atoi raw_id)) v m
]

abbrev pub and_then {ℓ κ} : {A : Type ℓ} {B : Type κ} → Outcome A → (A → Outcome B) → Outcome B
and_then (value a) f = f a
and_then (error e) f = error e

-- The mapping of a document whose root has these properties.
unfoldable pub decode : Fields → AnibridgeMapping → Outcome AnibridgeMapping
unfolding add_property
decode no_fields m = value m
decode (field k v fs) m = and_then (add_property k v m) (decode fs)

-- The result of a parser that computes an outcome and stops there.
abbrev pub as_parsed {ℓ} : {A : Type ℓ} → Outcome A → Input → Parsed A
as_parsed (value a) i = ok a i
as_parsed (error e) i = failed e
