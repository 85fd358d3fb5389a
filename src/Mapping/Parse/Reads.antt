-- ===== src/Mapping/Parse/Reads.antt =====
-- What the loops of internal/mapping/parse.go read from the tokens of a tree is what Tree says that
-- the tree means.
use sonarr_anime_bridge.Prelude.{
  ℕ, zero, suc, ◌+◌, ◌≤◌, ◌<◌, ◌≡◌, refl, Bool, true, false, List, [], ◌∷◌, length, arith,
  if◌then◌else◌, ℤ, pos, insert, Bool-cases, Option-cases, inl, inr,
}
use sonarr_anime_bridge.Mapping.Parse.Json.{
  Token, Frame, Input, Parsed, at_key, at_value, close_object, ok, after_value, accept,
  parser_token, bind, more, as_string, check_ctx,
}
use sonarr_anime_bridge.Mapping.Parse.Ranges.{source_range_count}
use sonarr_anime_bridge.Mapping.Parse.Targets.{
  is_bad_destination, scan_from, count_ranges, count_unless, scan_value, read_target, targets_from,
  choose_from, targets_of, extract_tvdb, Summaries, TargetSummary, target_of, found_id, no_target,
}
use sonarr_anime_bridge.Mapping.Parse.Tree.{
  Value, Fields, null, bool, number, text, array, object, no_fields, field, first, body,
  body_fields, size, size_fields, depth, depth_fields, frames_in, reader, Outcome, value, error,
  is_bad_value, as_parsed, then_found, range_set, has_bad_value, sum_ranges, episodes_of,
  add_summary, summaries_of, best_of, tvdb_of,
}
use sonarr_anime_bridge.Mapping.Parse.Skip.{
  wants_value, accept-first, parser_token_lem, length-body_fields, skip_token-first,
  skip_value-first,
}

first-is_bad : (v : Value) → is_bad_destination (first v) ≡ is_bad_value v
unfolding first
first-is_bad null = refl
first-is_bad (bool _) = refl
first-is_bad (number _) = refl
first-is_bad (text _) = refl
first-is_bad (array _) = refl
first-is_bad (object _) = refl

-- The reading of a value's first token.
pub read_first :
    (v : Value) (b : Bool) (rest : List Token) (fs : List Frame)
    → wants_value fs ≡ true
    → parser_token (reader b (first v ∷ body v rest) fs)
      ≡ ok (first v) (reader b (body v rest) (frames_in v fs))
read_first v b rest fs w = parser_token_lem b _ _ fs _ (accept-first v fs w)

-- The reading of a key.
pub read_key :
    (k : List ℕ) (b : Bool) (rest : List Token) (fs : List Frame)
    → parser_token (reader b (Token.text k ∷ rest) (at_key ∷ fs))
      ≡ ok (Token.text k) (reader b rest (at_value ∷ fs))
unfolding accept
read_key k b rest fs = parser_token_lem b _ _ _ _ refl

-- The reading of the end of an object.
pub read_close :
    (b : Bool) (rest : List Token) (fs : List Frame)
    → parser_token (reader b (close_object ∷ rest) (at_key ∷ fs))
      ≡ ok close_object (reader b rest (after_value fs))
unfolding accept
read_close b rest fs = parser_token_lem b _ _ _ _ refl

scan_from-fields :
    (ms : Fields) (b : Bool) (f : ℕ) (ranges : List (List ℕ × Unit {0})) (bad : Bool)
    (rest : List Token) (fs : List Frame)
    → size_fields ms < f
    → depth_fields ms + 2 ≤ 10000
    → scan_from f ranges bad (reader b (body_fields ms (close_object ∷ rest)) (at_key ∷ fs))
      ≡ ok
          (range_set ms ranges, has_bad_value ms bad)
          (reader b (close_object ∷ rest) (at_key ∷ fs))
unfolding scan_from more as_string insert body size depth range_set has_bad_value after_value
scan_from-fields ms b zero ranges bad rest fs h d = absurd (omega arith)
scan_from-fields no_fields b (suc f) ranges bad rest fs h d = refl
scan_from-fields (field k v ms) b (suc f) ranges bad rest fs h d =
    rw
      (
        read_key k b (first v ∷ body v (body_fields ms (close_object ∷ rest))) fs,
        read_first v b (body_fields ms (close_object ∷ rest)) (at_value ∷ fs) refl,
        skip_token-first v b 2 (body_fields ms (close_object ∷ rest)) (at_value ∷ fs)
            (omega (arith, d)),
        first-is_bad v,
      )
      (scan_from-fields ms b f _ _ rest fs (omega (arith, h)) (omega (arith, d)))

count_ranges-sum :
    (ranges : List (List ℕ × Unit {0})) (total : ℕ) (b : Bool) (ts : List Token) (fs : List Frame)
    → count_ranges ranges total (reader b ts fs) ≡ ok (sum_ranges ranges total) (reader b ts fs)
unfolding count_ranges sum_ranges check_ctx
count_ranges-sum [] total b ts fs = refl
count_ranges-sum (r ∷ ranges) total b ts fs = elim (Option-cases (source_range_count r.0)) [
  | inl e ↦ rw (e, sum_ranges) refl
  | inr (count, e) ↦ rw (e, sum_ranges) (count_ranges-sum ranges _ b ts fs)
]

count_unless-sum :
    (ranges : List (List ℕ × Unit {0})) (bad : Bool) (b : Bool) (ts : List Token) (fs : List Frame)
    → count_unless (ranges, bad) (reader b ts fs)
      ≡ ok (if bad then (pos 0, true) else sum_ranges ranges 0) (reader b ts fs)
unfolding count_unless
count_unless-sum ranges true b ts fs = refl
count_unless-sum ranges false b ts fs = count_ranges-sum ranges 0 b ts fs

then_bad :
    {r : Parsed (Unit {0})} {i : Input}
    → r ≡ ok tt i
    → ◌≡◌ {A = Parsed (ℤ × Bool)} (bind r (λ _ j. ok (pos 0, true) j)) (ok (pos 0, true) i)
then_bad h = rw h refl

scan_value-first :
    (v : Value) (b : Bool) (rest : List Token) (fs : List Frame)
    → depth v + 1 ≤ 10000
    → scan_value (first v) (reader b (body v rest) (frames_in v fs))
      ≡ ok (episodes_of v) (reader b rest (after_value fs))
unfolding scan_value first body depth frames_in episodes_of
scan_value-first null b rest fs d = refl
scan_value-first (object ms) b rest fs d =
    rw
      (
        scan_from-fields ms b (suc (length (body_fields ms (close_object ∷ rest)))) [] false rest fs
            (omega (arith, length-body_fields ms (close_object ∷ rest))) (omega (arith, d)),
        read_close b rest fs,
      )
      (count_unless-sum _ _ b rest (after_value fs))
scan_value-first (bool c) b rest fs d = then_bad (skip_token-first (bool c) b 1 rest fs d)
scan_value-first (number n) b rest fs d = then_bad (skip_token-first (number n) b 1 rest fs d)
scan_value-first (text s) b rest fs d = then_bad (skip_token-first (text s) b 1 rest fs d)
scan_value-first (array xs) b rest fs d = then_bad (skip_token-first (array xs) b 1 rest fs d)

read_target-value :
    (k : List ℕ) (v : Value) (summaries : Summaries) (b : Bool) (rest : List Token)
    (fs : List Frame)
    → wants_value fs ≡ true
    → depth v + 1 ≤ 10000
    → read_target k summaries (reader b (first v ∷ body v rest) fs)
      ≡ ok (add_summary k v summaries) (reader b rest (after_value fs))
unfolding read_target add_summary
read_target-value k v summaries b rest fs w d = elim (Option-cases (target_of k)) [
  | inl e ↦ rw (e, skip_value-first v b 1 rest fs w d) refl
  | inr (target, e) ↦ rw (e, read_first v b rest fs w, scan_value-first v b rest fs d) refl
]

targets_from-fields :
    (ms : Fields) (b : Bool) (f : ℕ) (summaries : Summaries) (rest : List Token) (fs : List Frame)
    → size_fields ms < f
    → depth_fields ms + 1 ≤ 10000
    → targets_from f summaries (reader b (body_fields ms (close_object ∷ rest)) (at_key ∷ fs))
      ≡ ok (summaries_of ms summaries) (reader b (close_object ∷ rest) (at_key ∷ fs))
unfolding targets_from more as_string body size depth summaries_of after_value
targets_from-fields ms b zero summaries rest fs h d = absurd (omega arith)
targets_from-fields no_fields b (suc f) summaries rest fs h d = refl
targets_from-fields (field k v ms) b (suc f) summaries rest fs h d =
    rw
      (
        read_key k b (first v ∷ body v (body_fields ms (close_object ∷ rest))) fs,
        read_target-value k v summaries b (body_fields ms (close_object ∷ rest)) (at_value ∷ fs)
            refl (omega (arith, d)),
      )
      (targets_from-fields ms b f _ rest fs (omega (arith, h)) (omega (arith, d)))

pub choose_from-best :
    (summaries : Summaries) (best : TargetSummary) (b : Bool) (ts : List Token) (fs : List Frame)
    → choose_from summaries best (reader b ts fs)
      ≡ as_parsed (best_of summaries best) (reader b ts fs)
unfolding choose_from best_of check_ctx
choose_from-best [] best b ts fs = refl
choose_from-best (s ∷ summaries) best b ts fs = elim (Bool-cases s.1.err) [
  | inl e ↦ rw e refl
  | inr e ↦ rw e (choose_from-best summaries _ b ts fs)
]

found-then :
    (best : Outcome TargetSummary) (i : Input)
    → bind (as_parsed best i) (λ t j. ok (found_id t) j) ≡ as_parsed (then_found best) i
found-then (value best) i = refl
found-then (error e) i = refl

targets_of-first :
    (v : Value) (b : Bool) (rest : List Token) (fs : List Frame)
    → depth v ≤ 10000
    → targets_of (first v) (reader b (body v rest) (frames_in v fs))
      ≡ as_parsed (tvdb_of v) (reader b rest (after_value fs))
unfolding targets_of first body depth frames_in tvdb_of
targets_of-first null b rest fs d = refl
targets_of-first (object ms) b rest fs d =
    rw
      (
        targets_from-fields ms b (suc (length (body_fields ms (close_object ∷ rest)))) [] rest fs
            (omega (arith, length-body_fields ms (close_object ∷ rest))) (omega (arith, d)),
        read_close b rest fs,
        choose_from-best (summaries_of ms []) no_target b rest (after_value fs),
      )
      (found-then _ _)
targets_of-first (bool _) b rest fs d = refl
targets_of-first (number _) b rest fs d = refl
targets_of-first (text _) b rest fs d = refl
targets_of-first (array _) b rest fs d = refl

pub extract_tvdb-first :
    (v : Value) (b : Bool) (rest : List Token) (fs : List Frame)
    → wants_value fs ≡ true
    → depth v ≤ 10000
    → extract_tvdb (reader b (first v ∷ body v rest) fs)
      ≡ as_parsed (tvdb_of v) (reader b rest (after_value fs))
unfolding extract_tvdb
extract_tvdb-first v b rest fs w d = rw (read_first v b rest fs w) (targets_of-first v b rest fs d)
