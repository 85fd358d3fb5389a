-- ===== src/Mapping/Parse/Settles/Targets.antt =====
-- The loops over the targets of an entry (internal/mapping/parse.go) settle on any input: each round
-- reads a token, and each value is left behind whole.
use sonarr_anime_bridge.Prelude.{
  ℕ, zero, suc, ◌≤◌, ◌<◌, ◌≡◌, refl, Bool, true, false, List, [], ◌∷◌, some, length, arith,
  Bool-cases, Option-cases, inl, inr, ap, ◌∙◌, ℤ, pos,
}
use sonarr_anime_bridge.Mapping.Parse.Json.{
  Token, Frame, Input, Parsed, at_key, at_value, open_object, close_object, open_array, close_array,
  null, bool, number, text, ok, after_value, accept, more, bind,
}
use sonarr_anime_bridge.Mapping.Parse.Targets.{
  skip_token, scan_from, count_ranges, count_unless, scan_value, scan_episode_ranges, read_target,
  targets_from, choose_from, targets_of, extract_tvdb, Summaries, TargetSummary, target_of,
}
use sonarr_anime_bridge.Mapping.Parse.Ranges.{source_range_count}
use sonarr_anime_bridge.Mapping.Parse.Settles.{
  Settles, holds, refused, Settles-bind, Settles-map, check_ctx-Settles,
}
use sonarr_anime_bridge.Mapping.Parse.Settles.Places.{
  Left, closed_lem, skip_token-Settles, value_token, skip_value-Settles, key_token, close_token,
}

-- A loop over an object has ended.
abbrev pub Ended {ℓ} : {A : Type ℓ} → List Frame → ℕ → A → Input → Type 0
Ended gs n a j = (j.frames ≡ at_key ∷ gs) × (length j.ahead ≤ n) × (more j ≡ false)

scan_from-Settles :
    (f : ℕ) (ranges : List (List ℕ × Unit {0})) (bad : Bool) (i : Input) (gs : List Frame)
    → i.frames ≡ at_key ∷ gs
    → length i.ahead < f
    → Settles (Ended gs (length i.ahead)) (scan_from f ranges bad i)
unfolding scan_from
scan_from-Settles zero ranges bad i gs place l = absurd (omega arith)
scan_from-Settles (suc f) ranges bad i gs place l = elim (Bool-cases (more i)) [
  | inr m ↦ rw (m, scan_from) (holds (place, omega arith, m))
  | inl m ↦
      rw (m, scan_from)
        (key_token gs i place m λ key j fs e. value_token gs j fs λ t k a e'.
          Settles-bind (skip_token-Settles t 2 k gs a) λ _ o (p, l').
            Settles-map (scan_from-Settles f _ _ o gs p (omega arith))
              λ _ o' (q, l'', m'). (q, omega arith, m'))
]

-- What follows the end of the loop over an object, at a value of an object.
module _ (gs : List Frame) (n : ℕ) where
  count_ranges-Settles :
      (ranges : List (List ℕ × Unit {0})) (total : ℕ) (i : Input)
      → (i.frames ≡ at_key ∷ gs) × (length i.ahead ≤ n)
      → Settles (Left gs n) (count_ranges ranges total i)
  unfolding count_ranges
  count_ranges-Settles [] total i h = holds h
  count_ranges-Settles (r ∷ ranges) total i (p, l) =
      Settles-bind (check_ctx-Settles i) λ _ j (h, g, _).
        elim (Option-cases (source_range_count r.0)) [
          | inl e ↦ rw e (holds (g ∙ p, omega (arith, ap length h)))
          | inr (count, e) ↦
              rw e (count_ranges-Settles ranges _ j (g ∙ p, omega (arith, ap length h)))
        ]

  choose_from-Settles :
      (summaries : Summaries) (best : TargetSummary) (i : Input)
      → (i.frames ≡ at_key ∷ gs) × (length i.ahead ≤ n)
      → Settles (Left gs n) (choose_from summaries best i)
  unfolding choose_from
  choose_from-Settles [] best i h = holds h
  choose_from-Settles (s ∷ summaries) best i (p, l) =
      Settles-bind (check_ctx-Settles i) λ _ j (h, g, _). elim (Bool-cases s.1.err) [
        | inl e ↦ rw e refused
        | inr e ↦ rw e (choose_from-Settles summaries _ j (g ∙ p, omega (arith, ap length h)))
      ]

count_unless-Settles :
    (scanned : List (List ℕ × Unit {0}) × Bool) (gs : List Frame) (i : Input)
    → i.frames ≡ at_key ∷ gs
    → Settles (Left gs (length i.ahead)) (count_unless scanned i)
unfolding count_unless
count_unless-Settles (ranges, true) gs i p = holds (p, omega arith)
count_unless-Settles (ranges, false) gs i p = count_ranges-Settles gs _ ranges 0 i (p, omega arith)

-- The frames after `{` at a value of an object.
pub opened_lem :
    (fs gs : List Frame)
    → accept open_object (at_value ∷ gs) ≡ some fs
    → fs ≡ at_key ∷ at_value ∷ gs
unfolding accept
opened_lem fs gs a = cc

abbrev bad_value : Input → Parsed (ℤ × Bool)
bad_value j = ok (pos 0, true) j

scan_bad-Settles :
    (t : Token) (i : Input) (gs : List Frame)
    → accept t (at_value ∷ gs) ≡ some i.frames
    → Settles (Left gs (length i.ahead)) (bind (skip_token t 1 i) λ _ j. bad_value j)
scan_bad-Settles t i gs a = Settles-bind (skip_token-Settles t 1 i gs a) λ _ j h. holds h

scan_value-Settles :
    (t : Token) (i : Input) (gs : List Frame)
    → accept t (at_value ∷ gs) ≡ some i.frames
    → Settles (Left gs (length i.ahead)) (scan_value t i)
unfolding scan_value after_value
scan_value-Settles null i gs a = holds (closed_lem null _ gs a refl, omega arith)
scan_value-Settles open_object i gs a =
    Settles-bind
      (scan_from-Settles (suc (length i.ahead)) [] false i (at_value ∷ gs) (opened_lem _ gs a)
        (omega arith))
      λ scanned j (p, l, m). close_token (at_value ∷ gs) j p m λ _ k q e.
        Settles-map (count_unless-Settles scanned gs k q) λ _ o (q', l'). (q', omega arith)
scan_value-Settles close_object i gs a = scan_bad-Settles close_object i gs a
scan_value-Settles open_array i gs a = scan_bad-Settles open_array i gs a
scan_value-Settles close_array i gs a = scan_bad-Settles close_array i gs a
scan_value-Settles (bool b) i gs a = scan_bad-Settles (bool b) i gs a
scan_value-Settles (number n) i gs a = scan_bad-Settles (number n) i gs a
scan_value-Settles (text s) i gs a = scan_bad-Settles (text s) i gs a

scan_episode_ranges-Settles :
    (i : Input) (gs : List Frame)
    → i.frames ≡ at_value ∷ gs
    → Settles (Left gs (length i.ahead)) (scan_episode_ranges i)
unfolding scan_episode_ranges
scan_episode_ranges-Settles i gs p =
    value_token gs i p
      λ t j a e. Settles-map (scan_value-Settles t j gs a) λ _ k (q, l). (q, omega arith)

read_target-Settles :
    (descriptor : List ℕ) (summaries : Summaries) (i : Input) (gs : List Frame)
    → i.frames ≡ at_value ∷ gs
    → Settles (Left gs (length i.ahead)) (read_target descriptor summaries i)
unfolding read_target
read_target-Settles descriptor summaries i gs p = elim (Option-cases (target_of descriptor)) [
  | inl e ↦ rw e (Settles-bind (skip_value-Settles gs i p 1) λ _ j h. holds h)
  | inr (target, e) ↦ rw e (Settles-bind (scan_episode_ranges-Settles i gs p) λ _ j h. holds h)
]

targets_from-Settles :
    (f : ℕ) (summaries : Summaries) (i : Input) (gs : List Frame)
    → i.frames ≡ at_key ∷ gs
    → length i.ahead < f
    → Settles (Ended gs (length i.ahead)) (targets_from f summaries i)
unfolding targets_from
targets_from-Settles zero summaries i gs place l = absurd (omega arith)
targets_from-Settles (suc f) summaries i gs place l = elim (Bool-cases (more i)) [
  | inr m ↦ rw (m, targets_from) (holds (place, omega arith, m))
  | inl m ↦
      rw (m, targets_from)
        (key_token gs i place m λ key j fs e.
          Settles-bind (read_target-Settles key summaries j gs fs) λ _ o (p, l').
            Settles-map (targets_from-Settles f _ o gs p (omega arith))
              λ _ o' (q, l'', m'). (q, omega arith, m'))
]

targets_of-Settles :
    (t : Token) (i : Input) (gs : List Frame)
    → accept t (at_value ∷ gs) ≡ some i.frames
    → Settles (Left gs (length i.ahead)) (targets_of t i)
unfolding targets_of after_value
targets_of-Settles null i gs a = holds (closed_lem null _ gs a refl, omega arith)
targets_of-Settles open_object i gs a =
    Settles-bind
      (targets_from-Settles (suc (length i.ahead)) [] i (at_value ∷ gs) (opened_lem _ gs a)
        (omega arith))
      λ summaries j (p, l, m). close_token (at_value ∷ gs) j p m λ _ k q e.
        Settles-bind (choose_from-Settles gs _ summaries _ k (q, omega arith)) λ _ o h. holds h
targets_of-Settles _ i gs a = refused

-- The targets of an entry are read to their end, or refused.
pub extract_tvdb-Settles :
    (i : Input) (gs : List Frame)
    → i.frames ≡ at_value ∷ gs
    → Settles (Left gs (length i.ahead)) (extract_tvdb i)
unfolding extract_tvdb
extract_tvdb-Settles i gs p =
    value_token gs i p
      λ t j a e. Settles-map (targets_of-Settles t j gs a) λ _ k (q, l). (q, omega arith)
