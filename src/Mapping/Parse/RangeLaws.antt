-- ===== src/Mapping/Parse/RangeLaws.antt =====
-- `sourceRangeCount` (internal/mapping/parse.go) on every form of a range.
use sonarr_anime_bridge.Prelude.{
  ℕ, suc, ◌+◌, ◌-◌, ◌≡◌, refl, Bool, true, false, not, List, [], ◌∷◌, ◌++◌, Option, none, some, leb,
  ◌==◌, if◌then◌else◌, pos, arith, all, ◌∙◌,
}
use sonarr_anime_bridge.Mapping.Parse.Ranges.{cut, atoi, above_zero, count_from, source_range_count}

abbrev pub has_no : ℕ → List ℕ → Bool
has_no sep s = all (λ c. not (c == sep)) s

cut-append : (sep : ℕ) (s t : List ℕ) → has_no sep s ≡ true → cut sep (s ++ sep ∷ t) ≡ (s, t, true)
unfolding cut
cut-append sep [] t h = ground arith
cut-append sep (c ∷ s) t h = ground (arith, cut-append sep s t)

cut_whole : (sep : ℕ) (s : List ℕ) → has_no sep s ≡ true → cut sep s ≡ (s, [], false)
unfolding cut
cut_whole sep [] h = refl
cut_whole sep (c ∷ s) h = ground (arith, cut_whole sep s)

-- What the text after the dash of a range from `a` counts as.
abbrev pub episodes_to : ℕ → List ℕ → Option ℕ
episodes_to a [] = some 1
episodes_to a (c ∷ last) = elim (atoi (c ∷ last)) [
  | some (pos b) ↦ if leb a b then some (b - a + 1) else none
  | _ ↦ none
]

count_from-dash : (n : ℕ) (last : List ℕ) → count_from (some n) last true ≡ episodes_to n last
unfolding count_from
count_from-dash n [] = refl
count_from-dash n (c ∷ last) = ground arith

counted :
    (c : ℕ) (s first last : List ℕ) (has_end : Bool) (n : ℕ)
    → cut b'-' (c ∷ s) ≡ (first, last, has_end)
    → atoi first ≡ some (pos (suc n))
    → source_range_count (c ∷ s) ≡ count_from (some (suc n)) last has_end
unfolding source_range_count above_zero
counted c s first last has_end n p e = rw (p, e) refl

-- A range that starts with a number above 0: alone it counts one episode, and so does "a-"; "a-b" counts
-- the episodes from a to b, and is refused if b is below a or no number.
pub source_range_count_lem :
    (c : ℕ) (start last : List ℕ) (n : ℕ)
    → has_no b'-' (c ∷ start) ≡ true
    → atoi (c ∷ start) ≡ some (pos (suc n))
    → (source_range_count (c ∷ start) ≡ some 1)
      × (source_range_count ((c ∷ start) ++ b'-' ∷ last) ≡ episodes_to (suc n) last)
source_range_count_lem c start last n h e = (
  counted c start (c ∷ start) [] false n (cut_whole b'-' (c ∷ start) h) e
      ∙ unfold count_from in refl,
  counted c (start ++ b'-' ∷ last) (c ∷ start) last true n (cut-append b'-' (c ∷ start) last h) e
      ∙ count_from-dash (suc n) last,
)
