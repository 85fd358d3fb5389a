-- ===== src/Mapping/Parse/Ranges.antt =====
-- `sourceRangeCount` of internal/mapping/parse.go, with the functions of strings and strconv that it
-- and its callers use.
use sonarr_anime_bridge.Prelude.{
  ℕ, zero, suc, ◌+◌, ◌-◌, ◌*◌, ◌^◌, Bool, true, false, ◌&&◌, List, [], ◌∷◌, Option, none, some, ltb,
  leb, ◌==◌, if◌then◌else◌, ℤ, pos, negsuc,
}

-- `strings.CutPrefix`
unfoldable pub cut_prefix : List ℕ → List ℕ → Option (List ℕ)
cut_prefix [] s = some s
cut_prefix (c ∷ prefix) [] = none
cut_prefix (c ∷ prefix) (d ∷ s) = if c == d then cut_prefix prefix s else none

-- `strings.Cut` at one character.
unfoldable pub cut : ℕ → List ℕ → List ℕ × List ℕ × Bool
cut sep [] = ([], [], false)
cut sep (c ∷ s) =
    let (before, after, found) = cut sep s in
    if c == sep then ([], s, true) else (c ∷ before, after, found)

-- `strconv.Atoi`: a sign or none, at least one digit, and a value of 64 bits.
unfoldable pub digits : ℕ → List ℕ → Option ℕ
digits n [] = some n
digits n (c ∷ s) = if leb b'0' c && leb c b'9' then digits (10 * n + (c - b'0')) s else none

unfoldable pub magnitude : List ℕ → Option ℕ
unfolding digits
magnitude [] = none
magnitude (c ∷ s) = digits 0 (c ∷ s)

unfoldable pub positive : Option ℕ → Option ℤ
positive none = none
positive (some n) = if ltb n (2 ^ 63) then some (pos n) else none

unfoldable pub negative : Option ℕ → Option ℤ
negative none = none
negative (some zero) = some (pos 0)
negative (some (suc n)) = if ltb n (2 ^ 63) then some (negsuc n) else none

unfoldable pub atoi : List ℕ → Option ℤ
unfolding magnitude positive negative
atoi [] = none
atoi (c ∷ s) =
    if c == b'-'
    then negative (magnitude s)
    else if c == b'+'
    then positive (magnitude s)
    else positive (magnitude (c ∷ s))

-- A number that is above 0.
unfoldable pub above_zero : Option ℤ → Option ℕ
above_zero none = none
above_zero (some (pos zero)) = none
above_zero (some (pos (suc n))) = some (suc n)
above_zero (some (negsuc n)) = none

-- The episodes of a range from `start` to an end.
unfoldable pub count_to : ℕ → Option ℤ → Option ℕ
count_to start none = none
count_to start (some (pos end)) = if ltb end start then none else some (end - start + 1)
count_to start (some (negsuc n)) = none

unfoldable pub count_from : Option ℕ → List ℕ → Bool → Option ℕ
unfolding count_to
count_from none last has_end = none
count_from (some start) last false = some 1
count_from (some start) [] true = some 1
count_from (some start) (c ∷ last) true = count_to start (atoi (c ∷ last))

unfoldable pub source_range_count : List ℕ → Option ℕ
unfolding count_from
source_range_count [] = none
source_range_count (c ∷ range) =
    let (first, last, has_end) = cut b'-' (c ∷ range) in
    count_from (above_zero (atoi first)) last has_end
