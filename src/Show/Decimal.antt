-- ===== src/Show/Decimal.antt =====
-- `%d` of `fmt.Sprintf`, for `DisplayTitle` (internal/anilist/anilist.go).
use Prim.Native.String.{◌++◌ as append}
use sonarr_anime_bridge.Prelude.{
  ℕ, zero, suc, ◌/◌, ◌%◌, ◌==◌, ltb, if◌then◌else◌, ℤ, pos, negsuc, String,
}

digit : ℕ → String
digit n =
    if n == 0
    then "0"
    else if n == 1
    then "1"
    else if n == 2
    then "2"
    else if n == 3
    then "3"
    else if n == 4
    then "4"
    else if n == 5
    then "5"
    else if n == 6
    then "6"
    else if n == 7
    then "7"
    else if n == 8
    then "8"
    else "9"

-- A number has fewer digits than `suc` of it, so that much fuel is enough.
digits_from : ℕ → ℕ → String → String
unfolding digit
digits_from zero n out = out
digits_from (suc fuel) n out =
    let rest = digits_from fuel (n / 10) (append (digit (n % 10)) out) in
    if ltb n 10 then append (digit n) out else rest

unfoldable pub decimal : ℤ → String
unfolding digits_from
decimal (pos n) = digits_from (suc n) n ""
decimal (negsuc n) = append "-" (digits_from (suc (suc n)) (suc n) "")
