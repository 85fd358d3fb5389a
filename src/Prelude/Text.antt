-- ===== src/Prelude/Text.antt =====
-- Text: whole texts are compared by the library's Boolean test; where the program walks a text it is
-- the list of its code points.
use Prim.Native.Nat.{ℕ}
use Prim.Native.Char.{code}
use Prim.Native.String.{String}
use mathlib.Core.List.{List, [], ◌∷◌}
use mathlib.Core.Path.{◌≡◌, refl, ap}
use mathlib.Core.Bool.{Bool, true, false, ◌&&◌}
use native.Mathlib.Omega.{arith}
use sonarr_anime_bridge.Prelude.Tests.{◌==◌}
pub use text.Mathlib.Text.{◌==◌ as str_eq}
pub use text.Mathlib.TextEquality.{eq_iff as str_eq_iff}

abbrev pub codes : String → List ℕ
codes String.[] = []
codes (String.◌∷◌ c s) = code c ∷ codes s

-- Equality of two texts, or of two byte slices.
abbrev pub codes_eq : List ℕ → List ℕ → Bool
codes_eq [] [] = true
codes_eq (a ∷ s) (b ∷ t) = a == b && codes_eq s t
codes_eq [] (b ∷ t) = false
codes_eq (a ∷ s) [] = false

pub codes_eq→eq : (s t : List ℕ) → codes_eq s t ≡ true → s ≡ t
codes_eq→eq [] [] h = refl
codes_eq→eq (a ∷ s) (b ∷ t) h = ground (arith, codes_eq→eq s t)
codes_eq→eq [] (b ∷ t) h = cc
codes_eq→eq (a ∷ s) [] h = cc

pub codes_eq_refl : (s : List ℕ) → codes_eq s s ≡ true
codes_eq_refl [] = refl
codes_eq_refl (a ∷ s) = ground (arith, codes_eq_refl s)

decide_codes : (s t : List ℕ) (b : Bool) → codes_eq s t ≡ b → Dec (s ≡ t)
decide_codes s t true h = yes (codes_eq→eq s t h)
decide_codes s t false h = no (λ e. cc (h, ap (codes_eq s) e, codes_eq_refl s))

unfoldable pub codes_discrete : Discrete (List ℕ)
unfolding decide_codes
codes_discrete s t = decide_codes s t (codes_eq s t) refl
