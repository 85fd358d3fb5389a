-- ===== src/Prelude/Int.antt =====
-- Go's signed integers where they come from outside (identifiers, years, months, durations). The
-- program only compares them and counts months and days with them; 64-bit wrap-around is out of
-- reach of these.
use Prim.Native.Nat.{ℕ, suc, ◌+◌, ◌-◌, ◌≤◌}
use mathlib.Core.Path.{◌≡◌, ap}
use mathlib.Core.Bool.{Bool, ◌&&◌}
use native.Mathlib.Decide.{ℕ_discrete}
use sonarr_anime_bridge.Prelude.Tests.{ltb, leb, ◌==◌, if◌then◌else◌}

-- `negsuc n` is -(n + 1).
pub data ℤ : Type 0 where
  pos : ℕ → ℤ
  negsuc : ℕ → ℤ

abbrev pub pos_part : ℤ → ℕ
pos_part (pos n) = n
pos_part (negsuc n) = 0

abbrev pub neg_part : ℤ → ℕ
neg_part (pos n) = 0
neg_part (negsuc n) = suc n

abbrev pub sub_ℕ : ℕ → ℕ → ℤ
sub_ℕ a b = if leb b a then pos (a - b) else negsuc (b - a - 1)

infixl 65 ◌+ℤ◌ ◌-ℤ◌
infix 50 ◌≤ℤ◌
unfoldable pub ◌+ℤ◌ : ℤ → ℤ → ℤ
a +ℤ b = sub_ℕ (pos_part a + pos_part b) (neg_part a + neg_part b)

unfoldable pub ◌-ℤ◌ : ℤ → ℤ → ℤ
a -ℤ b = sub_ℕ (pos_part a + neg_part b) (neg_part a + pos_part b)

abbrev pub ◌≤ℤ◌ : ℤ → ℤ → Type 0
a ≤ℤ b = pos_part a + neg_part b ≤ pos_part b + neg_part a

abbrev pub ltb_ℤ : ℤ → ℤ → Bool
ltb_ℤ a b = ltb (pos_part a + neg_part b) (pos_part b + neg_part a)

abbrev pub leb_ℤ : ℤ → ℤ → Bool
leb_ℤ a b = leb (pos_part a + neg_part b) (pos_part b + neg_part a)

abbrev pub eqb_ℤ : ℤ → ℤ → Bool
eqb_ℤ a b = pos_part a == pos_part b && neg_part a == neg_part b

same_sign : (a b : ℕ) → Dec (a ≡ b) → Dec (pos a ≡ pos b)
same_sign a b (yes p) = yes (ap pos p)
same_sign a b (no n) = no (λ e. n (ap pos_part e))

both_negative : (a b : ℕ) → Dec (a ≡ b) → Dec (negsuc a ≡ negsuc b)
both_negative a b (yes p) = yes (ap negsuc p)
both_negative a b (no n) = no (λ e. n (cc e))

unfoldable pub ℤ_discrete : Discrete ℤ
unfolding same_sign both_negative ℕ_discrete
ℤ_discrete (pos a) (pos b) = same_sign a b (ℕ_discrete a b)
ℤ_discrete (negsuc a) (negsuc b) = both_negative a b (ℕ_discrete a b)
ℤ_discrete (pos a) (negsuc b) = no (λ e. cc e)
ℤ_discrete (negsuc a) (pos b) = no (λ e. cc e)
