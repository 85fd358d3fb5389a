-- ===== src/Mapping/Parse/Best.antt =====
-- The choice among the targets of an entry (internal/mapping/parse.go, the last loop of `extractTVDB`) goes
-- through a map, in whatever order: the order does not matter.
use mathlib.Core.List.{Perm, Permᴰ}
use mathlib.Core.Logic.{∥∥₁_elim}
use sonarr_anime_bridge.Prelude.{
  ℕ, ◌+◌, ◌==◌, ◌||◌, ◌&&◌, ltb, pos_part, neg_part, eqb_ℤ, ◌≡◌, refl, sym, Bool, true, false, List,
  [], ◌∷◌, ◌∙◌, arith, ℤ, Bool-cases, inl, inr, if◌then◌else◌, ap, All,
}
use sonarr_anime_bridge.Mapping.Parse.Json.{Token, Frame, Input, ok}
use sonarr_anime_bridge.Mapping.Parse.Targets.{
  TargetSummary, Summaries, beats, better, xor, no_target, choose_from,
}
use sonarr_anime_bridge.Mapping.Parse.Tree.{Outcome, value, error, as_parsed, reader, best_of}
use sonarr_anime_bridge.Mapping.Parse.Reads.{choose_from-best}

Outcome-set : IsSet (Outcome TargetSummary)
Outcome-set = hlevel

-- What the order of the candidates looks at: the parts of their numbers.
record Rank : Type 0 where
  is_s1 : Bool
  episodes : ℕ
  episodes_below : ℕ
  id : ℕ
  id_below : ℕ

abbrev rank : TargetSummary → Rank
rank t = record {
  is_s1 = t.is_s1;
  episodes = pos_part t.episodes;
  episodes_below = neg_part t.episodes;
  id = pos_part t.id;
  id_below = neg_part t.id;
}

wins : Rank → Rank → Bool
wins b c =
    if xor c.is_s1 b.is_s1
    then c.is_s1
    else ltb (b.episodes + c.episodes_below) (c.episodes + b.episodes_below)
      || ((c.episodes + b.episodes_below == b.episodes + c.episodes_below)
          && ltb (c.id + b.id_below) (b.id + c.id_below))

eqb_parts : (a b : ℤ) → eqb_ℤ a b ≡ (pos_part a + neg_part b == pos_part b + neg_part a)
eqb_parts a b = ground arith

eq_of_parts : (a b : ℤ) → pos_part a + neg_part b ≡ pos_part b + neg_part a → a ≡ b
eq_of_parts a b h = ground arith

beats-wins : (b c : TargetSummary) → beats b c ≡ wins (rank b) (rank c)
unfolding beats wins
beats-wins b c = rw (eqb_parts c.episodes b.episodes) refl

wins_trans : (a b c : Rank) → wins a b ≡ true → wins b c ≡ true → wins a c ≡ true
unfolding wins
wins_trans a b c h k = ground arith

wins_asym : (a b : Rank) → wins a b ≡ true → wins b a ≡ false
unfolding wins
wins_asym a b h = ground arith

wins_tie :
    (a b : Rank)
    → wins a b ≡ false
    → wins b a ≡ false
    → (a.is_s1 ≡ b.is_s1)
      × (a.episodes + b.episodes_below ≡ b.episodes + a.episodes_below)
      × (a.id + b.id_below ≡ b.id + a.id_below)
unfolding wins
wins_tie a b h k = ground arith

wins_neg : (a b c : Rank) → wins a b ≡ false → wins b c ≡ false → wins a c ≡ false
unfolding wins
wins_neg a b c h k = ground arith

beats_neg : (a b c : TargetSummary) → beats a b ≡ false → beats b c ≡ false → beats a c ≡ false
beats_neg a b c h k =
    beats-wins a c
    ∙ wins_neg (rank a) (rank b) (rank c) (sym (beats-wins a b) ∙ h) (sym (beats-wins b c) ∙ k)

beats_trans : (a b c : TargetSummary) → beats a b ≡ true → beats b c ≡ true → beats a c ≡ true
beats_trans a b c h k =
    beats-wins a c
    ∙ wins_trans (rank a) (rank b) (rank c) (sym (beats-wins a b) ∙ h) (sym (beats-wins b c) ∙ k)

beats_asym : (a b : TargetSummary) → beats a b ≡ true → beats b a ≡ false
beats_asym a b h = beats-wins b a ∙ wins_asym (rank a) (rank b) (sym (beats-wins a b) ∙ h)

same_target :
    (x y : TargetSummary)
    → x.err ≡ y.err
    → x.is_s1 ≡ y.is_s1
    → x.episodes ≡ y.episodes
    → x.id ≡ y.id
    → x ≡ y
same_target x y p q r t = cc

beats_tie : (x y : TargetSummary) → x.err ≡ y.err → beats x y ≡ false → beats y x ≡ false → x ≡ y
beats_tie x y p h k =
    let (s, e, i) =
      wins_tie (rank x) (rank y) (sym (beats-wins x y) ∙ h) (sym (beats-wins y x) ∙ k) in
    same_target x y p s (eq_of_parts _ _ e) (eq_of_parts _ _ i)

better_comm :
    (b x y : TargetSummary) → x.err ≡ y.err → better (better b x) y ≡ better (better b y) x
unfolding better
better_comm b x y p =
    ground (arith, beats_tie x y p, beats_asym x y, beats_trans b x y, beats_trans b y x)

best_of_step :
    (x y : List ℕ × TargetSummary) (xs ys : Summaries) (b : TargetSummary)
    → x ≡ y
    → ((b : TargetSummary) → best_of xs b ≡ best_of ys b)
    → best_of (x ∷ xs) b ≡ best_of (y ∷ ys) b
unfolding best_of
best_of_step x y xs ys b e h = rw (e, h (better b y.1)) refl

best_of_swap :
    (x y : List ℕ × TargetSummary) (xs : Summaries) (b : TargetSummary)
    → best_of (x ∷ y ∷ xs) b ≡ best_of (y ∷ x ∷ xs) b
unfolding best_of
best_of_swap x y xs b = elim (Bool-cases x.1.err) [
  | inl p ↦ elim (Bool-cases y.1.err) [ inl q ↦ rw (p, q) refl | inr q ↦ rw (p, q) refl ]
  | inr p ↦ elim (Bool-cases y.1.err) [
    | inl q ↦ rw (p, q) refl
    | inr q ↦ simp (p, q) (ap (best_of xs) (better_comm b x.1 y.1 (p ∙ sym q)))
  ]
]

best_of_permuted :
    {xs ys : Summaries} → Permᴰ xs ys → (b : TargetSummary) → best_of xs b ≡ best_of ys b
best_of_permuted Permᴰ.nil b = refl
best_of_permuted (Permᴰ.cons e d) b = best_of_step _ _ _ _ b e (best_of_permuted d)
best_of_permuted (Permᴰ.swap {l} e f) b = rw (e, f) (best_of_swap _ _ l b)
best_of_permuted (Permᴰ.trans d e) b = best_of_permuted d b ∙ best_of_permuted e b

beats-better :
    (t b x : TargetSummary)
    → beats t (better b x) ≡ false
    → (beats t b ≡ false) × (beats t x ≡ false)
unfolding better
beats-better t b x h =
    ground (arith, beats_neg t b x, beats_trans t b x, beats_asym b x, beats_neg t x b)

value_lem : {b t : TargetSummary} → value b ≡ value t → b ≡ t
value_lem e = cc e

as_parsed-ok :
    (o : Outcome TargetSummary) (i j : Input) (t : TargetSummary)
    → as_parsed o i ≡ ok t j
    → o ≡ value t
as_parsed-ok (value _) i j t e = cc e
as_parsed-ok (error _) i j t h = cc h

best_of-perm : {xs ys : Summaries} → Perm xs ys → (b : TargetSummary) → best_of xs b ≡ best_of ys b
best_of-perm p b = ∥∥₁_elim p (Outcome-set _ _) (λ d. best_of_permuted d b)

best_of-beats :
    (xs : Summaries) (b t : TargetSummary)
    → best_of xs b ≡ value t
    → (beats t b ≡ false) × All (λ s. beats t s.1 ≡ false) xs
unfolding best_of
best_of-beats [] b t e = (ground (arith, beats_asym t t, value_lem e), tt)
best_of-beats (x ∷ xs) b t e = elim (Bool-cases x.1.err) [
  | inl p ↦ cc (rw p at e)
  | inr p ↦
      let (h, rest) = best_of-beats xs (better b x.1) t (simp p at e) in
      let (k, l) = beats-better t b x.1 h in (k, (l, rest))
]

-- Whatever the order in which the map of targets is ranged over, the choice gives the same target, or
-- the same error.
pub choose_from-perm :
    (xs ys : Summaries) (b : Bool) (ts : List Token) (fs : List Frame)
    → Perm xs ys
    → choose_from ys no_target (reader b ts fs) ≡ choose_from xs no_target (reader b ts fs)
choose_from-perm xs ys b ts fs p =
    choose_from-best ys no_target b ts fs
    ∙ ap (λ o. as_parsed o (reader b ts fs)) (sym (best_of-perm p no_target))
    ∙ sym (choose_from-best xs no_target b ts fs)

-- What is chosen in one order is chosen in any other, and no target beats it: a target for season 1
-- beats one that is not, then more episodes do, then a lower number.
pub choose_from-beats :
    (xs ys : Summaries) (b : Bool) (ts : List Token) (fs : List Frame) (t : TargetSummary)
    (i : Input)
    → Perm xs ys
    → choose_from xs no_target (reader b ts fs) ≡ ok t i
    → (choose_from ys no_target (reader b ts fs) ≡ ok t i) × All (λ s. beats t s.1 ≡ false) ys
choose_from-beats xs ys b ts fs t i p e =
    let e' : choose_from ys no_target (reader b ts fs) ≡ ok t i =
      choose_from-perm xs ys b ts fs p ∙ e in
    (
      e',
      (best_of-beats ys no_target t
          (as_parsed-ok _ _ i t (sym (choose_from-best ys no_target b ts fs) ∙ e'))).1,
    )
