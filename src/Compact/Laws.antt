-- ===== src/Compact/Laws.antt =====
-- The loop in place against the same loop over a copy.
use sonarr_anime_bridge.Prelude.{
  ℕ, zero, suc, ◌≤◌, ◌<◌, ◌≡◌, refl, ap, ◌∙◌, Bool, if◌then◌else◌, List, [], ◌∷◌, ◌++◌, some, arith,
  length, take, drop, get_elem?, set, keep, Bool-cases, inl, inr,
}
use mathlib.Core.List.{append_assoc, append-nil}
use sonarr_anime_bridge.Compact.{Loop, append_if, range_from, compact}

module _ {ℓ} {A : Type ℓ} where
  drop-cons :
      (xs : List A) (i : ℕ) (x : A) (r : List A)
      → drop i xs ≡ x ∷ r
      → (get_elem? xs i ≡ some x) × (drop (suc i) xs ≡ r) × (i < length xs)
  drop-cons [] zero x r e = cc
  drop-cons [] (suc i) x r e = cc
  drop-cons (y ∷ xs) zero x r e = ground arith
  drop-cons (y ∷ xs) (suc i) x r e = let (a, b, c) = drop-cons xs i x r e in (a, b, omega arith)

  drop-set : (xs : List A) (w i : ℕ) (x : A) → w < i → drop i (set xs w x) ≡ drop i xs
  drop-set [] w i x h = refl
  drop-set (y ∷ xs) w zero x h = absurd (omega arith)
  drop-set (y ∷ xs) zero (suc i) x h = refl
  drop-set (y ∷ xs) (suc w) (suc i) x h = drop-set xs w i x (omega arith)

  length-set : (xs : List A) (w : ℕ) (x : A) → length (set xs w x) ≡ length xs
  length-set [] w x = refl
  length-set (y ∷ xs) zero x = refl
  length-set (y ∷ xs) (suc w) x = ap suc (length-set xs w x)

  take-set :
      (xs : List A) (w : ℕ) (x : A)
      → w < length xs
      → take (suc w) (set xs w x) ≡ take w xs ++ x ∷ []
  take-set [] w x h = absurd (omega arith)
  take-set (y ∷ xs) zero x h = refl
  take-set (y ∷ xs) (suc w) x h = ap (◌∷◌ y) (take-set xs w x (omega arith))

module _ {ℓ κ} {A : Type ℓ} {S : Type κ} (body : A → S → S × Bool) where
  -- The loop over a copy: the elements that the body accepts, in order, and the last state.
  unfoldable pub sieve : S → List A → List A × S
  sieve s [] = ([], s)
  sieve s (x ∷ xs) =
      let (s', kept) = body x s in
      let (out, last) = sieve s' xs in (if kept then x ∷ out else out, last)

  -- What is still to be read is untouched, as the writes stay behind the reads.
  range_from-sieve :
      (rest : List A) (i : ℕ) (l : Loop A S)
      → drop i l.array ≡ rest
      → l.written ≤ i
      → (take (range_from body (length rest) i l).written (range_from body (length rest) i l).array
          ≡ take l.written l.array ++ (sieve l.state rest).0)
        × ((range_from body (length rest) i l).state ≡ (sieve l.state rest).1)
  unfolding range_from append_if sieve
  range_from-sieve [] i l e h = (rw append-nil, refl)
  range_from-sieve (x ∷ rest) i l e h =
      let (read, later, inside) = drop-cons l.array i x rest e in
      elim (Bool-cases (body x l.state).1) [
        | inl kept ↦
            let ih =
              range_from-sieve rest (suc i) (append_if body x l)
                (rw (kept, append_if) (drop-set l.array l.written (suc i) x (omega arith) ∙ later))
                (rw (kept, append_if) (omega arith)) in
            ground (
              arith,
              ih,
              take-set l.array l.written x,
              append_assoc (take l.written l.array) (x ∷ []) (sieve (body x l.state).0 rest).0,
            )
        | inr skipped ↦
            let ih =
              range_from-sieve rest (suc i) (append_if body x l) (rw (skipped, append_if) later)
                (rw (skipped, append_if) (omega arith)) in
            ground (arith, ih)
      ]

  -- Compacting a slice in place gives what filtering a copy would give.
  pub compact-sieve : (s : S) (xs : List A) → compact body s xs ≡ sieve s xs
  unfolding compact
  compact-sieve s xs =
      let (out, last) =
        range_from-sieve xs 0 (record { array = xs; written = 0; state = s }) refl (omega arith) in
      λ i. (out i, last i)

-- With a body that has no state the result is a filter.
pub compact-keep {ℓ} :
    {A : Type ℓ} (p : A → Bool) (xs : List A)
    → compact {S = Unit {0}} (λ x s. (s, p x)) tt xs ≡ (keep p xs, tt)
unfolding sieve
compact-keep {A} p xs = rw compact-sieve (all_kept xs)
  where
    all_kept : (ys : List A) → sieve {S = Unit {0}} (λ x s. (s, p x)) tt ys ≡ (keep p ys, tt)
    all_kept [] = refl
    all_kept (y ∷ ys) = ground (arith, all_kept ys)
