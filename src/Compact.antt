-- ===== src/Compact.antt =====
-- The idiom `out := xs[:0]; for _, x := range xs { …; out = append(out, x) }` of internal/filter: the
-- result shares its array with the slice that is ranged over, so each append writes into an array
-- whose later elements are still to be read.
pub mod Laws
use sonarr_anime_bridge.Prelude.{
  ℕ, zero, suc, ◌+◌, Bool, if◌then◌else◌, List, Option, none, some, length, take, get_elem?, set,
}

-- What a loop leaves: the array, the length of `out`, and the loop's own counters.
pub record Loop {ℓ κ} (A : Type ℓ) (S : Type κ) : Type (ℓ ⊔ κ) where
  pub array : List A
  pub written : ℕ
  pub state : S

module _ {ℓ κ} {A : Type ℓ} {S : Type κ} (body : A → S → S × Bool) where
  -- One iteration: the body says whether the element is appended.
  unfoldable pub append_if : A → Loop A S → Loop A S
  append_if x l =
      let (s, kept) = body x l.state in
      record {
        array = if kept then set l.array l.written x else l.array;
        written = if kept then l.written + 1 else l.written;
        state = s;
      }

  -- `rounds` iterations from index `i`; the element is read when its turn comes.
  unfoldable pub range_from : ℕ → ℕ → Loop A S → Loop A S
  unfolding append_if
  range_from zero i l = l
  range_from (suc rounds) i l = elim (get_elem? l.array i) [
    | none ↦ l
    | some x ↦ range_from rounds (suc i) (append_if x l)
  ]

  -- The slice `out`, and the counters.
  unfoldable pub compact : S → List A → List A × S
  unfolding range_from
  compact s xs =
      let l = range_from (length xs) 0 (record { array = xs; written = 0; state = s }) in
      (take l.written l.array, l.state)
