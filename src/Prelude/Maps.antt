-- ===== src/Prelude/Maps.antt =====
-- Go's built-in maps as association lists with at most one entry for a key: `lookup` is the
-- library's, `delete` is `delete(m, k)`, `insert` is `m[k] = v`.
use Prim.Native.Nat.{◌+◌, ◌≤◌}
use mathlib.Core.Path.{◌≡◌, refl}
use mathlib.Core.Logic.{ite, if_pos}
use mathlib.Core.Bool.{Bool}
use mathlib.Core.List.{List, [], ◌∷◌, lookup}
use mathlib.Core.Option.{none, some}
use native.Mathlib.Omega.{arith}
use sonarr_anime_bridge.Prelude.Tests.{is_some}
use sonarr_anime_bridge.Prelude.Lists.{length, keep, All}

module _ {ℓ} {K V : Type ℓ} (dec : Discrete K) where
  unfoldable pub delete : K → List (K × V) → List (K × V)
  delete k [] = []
  delete k (e ∷ m) = ite (dec k e.0) (delete k m) (e ∷ delete k m)

  unfoldable pub insert : K → V → List (K × V) → List (K × V)
  unfolding delete
  insert k v m = (k, v) ∷ delete k m

  abbrev pub has : K → List (K × V) → Bool
  has k m = is_some (lookup dec k m)

  -- Every key stands once.
  abbrev pub HasDistinctKeys : List (K × V) → Type ℓ
  HasDistinctKeys [] = Unit
  HasDistinctKeys (e ∷ m) = (lookup dec e.0 m ≡ none) × HasDistinctKeys m

  pub lookup-delete :
      (k j : K) (m : List (K × V)) → lookup dec j (delete k m) ≡ ite (dec k j) none (lookup dec j m)
  unfolding lookup delete
  lookup-delete k j [] = ground arith
  lookup-delete k j (e ∷ m) = ground (arith, lookup-delete k j m)

  pub lookup-insert :
      (k j : K) (v : V) (m : List (K × V))
      → lookup dec j (insert k v m) ≡ ite (dec k j) (some v) (lookup dec j m)
  unfolding lookup insert
  lookup-insert k j v m = ground (arith, lookup-delete k j m)

  pub lookup-insert_self : (k : K) (v : V) (m : List (K × V)) → lookup dec k (insert k v m) ≡ some v
  lookup-insert_self k v m = rw lookup-insert (if_pos (dec k k) refl _ _)

  pub lookup-delete_self : (k : K) (m : List (K × V)) → lookup dec k (delete k m) ≡ none
  lookup-delete_self k m = rw lookup-delete (if_pos (dec k k) refl _ _)

  pub delete-HasDistinctKeys :
      (k : K) (m : List (K × V)) → HasDistinctKeys m → HasDistinctKeys (delete k m)
  unfolding delete
  delete-HasDistinctKeys k [] h = tt
  delete-HasDistinctKeys k (e ∷ m) (fresh, h) =
      ground (arith, delete-HasDistinctKeys k m h, lookup-delete k e.0 m)

  pub insert-HasDistinctKeys :
      (k : K) (v : V) (m : List (K × V)) → HasDistinctKeys m → HasDistinctKeys (insert k v m)
  unfolding insert
  insert-HasDistinctKeys k v m h = (lookup-delete_self k m, delete-HasDistinctKeys k m h)

  pub delete_absent : (k : K) (m : List (K × V)) → lookup dec k m ≡ none → delete k m ≡ m
  unfolding lookup delete
  delete_absent k [] h = refl
  delete_absent k (e ∷ m) h = ground (arith, delete_absent k m)

  pub length-delete-le : (k : K) (m : List (K × V)) → length (delete k m) ≤ length m
  unfolding delete
  length-delete-le k [] = omega arith
  length-delete-le k (e ∷ m) = ground (arith, length-delete-le k m)

  pub length-delete_present :
      (k : K) (m : List (K × V)) (v : V)
      → HasDistinctKeys m
      → lookup dec k m ≡ some v
      → length (delete k m) + 1 ≡ length m
  unfolding lookup delete
  length-delete_present k [] v d h = cc
  length-delete_present k (e ∷ m) v (fresh, d) h =
      ground (arith, length-delete_present k m v d, delete_absent k m)

  pub delete-All {κ} :
      (P : K × V → Type κ) (k : K) (m : List (K × V)) → All P m → All P (delete k m)
  unfolding delete
  delete-All P k [] h = tt
  delete-All P k (e ∷ m) (p, h) = ground (arith, delete-All P k m h)

  pub lookup-All {κ} :
      (P : K × V → Type κ) (k : K) (m : List (K × V)) (v : V)
      → All P m
      → lookup dec k m ≡ some v
      → P (k, v)
  unfolding lookup
  lookup-All P k [] v h e = cc
  lookup-All P k (b ∷ m) v (p, h) e = ground (arith, lookup-All P k m v h)

  pub keep-lookup-none :
      (p : K × V → Bool) (k : K) (m : List (K × V))
      → lookup dec k m ≡ none
      → lookup dec k (keep p m) ≡ none
  unfolding lookup
  keep-lookup-none p k [] h = refl
  keep-lookup-none p k (e ∷ m) h = ground (arith, keep-lookup-none p k m)

  pub keep-HasDistinctKeys :
      (p : K × V → Bool) (m : List (K × V)) → HasDistinctKeys m → HasDistinctKeys (keep p m)
  keep-HasDistinctKeys p [] d = tt
  keep-HasDistinctKeys p (e ∷ m) (fresh, d) =
      ground (arith, keep-HasDistinctKeys p m, keep-lookup-none p e.0 m)
