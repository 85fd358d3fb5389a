-- ===== src/Scheduler/Failures/Oldest.antt =====
-- The scan for the oldest failure.
use sonarr_anime_bridge.Prelude.{
  ◌+◌, ◌≤◌, ◌<◌, ◌≡◌, ◌⊎◌, inl, inr, refl, ltb, List, [], ◌∷◌, none, some, arith, length, All,
  lookup, delete, HasDistinctKeys, length-delete_present, ℤ, ℤ_discrete as dec, Bool-cases,
}
use sonarr_anime_bridge.Scheduler.Failures.{FetchFailure, oldest_from, delete_oldest}

-- The scan for the oldest failure finds one of the list, and none of the list is older.
abbrev pub IsOldest : List (ℤ × FetchFailure) → ℤ × FetchFailure → Type 0
IsOldest fs oldest =
    (lookup dec oldest.0 fs ≡ some oldest.1) × All (λ e. oldest.1.retry_at ≤ e.1.retry_at) fs

abbrev Found : List (ℤ × FetchFailure) → ℤ × FetchFailure → ℤ × FetchFailure → Type 0
Found fs seed oldest =
    ((oldest ≡ seed) ⊎ (lookup dec oldest.0 fs ≡ some oldest.1))
    × (oldest.1.retry_at ≤ seed.1.retry_at)
    × All (λ e. oldest.1.retry_at ≤ e.1.retry_at) fs

oldest_from-Found :
    (fs : List (ℤ × FetchFailure)) (seed : ℤ × FetchFailure)
    → HasDistinctKeys dec fs
    → (oldest : ℤ × FetchFailure) × (oldest_from fs (some seed) ≡ some oldest)
      × Found fs seed oldest
unfolding oldest_from lookup
oldest_from-Found [] seed d = (seed, refl, (inl refl, omega arith, tt))
oldest_from-Found (e ∷ fs) seed (fresh, d) = elim (Bool-cases (ltb e.1.retry_at seed.1.retry_at)) [
  | inl older ↦
      let (o, ran, (from, le, every)) = oldest_from-Found fs e d in
      (o, ground (arith, ran), (from_head o from, ground (arith, le), (le, every)))
  | inr newer ↦
      let (o, ran, (from, le, every)) = oldest_from-Found fs seed d in
      (o, ground (arith, ran), (from_tail o from, le, (ground (arith, le), every)))
]
  where
    from_head :
        (o : ℤ × FetchFailure)
        → (o ≡ e) ⊎ (lookup dec o.0 fs ≡ some o.1)
        → (o ≡ seed) ⊎ (lookup dec o.0 (e ∷ fs) ≡ some o.1)
    from_head o (inl same) = inr (ground (arith, same))
    from_head o (inr there) = inr (ground (arith, there, fresh))

    from_tail :
        (o : ℤ × FetchFailure)
        → (o ≡ seed) ⊎ (lookup dec o.0 fs ≡ some o.1)
        → (o ≡ seed) ⊎ (lookup dec o.0 (e ∷ fs) ≡ some o.1)
    from_tail o (inl same) = inl same
    from_tail o (inr there) = inr (ground (arith, there, fresh))

IsOldest-of :
    (e : ℤ × FetchFailure) (fs : List (ℤ × FetchFailure))
    → HasDistinctKeys dec (e ∷ fs)
    → (oldest : ℤ × FetchFailure) × (oldest_from (e ∷ fs) none ≡ some oldest)
      × IsOldest (e ∷ fs) oldest
unfolding oldest_from lookup
IsOldest-of e fs (fresh, d) =
    let (o, ran, (from, le, every)) = oldest_from-Found fs e d in
    (o, ran, (there o from, (le, every)))
  where
    there :
        (o : ℤ × FetchFailure)
        → (o ≡ e) ⊎ (lookup dec o.0 fs ≡ some o.1)
        → lookup dec o.0 (e ∷ fs) ≡ some o.1
    there o (inl same) = ground (arith, same)
    there o (inr later) = ground (arith, later, fresh)

delete_oldest_found :
    (fs : List (ℤ × FetchFailure)) (o : ℤ × FetchFailure)
    → oldest_from fs none ≡ some o
    → delete_oldest fs ≡ delete dec o.0 fs
unfolding delete_oldest
delete_oldest_found fs o ran = ground arith

-- Deleting the oldest takes exactly one failure, and none of those that stay is older.
pub delete_oldest-lem :
    (fs : List (ℤ × FetchFailure))
    → HasDistinctKeys dec fs
    → 0 < length fs
    → (oldest : ℤ × FetchFailure) × IsOldest fs oldest
      × (delete_oldest fs ≡ delete dec oldest.0 fs)
      × (length (delete_oldest fs) + 1 ≡ length fs)
delete_oldest-lem [] d some_left = absurd (omega arith)
delete_oldest-lem (e ∷ fs) d some_left =
    let (o, ran, (there, every)) = IsOldest-of e fs d in
    let shape = delete_oldest_found (e ∷ fs) o ran in
    (o, (there, every), shape, rw shape (length-delete_present dec o.0 (e ∷ fs) o.1 d there))
