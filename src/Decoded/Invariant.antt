-- ===== src/Decoded/Invariant.antt =====
-- The invariant of the cache of decoded years, and the operations that only take entries out or
-- reorder them.
use sonarr_anime_bridge.Prelude.{
  ℕ, ◌+◌, ◌≤◌, ◌≡◌, refl, ◌∙◌, sym, Bool, true, false, ◌||◌, List, [], ◌∷◌, Option, some, arith,
  length, lookup, delete, HasDistinctKeys, All, lookup-delete, lookup-delete_self,
  delete-HasDistinctKeys, length-delete_present, delete-All, lookup-All, delete_absent, ℤ,
  ℤ_discrete as dec, Option-cases, inl, inr,
}
use sonarr_anime_bridge.Show.{Show}
use sonarr_anime_bridge.Decoded.{
  Entry, DecodedCache, new_decoded_year_cache, remove, move_to_front, look_up, remove_year,
  invalidate, next_generation,
}

abbrev pub sum_sizes : List (ℤ × Entry) → ℕ
sum_sizes [] = 0
sum_sizes (e ∷ l) = e.1.size + sum_sizes l

-- The map and the list hold the same entries, each under its own year and once; the byte count is
-- that of the entries; both bounds hold; and each entry's shows are what its bytes decode to.
pub record IsValid (decode : List ℕ → Option (List Show)) (d : DecodedCache) : Type 0 where
  pub agree : (y : ℤ) → lookup dec y d.entries ≡ lookup dec y d.lru
  pub entries_distinct : HasDistinctKeys dec d.entries
  pub lru_distinct : HasDistinctKeys dec d.lru
  pub same_length : length d.entries ≡ length d.lru
  pub counted : d.bytes ≡ sum_sizes d.lru
  pub few : length d.entries ≤ d.max_years
  pub small : d.bytes ≤ d.max_bytes
  pub keyed : All (λ e. e.1.year ≡ e.0) d.lru
  pub decoded : All (λ e. decode e.1.raw ≡ some e.1.shows) d.lru

sum_sizes-delete :
    (y : ℤ) (l : List (ℤ × Entry)) (e : Entry)
    → HasDistinctKeys dec l
    → lookup dec y l ≡ some e
    → sum_sizes (delete dec y l) + e.size ≡ sum_sizes l
unfolding lookup delete
sum_sizes-delete y [] e d h = cc
sum_sizes-delete y (f ∷ l) e (fresh, d) h =
    ground (arith, sum_sizes-delete y l e d, delete_absent dec y l)

module _ (decode : List ℕ → Option (List Show)) where
  pub new_decoded_year_cache-IsValid : IsValid decode new_decoded_year_cache
  unfolding new_decoded_year_cache lookup
  new_decoded_year_cache-IsValid = record {
    agree = λ y. refl;
    entries_distinct = tt;
    lru_distinct = tt;
    same_length = refl;
    counted = refl;
    few = omega arith;
    small = omega arith;
    keyed = tt;
    decoded = tt;
  }

  -- The entry found under a year is filed under that year, and its shows are decoded from its bytes.
  pub found :
      {d : DecodedCache} (y : ℤ) (e : Entry)
      → IsValid decode d
      → lookup dec y d.entries ≡ some e
      → (lookup dec y d.lru ≡ some e) × (e.year ≡ y) × (decode e.raw ≡ some e.shows)
  found {d} y e v h =
      let there = sym (v.agree y) ∙ h in
      (
        there,
        lookup-All dec (λ f. f.1.year ≡ f.0) y d.lru e v.keyed there,
        lookup-All dec (λ f. decode f.1.raw ≡ some f.1.shows) y d.lru e v.decoded there,
      )

  pub remove-IsValid :
      {d : DecodedCache} (y : ℤ) (e : Entry)
      → IsValid decode d
      → lookup dec y d.entries ≡ some e
      → IsValid decode (remove e d)
  unfolding remove
  remove-IsValid {d} y e v h =
      let (there, filed, _) = found y e v h in
      let at = e.year in
      let in_map : lookup dec at d.entries ≡ some e = simp filed h in
      let in_lru : lookup dec at d.lru ≡ some e = simp filed there in
      let less = length-delete_present dec at d.entries e v.entries_distinct in_map in
      let less' = length-delete_present dec at d.lru e v.lru_distinct in_lru in
      let sizes = sum_sizes-delete at d.lru e v.lru_distinct in_lru in
      record {
        agree = λ z. grind (arith, lookup-delete, v.agree);
        entries_distinct = delete-HasDistinctKeys dec at d.entries v.entries_distinct;
        lru_distinct = delete-HasDistinctKeys dec at d.lru v.lru_distinct;
        same_length = omega (arith, less, less', v.same_length);
        counted = omega (arith, sizes, v.counted);
        few = omega (arith, less, v.few);
        small = omega (arith, v.small);
        keyed = delete-All dec _ at d.lru v.keyed;
        decoded = delete-All dec _ at d.lru v.decoded;
      }

  pub move_to_front-IsValid :
      {d : DecodedCache} (y : ℤ) (e : Entry)
      → IsValid decode d
      → lookup dec y d.entries ≡ some e
      → IsValid decode (move_to_front e d)
  unfolding move_to_front lookup
  move_to_front-IsValid {d} y e v h =
      let (there, filed, good) = found y e v h in
      let at = e.year in
      let in_lru : lookup dec at d.lru ≡ some e = simp filed there in
      let less = length-delete_present dec at d.lru e v.lru_distinct in_lru in
      let sizes = sum_sizes-delete at d.lru e v.lru_distinct in_lru in
      record {
        agree = λ z. ground (arith, v.agree z, lookup-delete dec at z d.lru, in_lru);
        entries_distinct = v.entries_distinct;
        lru_distinct =
            (lookup-delete_self dec at d.lru, delete-HasDistinctKeys dec at d.lru v.lru_distinct);
        same_length = omega (arith, less, v.same_length);
        counted = omega (arith, sizes, v.counted);
        few = v.few;
        small = v.small;
        keyed = (refl, delete-All dec _ at d.lru v.keyed);
        decoded = (good, delete-All dec _ at d.lru v.decoded);
      }

  pub look_up-IsValid :
      {d : DecodedCache} (y : ℤ) (raw : List ℕ) (present : Bool) (generation : ℕ)
      → IsValid decode d
      → IsValid decode (look_up y raw present generation d).0
  unfolding look_up
  look_up-IsValid {d} y raw present generation v = elim (Option-cases (lookup dec y d.entries)) [
    | inl missing ↦ rw (missing, look_up) v
    | inr (e, hit) ↦
        ground (arith, hit, v, move_to_front-IsValid y e v hit, remove-IsValid y e v hit)
  ]

  pub remove_year-IsValid :
      {d : DecodedCache} (y : ℤ) → IsValid decode d → IsValid decode (remove_year y d)
  unfolding remove_year
  remove_year-IsValid {d} y v = elim (Option-cases (lookup dec y d.entries)) [
    | inl missing ↦ rw (missing, remove_year) v
    | inr (e, hit) ↦ rw (hit, remove_year) (remove-IsValid y e v hit)
  ]

  pub invalidate-IsValid :
      {d : DecodedCache} (y : ℤ) (every closed : Bool)
      → IsValid decode d
      → IsValid decode (invalidate y every closed d)
  unfolding invalidate lookup
  invalidate-IsValid {d} y true closed v = record {
    agree = λ z. refl;
    entries_distinct = tt;
    lru_distinct = tt;
    same_length = refl;
    counted = refl;
    few = omega arith;
    small = omega arith;
    keyed = tt;
    decoded = tt;
  }
  invalidate-IsValid {d} y false closed v = remove_year-IsValid y (later v)
    where
      later :
          IsValid decode d
          → IsValid decode
              (record d { generation = next_generation d.generation; closed = d.closed || closed })
      later w = record {
        agree = w.agree;
        entries_distinct = w.entries_distinct;
        lru_distinct = w.lru_distinct;
        same_length = w.same_length;
        counted = w.counted;
        few = w.few;
        small = w.small;
        keyed = w.keyed;
        decoded = w.decoded;
      }
