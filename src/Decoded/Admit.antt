-- ===== src/Decoded/Admit.antt =====
-- `admit` and what a later `lookup` finds.
use sonarr_anime_bridge.Prelude.{
  ℕ, zero, suc, ◌+◌, ◌≤◌, ◌<◌, ◌≡◌, ◌≢◌, refl, ap, ◌∙◌, sym, Bool, true, false, not, ◌||◌, ◌==◌,
  ◌%◌, ◌^◌, ltb, leb, List, [], ◌∷◌, Option, none, some, arith, length, take, lookup, delete,
  insert, delete_absent, lookup-delete_self, insert-HasDistinctKeys, codes_eq, codes_eq→eq,
  codes_eq_refl, ℤ, ℤ_discrete as dec, Option-cases, Bool-cases, inl, inr, if_pos,
}
use sonarr_anime_bridge.Show.{Show}
use sonarr_anime_bridge.Decoded.{
  Entry, DecodedCache, next_generation, remove, look_up, is_full, push_front, remove_year, admit,
  invalidate,
}
use sonarr_anime_bridge.Decoded.Invariant.{IsValid, found, remove_year-IsValid}
use sonarr_anime_bridge.Decoded.Evict.{SameSettings, evict_lem}

lookup-take-none :
    (y : ℤ) (n : ℕ) (l : List (ℤ × Entry)) → lookup dec y l ≡ none → lookup dec y (take n l) ≡ none
unfolding lookup
lookup-take-none y zero l h = refl
lookup-take-none y (suc n) [] h = refl
lookup-take-none y (suc n) (e ∷ l) h = ground (arith, lookup-take-none y n l)

look_up_hit :
    (year : ℤ) (raw : List ℕ) (generation : ℕ) (d : DecodedCache) (e : Entry)
    → lookup dec year d.entries ≡ some e
    → codes_eq raw e.raw ≡ true
    → (look_up year raw true generation d).1 ≡ some e.shows
unfolding look_up
look_up_hit year raw generation d e hit same = ground arith

module _ (decode : List ℕ → Option (List Show)) where
  remove_year-lru :
      {d : DecodedCache} (y : ℤ) → IsValid decode d → (remove_year y d).lru ≡ delete dec y d.lru
  unfolding remove_year remove
  remove_year-lru {d} y v = elim (Option-cases (lookup dec y d.entries)) [
    | inl missing ↦
        rw (missing, remove_year) (sym (delete_absent dec y d.lru (sym (v.agree y) ∙ missing)))
    | inr (e, hit) ↦
        let (_, filed, _) = found decode y e v hit in
        rw (hit, remove_year) (ap (λ z. delete dec z d.lru) filed)
  ]

  remove_year-SameSettings : {d : DecodedCache} (y : ℤ) → SameSettings (remove_year y d) d
  unfolding remove_year remove
  remove_year-SameSettings {d} y = ground arith

  push_front-IsValid :
      {d : DecodedCache} (e : Entry)
      → IsValid decode d
      → lookup dec e.year d.lru ≡ none
      → is_full d e.size ≡ false
      → decode e.raw ≡ some e.shows
      → IsValid decode (push_front e d)
  unfolding push_front insert lookup
  push_front-IsValid {d} e v fresh room good =
      let absent = delete_absent dec e.year d.entries (v.agree e.year ∙ fresh) in
      let shape : insert dec e.year e d.entries ≡ (e.year, e) ∷ d.entries =
        ap (◌∷◌ (e.year, e)) absent in
      record {
        agree = λ z. ground (arith, v.agree z, shape);
        entries_distinct = insert-HasDistinctKeys dec e.year e d.entries v.entries_distinct;
        lru_distinct = (fresh, v.lru_distinct);
        same_length = rw absent (omega (arith, v.same_length));
        counted = omega (arith, v.counted);
        few = rw absent (ground (arith, v.few));
        small = ground (arith, v.small);
        keyed = (refl, v.keyed);
        decoded = (good, v.decoded);
      }

  module _ (size : ℕ) (year : ℤ) (raw : List ℕ) (shows : List Show) (generation : ℕ) where
    abbrev pub fresh_entry : Entry
    fresh_entry = record { year = year; raw = raw; shows = shows; size = size }

    -- Whether `admit` does anything.
    abbrev pub refused : DecodedCache → Bool
    refused d =
        d.closed
        || (not (generation == d.generation) || (leb d.max_years 0 || ltb d.max_bytes size))

    refused-room : (d : DecodedCache) → refused d ≡ false → (0 < d.max_years) × (size ≤ d.max_bytes)
    refused-room d h = ground arith

    admit-refused :
        (d : DecodedCache) → refused d ≡ true → admit size year raw shows generation d ≡ some d
    unfolding admit
    admit-refused d h = rw h

    -- In a valid cache, where the given shows are what the bytes decode to and nothing refuses them: admitting
    -- does not panic, the cache stays valid, the year goes to the front, its old entry is gone, and of
    -- the others only the least recently used are evicted.
    pub admit-front :
        {d : DecodedCache}
        → IsValid decode d
        → decode raw ≡ some shows
        → refused d ≡ false
        → (d' : DecodedCache) × (admit size year raw shows generation d ≡ some d')
          × IsValid decode d'
          × (kept : ℕ) × (d'.lru ≡ (year, fresh_entry) ∷ take kept (delete dec year d.lru))
    unfolding admit push_front
    admit-front {d} v good accepted =
        let w = remove_year-IsValid decode year v in
        let same = remove_year-SameSettings {d = d} year in
        let (years, fits) = refused-room d accepted in
        let (roomy, ended, e) =
          evict_lem decode size (length (remove_year year d).lru) (remove_year year d) w refl
            (omega (arith, same)) (omega (arith, same)) in
        let rest = e.front ∙ ap (take e.kept) (remove_year-lru year v) in
        let absent =
          ap (lookup dec year) rest
          ∙ lookup-take-none year e.kept (delete dec year d.lru)
              (lookup-delete_self dec year d.lru) in
        (
          push_front fresh_entry roomy,
          rw (accepted, ended),
          push_front-IsValid fresh_entry e.valid absent e.roomy good,
          e.kept,
          ap (◌∷◌ (year, fresh_entry)) rest,
        )

    -- Admitting never panics and keeps the invariant.
    pub admit-IsValid :
        {d : DecodedCache}
        → IsValid decode d
        → decode raw ≡ some shows
        → (d' : DecodedCache) × (admit size year raw shows generation d ≡ some d')
          × IsValid decode d'
    admit-IsValid {d} v good = elim (Bool-cases (refused d)) [
      | inl no_room ↦ (d, admit-refused d no_room, v)
      | inr accepted ↦ let (d', done, w, _, _) = admit-front v good accepted in (d', done, w)
    ]

    -- In a valid cache, where the given shows are what the bytes decode to and nothing refuses them, a later
    -- lookup with the same bytes finds them.
    pub admit-look_up :
        {d : DecodedCache} (g : ℕ)
        → IsValid decode d
        → decode raw ≡ some shows
        → refused d ≡ false
        → (d' : DecodedCache) × (admit size year raw shows generation d ≡ some d')
          × ((look_up year raw true g d').1 ≡ some shows)
    unfolding lookup
    admit-look_up {d} g v good accepted =
        let (d', done, w, k, front) = admit-front v good accepted in
        let hit : lookup dec year d'.entries ≡ some fresh_entry =
          w.agree year ∙ ap (lookup dec year) front ∙ if_pos (dec year year) refl _ _ in
        (d', done, look_up_hit year raw g d' fresh_entry hit (codes_eq_refl raw))

  -- A hit returns what the given bytes decode to.
  pub look_up-decode :
      {d : DecodedCache} (year : ℤ) (raw : List ℕ) (present : Bool) (generation : ℕ)
      (shows : List Show)
      → IsValid decode d
      → (look_up year raw present generation d).1 ≡ some shows
      → decode raw ≡ some shows
  unfolding look_up
  look_up-decode {d} year raw present generation shows v h =
      elim (Option-cases (lookup dec year d.entries)) [
        | inl missing ↦ cc (rw (missing, look_up) at h)
        | inr (e, hit) ↦
            let (_, _, good) = found decode year e v hit in
            ground (arith, hit, good, codes_eq→eq raw e.raw)
      ]

-- A run of mutations, each with its year, whether it hits all years, and whether it closes.
abbrev pub invalidate_all : List (ℤ × Bool × Bool) → DecodedCache → DecodedCache
invalidate_all [] d = d
invalidate_all ((year, every, closed) ∷ ms) d = invalidate_all ms (invalidate year every closed d)

invalidate-generation :
    (year : ℤ) (every closed : Bool) (d : DecodedCache)
    → (invalidate year every closed d).generation ≡ next_generation d.generation
unfolding invalidate remove_year remove
invalidate-generation year every closed d = ground arith

invalidate_all-generation :
    (ms : List (ℤ × Bool × Bool)) (d : DecodedCache)
    → d.generation < 2 ^ 64
    → (invalidate_all ms d).generation ≡ (d.generation + length ms) % 2 ^ 64
invalidate_all-generation [] d small = omega arith
invalidate_all-generation ((year, every, closed) ∷ ms) d small =
    let next = invalidate-generation year every closed d in
    omega (
      arith,
      next,
      invalidate_all-generation ms (invalidate year every closed d) (omega (arith, next)),
    )

-- What was read before a run of mutations is not admitted after it, as long as the 64-bit generation
-- has not come round.
pub admit-invalidate_all :
    (size : ℕ) (year : ℤ) (raw : List ℕ) (shows : List Show) (ms : List (ℤ × Bool × Bool))
    (d : DecodedCache)
    → d.generation < 2 ^ 64
    → 0 < length ms
    → length ms < 2 ^ 64
    → admit size year raw shows d.generation (invalidate_all ms d) ≡ some (invalidate_all ms d)
admit-invalidate_all size year raw shows ms d small some_left few =
    let next = invalidate_all-generation ms d small in
    let moved : d.generation ≢ (invalidate_all ms d).generation = λ e. omega (arith, next, e) in
    admit-refused (λ _. none) size year raw shows d.generation (invalidate_all ms d)
      (stale_refused d.generation (invalidate_all ms d) size moved)
  where
    stale_refused :
        (g : ℕ) (c : DecodedCache) (n : ℕ)
        → g ≢ c.generation
        → (c.closed || (not (g == c.generation) || (leb c.max_years 0 || ltb c.max_bytes n))) ≡ true
    stale_refused g c n h = ground arith
