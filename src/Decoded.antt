-- ===== src/Decoded.antt =====
-- The bounded cache of decoded years (internal/cache/decoded_year.go). The map `entries` and the list
-- `lru` of Go hold the same elements; both are kept here, and a list element is known by its year.
-- `lru` has its front at the head. `d.mu` makes each operation one step. The parameter of `admit`
-- called `size` is the value of `decodedYearSize`, which reads slice capacities.
pub mod Invariant
pub mod Evict
pub mod Admit
use sonarr_anime_bridge.Prelude.{
  ℕ, zero, suc, ◌+◌, ◌-◌, ◌*◌, ◌%◌, ◌^◌, ◌==◌, ltb, leb, Bool, true, false, not, ◌&&◌, ◌||◌,
  if◌then◌else◌, List, [], ◌∷◌, Option, none, some, length, lookup, delete, insert, codes_eq, ℤ,
  ℤ_discrete as dec,
}
use sonarr_anime_bridge.Show.{Show}

pub record Entry : Type 0 where
  pub year : ℤ
  pub raw : List ℕ
  pub shows : List Show
  pub size : ℕ

pub record DecodedCache : Type 0 where
  pub generation : ℕ
  pub closed : Bool
  pub entries : List (ℤ × Entry)
  pub lru : List (ℤ × Entry)
  pub bytes : ℕ
  pub max_years : ℕ
  pub max_bytes : ℕ

abbrev pub default_capacity : ℕ
default_capacity = 8

abbrev pub default_bytes : ℕ
default_bytes = 32 * 2 ^ 20

unfoldable pub new_decoded_year_cache : DecodedCache
new_decoded_year_cache = record {
  generation = 0;
  closed = false;
  entries = [];
  lru = [];
  bytes = 0;
  max_years = default_capacity;
  max_bytes = default_bytes;
}

unfoldable pub remove : Entry → DecodedCache → DecodedCache
remove entry d = record d {
  bytes = d.bytes - entry.size;
  entries = delete dec entry.year d.entries;
  lru = delete dec entry.year d.lru;
}

-- `d.lru.MoveToFront(element)`
unfoldable pub move_to_front : Entry → DecodedCache → DecodedCache
move_to_front entry d = record d { lru = (entry.year, entry) ∷ delete dec entry.year d.lru }

-- The shows of a hit, or `none`.
unfoldable pub look_up : ℤ → List ℕ → Bool → ℕ → DecodedCache → DecodedCache × Option (List Show)
unfolding remove move_to_front
look_up year raw present generation d = elim (lookup dec year d.entries) [
  | none ↦ (d, none)
  | some entry ↦
      if present && codes_eq raw entry.raw
      then (move_to_front entry d, some entry.shows)
      else if generation == d.generation
      then (remove entry d, none)
      else (d, none)
]

-- `d.lru.Back()`
unfoldable pub back : List (ℤ × Entry) → Option Entry
back [] = none
back ((year, entry) ∷ []) = some entry
back (e ∷ f ∷ l) = back (f ∷ l)

abbrev pub is_full : DecodedCache → ℕ → Bool
is_full d size = leb d.max_years (length d.entries) || ltb d.max_bytes (d.bytes + size)

-- The loop `for len(d.entries) >= d.maxYears || d.bytes+size > d.maxBytes`. `none` is the panic of
-- `remove` on the nil `Back()` of an empty list, so the rounds left never exceed the length of `lru`.
unfoldable pub evict : ℕ → ℕ → DecodedCache → Option DecodedCache
unfolding remove back
evict zero size d = if is_full d size then none else some d
evict (suc rounds) size d = elim (is_full d size) [
  | false ↦ some d
  | true ↦ elim (back d.lru) [ none ↦ none | some entry ↦ evict rounds size (remove entry d) ]
]

-- `d.entries[year] = d.lru.PushFront(entry); d.bytes += size`
unfoldable pub push_front : Entry → DecodedCache → DecodedCache
push_front entry d = record d {
  entries = insert dec entry.year entry d.entries;
  lru = (entry.year, entry) ∷ d.lru;
  bytes = d.bytes + entry.size;
}

-- `if element := d.entries[year]; element != nil { d.remove(element) }`
unfoldable pub remove_year : ℤ → DecodedCache → DecodedCache
unfolding remove
remove_year year d = elim (lookup dec year d.entries) [ none ↦ d | some entry ↦ remove entry d ]

-- A result of `none` is a panic.
unfoldable pub admit : ℕ → ℤ → List ℕ → List Show → ℕ → DecodedCache → Option DecodedCache
unfolding evict push_front remove_year
admit size year raw shows generation d =
    if d.closed || (not (generation == d.generation) || (leb d.max_years 0 || ltb d.max_bytes size))
    then some d
    else elim (evict (length (remove_year year d).lru) size (remove_year year d)) [
      | none ↦ none
      | some roomy ↦
          some (push_front (record { year = year; raw = raw; shows = shows; size = size }) roomy)
    ]

-- `uint64` arithmetic wraps.
abbrev pub next_generation : ℕ → ℕ
next_generation g = (g + 1) % 2 ^ 64

unfoldable pub invalidate : ℤ → Bool → Bool → DecodedCache → DecodedCache
unfolding remove_year
invalidate year every closed d =
    let later : DecodedCache = record d {
      generation = next_generation d.generation;
      closed = d.closed || closed;
    } in
    if every then record later { entries = []; lru = []; bytes = 0 } else remove_year year later
