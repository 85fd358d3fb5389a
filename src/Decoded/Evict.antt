-- ===== src/Decoded/Evict.antt =====
-- Admission: the eviction loop ends, takes from the back only, and leaves room.
use sonarr_anime_bridge.Prelude.{
  ℕ, zero, suc, ◌≤◌, ◌<◌, ◌≡◌, refl, ap, ◌∙◌, sym, true, false, List, [], ◌∷◌, Option, some, arith,
  length, take, lookup, delete, HasDistinctKeys, All, length-delete_present, ℤ, ℤ_discrete as dec,
  Bool-cases, inl, inr,
}
use sonarr_anime_bridge.Show.{Show}
use sonarr_anime_bridge.Decoded.{Entry, DecodedCache, remove, back, is_full, evict}
use sonarr_anime_bridge.Decoded.Invariant.{IsValid, sum_sizes, remove-IsValid}

abbrev Filed : List (ℤ × Entry) → Type 0
Filed = All (λ e. e.1.year ≡ e.0)

-- The back of a list is its last entry, and removing that leaves the rest in order.
back-delete :
    (e : ℤ × Entry) (l : List (ℤ × Entry))
    → HasDistinctKeys dec (e ∷ l)
    → Filed (e ∷ l)
    → (last : Entry) × (back (e ∷ l) ≡ some last)
      × (lookup dec last.year (e ∷ l) ≡ some last)
      × (delete dec last.year (e ∷ l) ≡ take (length l) (e ∷ l))
unfolding back lookup delete
back-delete (y, e) [] d (k, _) = (e, refl, ground arith, ground arith)
back-delete (y, e) (f ∷ l) (fresh, d) (k, ks) =
    let (last, at_back, in_list, rest) = back-delete f l d ks in
    (last, at_back, ground arith, ground (arith, rest))

back_lem :
    (l : List (ℤ × Entry)) (n : ℕ)
    → length l ≡ suc n
    → HasDistinctKeys dec l
    → Filed l
    → (last : Entry) × (back l ≡ some last)
      × (lookup dec last.year l ≡ some last)
      × (delete dec last.year l ≡ take n l)
back_lem [] n h d k = absurd (omega arith)
back_lem (e ∷ l) n h d k =
    let (last, at_back, in_list, rest) = back-delete e l d k in
    let same : length l ≡ n = omega arith in
    (last, at_back, in_list, rest ∙ ap (λ m. take m (e ∷ l)) same)

length-eq_zero : (l : List (ℤ × Entry)) → 0 ≡ length l → l ≡ []
length-eq_zero [] h = refl
length-eq_zero (e ∷ l) h = absurd (omega arith)

-- What an operation on the entries leaves alone.
pub record SameSettings (c d : DecodedCache) : Type 0 where
  pub generation : c.generation ≡ d.generation
  pub closed : c.closed ≡ d.closed
  pub max_years : c.max_years ≡ d.max_years
  pub max_bytes : c.max_bytes ≡ d.max_bytes

module _ (decode : List ℕ → Option (List Show)) (size : ℕ) where
  -- The least recently used entries are gone, and there is room for one of the given size.
  pub record Evicted (c d : DecodedCache) : Type 0 where
    pub valid : IsValid decode d
    pub settings : SameSettings c d
    pub roomy : is_full d size ≡ false
    pub kept : ℕ
    pub front : d.lru ≡ take kept c.lru

  pub take_all : (l : List (ℤ × Entry)) → take (length l) l ≡ l
  take_all [] = refl
  take_all (e ∷ l) = ap (◌∷◌ e) (take_all l)

  take-take : (n m : ℕ) (l : List (ℤ × Entry)) → (k : ℕ) × (take n (take m l) ≡ take k l)
  take-take zero m l = (zero, refl)
  take-take (suc n) zero l = (zero, refl)
  take-take (suc n) (suc m) [] = (zero, refl)
  take-take (suc n) (suc m) (e ∷ l) = let (k, same) = take-take n m l in (suc k, ap (◌∷◌ e) same)

  enough_room : (d : DecodedCache) → IsValid decode d → is_full d size ≡ false → Evicted d d
  enough_room d v room = record {
    valid = v;
    settings = record { generation = refl; closed = refl; max_years = refl; max_bytes = refl };
    roomy = room;
    kept = length d.lru;
    front = sym (take_all d.lru);
  }

  -- With no entry left there is room.
  empty-roomy :
      (d : DecodedCache)
      → IsValid decode d
      → d.lru ≡ []
      → 0 < d.max_years
      → size ≤ d.max_bytes
      → is_full d size ≡ false
  empty-roomy d v none_left years fits =
      let no_bytes : d.bytes ≡ 0 = v.counted ∙ ap sum_sizes none_left in
      let no_entries : length d.entries ≡ 0 = v.same_length ∙ ap length none_left in ground arith

  evict_step :
      (rounds : ℕ) (d : DecodedCache) (last : Entry)
      → is_full d size ≡ true
      → back d.lru ≡ some last
      → evict (suc rounds) size d ≡ evict rounds size (remove last d)
  unfolding evict
  evict_step rounds d last full at_back = ground arith

  evict_stop :
      (rounds : ℕ) (d : DecodedCache) → is_full d size ≡ false → evict (suc rounds) size d ≡ some d
  unfolding evict
  evict_stop rounds d room = ground arith

  pub evict_lem :
      (rounds : ℕ) (d : DecodedCache)
      → IsValid decode d
      → rounds ≡ length d.lru
      → 0 < d.max_years
      → size ≤ d.max_bytes
      → (d' : DecodedCache) × (evict rounds size d ≡ some d') × Evicted d d'
  unfolding evict remove
  evict_lem zero d v n years fits =
      let room = empty-roomy d v (length-eq_zero d.lru n) years fits in
      (d, rw (room, evict), enough_room d v room)
  evict_lem (suc rounds) d v n years fits = elim (Bool-cases (is_full d size)) [
    | inl full ↦
        let (last, at_back, in_lru, rest) = back_lem d.lru rounds (sym n) v.lru_distinct v.keyed in
        let in_map = v.agree last.year ∙ in_lru in
        let shorter = length-delete_present dec last.year d.lru last v.lru_distinct in_lru in
        let (d', ended, e) =
          evict_lem rounds (remove last d) (remove-IsValid decode last.year last v in_map)
            (omega (arith, shorter)) years fits in
        let (k, same) = take-take e.kept rounds d.lru in
        (
          d',
          evict_step rounds d last full at_back ∙ ended,
          record {
            valid = e.valid;
            settings = record {
              generation = e.settings.generation;
              closed = e.settings.closed;
              max_years = e.settings.max_years;
              max_bytes = e.settings.max_bytes;
            };
            roomy = e.roomy;
            kept = k;
            front = e.front ∙ ap (take e.kept) rest ∙ same;
          },
        )
    | inr room ↦ (d, evict_stop rounds d room, enough_room d v room)
  ]
