-- ===== src/Cache/Laws.antt =====
-- What the methods of the year cache promise: the round trip of a stored year, retention, pruning, and
-- the presence check of the health endpoint.
use sonarr_anime_bridge.Prelude.{
  Option-cases, sym, ◌⊎◌, ◌*◌, ◌/◌, ◌^◌, keep-lookup-none, ℕ, ◌+◌, ◌-◌, ◌≤◌, ◌<◌, ◌≡◌, ◌↔◌, inl,
  inr, refl, ap, ◌∙◌, ltb, ◌==◌, Bool, true, false, not, if◌then◌else◌, List, [], ◌∷◌, none, some,
  arith, length, keep, length-keep-le, All, lookup, delete, insert, lookup-insert_self,
  HasDistinctKeys, delete-All, has, ℤ, ℤ_discrete as dec, Bool-cases,
}
use sonarr_anime_bridge.Retry.{ok}
use sonarr_anime_bridge.Cache.{
  Row, Clock, second, unix, Cache, year_fresh_at, read_year, upsert, set_year, unique, count_years,
  has_years, last_access, is_pending, is_stale, cutoff_at, prune_stale_years,
}

-- A stored year reads back as it was stored, and is fresh at the time of its storing, if the freshness
-- window is a second at least.
pub set_year-read_year :
    (year : ℤ) (bytes : List ℕ) (now : Clock) (record_access : Bool) (c : Cache)
    → second ≤ c.current_year_freshness
    → second ≤ c.past_year_freshness
    → (read_year year record_access now none (set_year year bytes now none c).0).1
      ≡ ok (some (record { raw = bytes; fresh = true }))
unfolding set_year read_year year_fresh_at upsert
set_year-read_year year bytes now record_access c current past = ground (
  arith,
  lookup-insert_self dec year (upsert (lookup dec year c.year_cache) bytes (unix now)) c.year_cache,
)

-- Storing a year that is in the cache advances `fetched_at` and keeps the access time from which its
-- retention counts.
pub set_year-last_access :
    (year : ℤ) (bytes : List ℕ) (now : Clock) (c : Cache) (row : Row)
    → lookup dec year c.year_cache ≡ some row
    → 0 < last_access row
    → (row' : Row) × (lookup dec year (set_year year bytes now none c).0.year_cache ≡ some row')
      × (row'.data_of ≡ bytes)
      × (row'.fetched_at ≡ unix now)
      × (last_access row' ≡ last_access row)
unfolding set_year upsert
set_year-last_access year bytes now c row stored old = (
  upsert (some row) bytes (unix now),
  lookup-insert_self dec year (upsert (lookup dec year c.year_cache) bytes (unix now)) c.year_cache
      ∙ ap (λ r. some (upsert r bytes (unix now))) stored,
  refl,
  refl,
  ground arith,
)

keep-lookup :
    (p : ℤ × Row → Bool) (year : ℤ) (row : Row) (rows : List (ℤ × Row))
    → lookup dec year rows ≡ some row
    → HasDistinctKeys dec rows
    → lookup dec year (keep p rows) ≡ (if p (year, row) then some row else none)
unfolding lookup
keep-lookup p year row [] h d = cc
keep-lookup p year row ((y, r) ∷ rows) h (fresh, d) =
    ground (arith, keep-lookup p year row rows, keep-lookup-none dec p year rows)

-- The last hit lies before the cutoff, or the fetch does if there was no hit.
abbrev pub IsExpired : ℕ → Row → Type 0
IsExpired cutoff row =
    ((0 < row.last_hit) × (row.last_hit < cutoff))
    ⊎ ((row.last_hit ≡ 0) × (row.fetched_at < cutoff))

-- A hit from the cutoff on is waiting to be written.
abbrev pub IsAwaited : ℕ → ℤ → List (ℤ × ℕ) → Type 0
IsAwaited cutoff year pending = (hit : ℕ) × (lookup dec year pending ≡ some hit) × (cutoff ≤ hit)

-- So many days before now, in seconds.
abbrev pub days_before : Clock → ℕ → ℕ
days_before now days = (now.nanos - days * 24 * (3600 * 10 ^ 9)) / 10 ^ 9

last_access_iff :
    (cutoff : ℕ) (row : Row) → (ltb (last_access row) cutoff ≡ true) ↔ IsExpired cutoff row
last_access_iff cutoff row = elim (Bool-cases (ltb 0 row.last_hit)) [
  | inl hit ↦ (
    λ h. inl (ground arith, ground arith),
    λ e. elim e [ inl (p, q) ↦ ground arith | inr (p, q) ↦ ground arith ],
  )
  | inr none_ ↦ (
    λ h. inr (ground arith, ground arith),
    λ e. elim e [ inl (p, q) ↦ ground arith | inr (p, q) ↦ ground arith ],
  )
]

is_pending_iff :
    (pending : List (ℤ × ℕ)) (cutoff : ℕ) (year : ℤ)
    → (is_pending pending cutoff year ≡ true) ↔ IsAwaited cutoff year pending
is_pending_iff pending cutoff year = elim (Option-cases (lookup dec year pending)) [
  | inl none_ ↦ (λ h. absurd (ground arith), λ (hit, e, le). ground arith)
  | inr (hit, e) ↦ (λ h. (hit, e, ground arith), λ (hit', e', le). ground arith)
]

is_stale_iff :
    (pending : List (ℤ × ℕ)) (cutoff : ℕ) (year : ℤ) (row : Row)
    → (is_stale pending cutoff (year, row) ≡ true)
      ↔ (IsExpired cutoff row × ¬ IsAwaited cutoff year pending)
is_stale_iff pending cutoff year row =
    let old = last_access_iff cutoff row in
    let waits = is_pending_iff pending cutoff year in
    elim (Bool-cases (is_pending pending cutoff year)) [
      | inl p ↦ (λ h. absurd (ground arith), λ (x, q). absurd (q (waits.0 p)))
      | inr p ↦ (
        λ h. (old.0 (ground arith), λ q. absurd (cc (p, waits.1 q))),
        λ (x, q). ground (arith, p, old.1 x),
      )
    ]

module _ (days : ℕ) (now : Clock) (c : Cache) where
  abbrev goes : ℤ × Row → Bool
  goes e = is_stale c.pending_last_hits (cutoff_at now days) e

  abbrev stays : List (ℤ × Row)
  stays = keep (λ e. not (goes e)) c.year_cache

  prune-rows : (prune_stale_years days now none true c).0.year_cache ≡ stays
  unfolding prune_stale_years
  prune-rows = elim (Bool-cases (ltb 0 (length c.year_cache - length stays))) [
    | inl some_gone ↦ rw some_gone
    | inr none_gone ↦ rw none_gone
  ]

  prune-count : (prune_stale_years days now none true c).1 ≡ ok (length c.year_cache - length stays)
  unfolding prune_stale_years
  prune-count = refl

  pruned_row :
      (year : ℤ) (row : Row)
      → lookup dec year c.year_cache ≡ some row
      → HasDistinctKeys dec c.year_cache
      → lookup dec year (prune_stale_years days now none true c).0.year_cache
        ≡ (if not (goes (year, row)) then some row else none)
  pruned_row year row stored d =
      ap (lookup dec year) prune-rows
      ∙ keep-lookup (λ e. not (goes e)) year row c.year_cache stored d

  -- Pruning deletes a year exactly if its last hit, or its fetch where there was no hit, lies more than so many
  -- days back and no hit of those days is waiting to be written; the row of any other year is as it was.
  -- It returns how many years it deleted.
  pub prune_stale_years-lookup :
      (year : ℤ) (row : Row)
      → lookup dec year c.year_cache ≡ some row
      → HasDistinctKeys dec c.year_cache
      → ((lookup dec year (prune_stale_years days now none true c).0.year_cache ≡ none) ↔ (
          IsExpired (days_before now days) row
          × ¬ IsAwaited (days_before now days) year c.pending_last_hits))
        × ((lookup dec year (prune_stale_years days now none true c).0.year_cache ≡ none)
            ⊎ (lookup dec year (prune_stale_years days now none true c).0.year_cache ≡ some row))
        × (n : ℕ) × ((prune_stale_years days now none true c).1 ≡ ok n)
        × (n + length (prune_stale_years days now none true c).0.year_cache ≡ length c.year_cache)
  prune_stale_years-lookup year row stored d =
      let found = pruned_row year row stored d in
      let (to, from) = is_stale_iff c.pending_last_hits (cutoff_at now days) year row in
      (
        (λ h. to (is_gone (goes (year, row)) (sym found ∙ h)), λ h. found ∙ rw (from h) refl),
        elim (Bool-cases (goes (year, row))) [
          | inl p ↦ inl (found ∙ rw p refl)
          | inr p ↦ inr (found ∙ rw p refl)
        ],
        length c.year_cache - length stays,
        prune-count,
        rw prune-rows (omega (arith, length-keep-le (λ e. not (goes e)) c.year_cache)),
      )
    where
      is_gone : (b : Bool) → (if not b then some row else none) ≡ none → b ≡ true
      is_gone true e = refl
      is_gone false e = cc

-- The health check's answer: every requested year has a row.
count_years-le :
    (years : List (ℤ × Bool)) (table : List (ℤ × Row)) → count_years years table ≤ length years
unfolding count_years
count_years-le [] table = omega arith
count_years-le ((y, _) ∷ years) table = ground (arith, count_years-le years table)

abbrev pub HasRow : List (ℤ × Row) → ℤ → Type 0
HasRow table year = has dec year table ≡ true

count_years_iff :
    (years : List (ℤ × Bool)) (table : List (ℤ × Row))
    → (count_years years table ≡ length years) ↔ All (λ e. HasRow table e.0) years
unfolding count_years
count_years_iff [] table = ground arith
count_years_iff ((y, _) ∷ years) table =
    ground (arith, count_years_iff years table, count_years-le years table)

delete-HasRow :
    (table : List (ℤ × Row)) (year : ℤ) (years : List (ℤ × Bool))
    → HasRow table year
    → All (λ e. HasRow table e.0) (delete dec year years)
    → All (λ e. HasRow table e.0) years
unfolding delete
delete-HasRow table year [] here h = tt
delete-HasRow table year ((y, b) ∷ years) here h =
    ground (arith, delete-HasRow table year years here)

unique-HasRow :
    (table : List (ℤ × Row)) (years : List ℤ)
    → All (λ e. HasRow table e.0) (unique years) ↔ All (HasRow table) years
unfolding unique insert
unique-HasRow table [] = (λ h. tt, λ h. tt)
unique-HasRow table (y ∷ years) = (
  λ h. (h.0, (unique-HasRow table years).0 (delete-HasRow table y (unique years) h.0 h.1)),
  λ h. (
    h.0,
    delete-All dec (λ e. HasRow table e.0) y (unique years) ((unique-HasRow table years).1 h.1),
  ),
)

ok-equal : (a b : ℕ) → (ok (a == b) ≡ ok true) ↔ (a ≡ b)
ok-equal a b = ground arith

-- The check of the health endpoint says yes exactly when every requested year has a row, however often
-- a year is asked for.
pub has_years_iff :
    (years : List ℤ) (c : Cache)
    → (has_years years none c ≡ ok true) ↔ All (HasRow c.year_cache) years
unfolding has_years
has_years_iff [] c = (λ h. tt, λ h. refl)
has_years_iff (y ∷ years) c =
    let set = unique (y ∷ years) in
    let same = ok-equal (count_years set c.year_cache) (length set) in
    let count = count_years_iff set c.year_cache in
    let asked = unique-HasRow c.year_cache (y ∷ years) in
    (λ h. asked.0 (count.0 (same.0 h)), λ h. same.1 (count.1 (asked.1 h)))
