-- ===== src/Cache/Hits/Laws.antt =====
-- What happens to queued access times.
use sonarr_anime_bridge.Prelude.{
  ltb, ◌/◌, ◌+◌, Option-cases, Bool-cases, inl, inr, ℕ, ◌≤◌, ◌<◌, ◌≡◌, refl, ap, ◌∙◌, Bool, true,
  false, List, [], ◌∷◌, Option, none, some, arith, lookup, insert, lookup-delete, lookup-insert,
  HasDistinctKeys, ℤ, ℤ_discrete as dec, if_neg,
}
use sonarr_anime_bridge.Retry.{DbError}
use sonarr_anime_bridge.Cache.{second, Row, Cache, queue_last_hit}
use sonarr_anime_bridge.Cache.Hits.{
  write_hit, write_hits, drop_written, queue_all, update_hits, flush_batch, flush_last_hits,
  flushed, failed,
}

lookup-write_hits :
    (batch : List (ℤ × ℕ)) (year : ℤ) (rows : List (ℤ × Row)) (row : Row)
    → lookup dec year rows ≡ some row
    → lookup dec year (write_hits batch rows) ≡ some (write_hit batch year row)
unfolding lookup write_hits
lookup-write_hits batch year [] row h = cc
lookup-write_hits batch year ((y, r) ∷ rows) row h =
    ground (arith, lookup-write_hits batch year rows row)

-- A hit newer than the batch stays queued.
lookup-drop_written :
    (batch pending : List (ℤ × ℕ)) (year : ℤ) (hit : ℕ)
    → lookup dec year pending ≡ some hit
    → ((timestamp : ℕ) → lookup dec year batch ≡ some timestamp → timestamp < hit)
    → HasDistinctKeys dec batch
    → lookup dec year (drop_written batch pending) ≡ some hit
unfolding lookup drop_written
lookup-drop_written [] pending year hit h newer d = h
lookup-drop_written ((y, t) ∷ batch) pending year hit h newer (fresh, d) =
    let rest =
      lookup-drop_written batch pending year hit h
        (λ s e. elim (dec year y) [
          | yes p ↦ absurd (ground arith)
          | no p ↦ newer s (rw (if_neg _ p) e)
        ])
        d in
    ground (arith, rest, lookup-delete dec y year (drop_written batch pending), newer t)

abbrev pub AtLeast : ℕ → Option ℕ → Type 0
AtLeast hit none = ⊥
AtLeast hit (some later) = hit ≤ later

-- A hit of the year, or a newer one, is queued and remembered as the last one that was scheduled.
abbrev pub IsQueued : ℤ → ℕ → Cache → Type 0
IsQueued year hit c =
    AtLeast hit (lookup dec year c.pending_last_hits)
    × AtLeast hit (lookup dec year c.last_hit_times)

-- Later hits only replace it by newer ones.
pub queue_last_hit-IsQueued :
    (year : ℤ) (hit : ℕ) (y : ℤ) (persisted now : ℕ) (c : Cache)
    → IsQueued year hit c
    → IsQueued year hit (queue_last_hit y persisted now c)
unfolding queue_last_hit
queue_last_hit-IsQueued year hit y persisted now c (pending, times) = ground (
  arith,
  lookup-insert dec y year now c.pending_last_hits,
  lookup-insert dec y year now c.last_hit_times,
  lookup-insert dec y year persisted c.last_hit_times,
  lookup-insert dec y year now (insert dec y persisted c.last_hit_times),
)

queue_all-IsQueued :
    (year : ℤ) (hit : ℕ) (more : List (ℤ × ℕ × ℕ)) (c : Cache)
    → IsQueued year hit c
    → IsQueued year hit (queue_all more c)
unfolding queue_all
queue_all-IsQueued year hit [] c q = q
queue_all-IsQueued year hit ((y, persisted, now) ∷ more) c q =
    queue_all-IsQueued year hit more (queue_last_hit y persisted now c)
      (queue_last_hit-IsQueued year hit y persisted now c q)

queue_all-year_cache :
    (more : List (ℤ × ℕ × ℕ)) (c : Cache) → (queue_all more c).year_cache ≡ c.year_cache
unfolding queue_all queue_last_hit
queue_all-year_cache [] c = refl
queue_all-year_cache ((y, persisted, now) ∷ more) c =
    queue_all-year_cache more (queue_last_hit y persisted now c) ∙ untouched
  where
    untouched : (queue_last_hit y persisted now c).year_cache ≡ c.year_cache
    untouched = ground arith

flush_batch-IsQueued :
    (batch : List (ℤ × ℕ)) (year : ℤ) (hit : ℕ) (ran : Bool) (e : DbError)
    (meanwhile : List (ℤ × ℕ × ℕ)) (c : Cache)
    → IsQueued year hit c
    → IsQueued year hit (flush_batch batch (failed ran e) meanwhile c)
unfolding flush_batch update_hits
flush_batch-IsQueued [] year hit ran e meanwhile c q = queue_all-IsQueued year hit meanwhile c q
flush_batch-IsQueued (b ∷ batch) year hit true e meanwhile c q =
    queue_all-IsQueued year hit meanwhile (update_hits (b ∷ batch) flushed c) q
flush_batch-IsQueued (b ∷ batch) year hit false e meanwhile c q =
    queue_all-IsQueued year hit meanwhile c q

flush_batch-last_hit :
    (batch : List (ℤ × ℕ)) (year : ℤ) (hit : ℕ) (meanwhile : List (ℤ × ℕ × ℕ)) (c : Cache)
    (row : Row)
    → lookup dec year batch ≡ some hit
    → lookup dec year c.year_cache ≡ some row
    → (row' : Row) × (lookup dec year (flush_batch batch flushed meanwhile c).year_cache
        ≡ some row')
      × (hit ≤ row'.last_hit)
      × (row.last_hit ≤ row'.last_hit)
unfolding flush_batch lookup
flush_batch-last_hit [] year hit meanwhile c row h stored = cc
flush_batch-last_hit (b ∷ batch) year hit meanwhile c row h stored = (
  write_hit (b ∷ batch) year row,
  ap (lookup dec year) (queue_all-year_cache meanwhile (update_hits (b ∷ batch) flushed c))
      ∙ lookup-write_hits (b ∷ batch) year c.year_cache row stored,
  ground (arith, h),
  ground (arith, h),
)

-- Whatever the database answers, a queued hit is not lost: after an error the hit or a newer one is still
-- queued; without one the year's row has that access time or a later one, and never an earlier one
-- than it had.
pub flush_last_hits-IsQueued :
    (year : ℤ) (hit : ℕ) (ran : Bool) (e : DbError) (meanwhile : List (ℤ × ℕ × ℕ)) (c : Cache)
    (row : Row)
    → lookup dec year c.pending_last_hits ≡ some hit
    → IsQueued year hit c
    → lookup dec year c.year_cache ≡ some row
    → IsQueued year hit (flush_last_hits (failed ran e) meanwhile c)
      × (row' : Row) × (lookup dec year (flush_last_hits flushed meanwhile c).year_cache
          ≡ some row')
      × (hit ≤ row'.last_hit)
      × (row.last_hit ≤ row'.last_hit)
unfolding flush_last_hits
flush_last_hits-IsQueued year hit ran e meanwhile c row h q stored =
    let (row', there, new, kept) =
      flush_batch-last_hit c.pending_last_hits year hit meanwhile c row h stored in
    (flush_batch-IsQueued c.pending_last_hits year hit ran e meanwhile c q, row', there, new, kept)

-- Queueing does not look at the table.
queue_last_hit-table :
    (y : ℤ) (persisted now : ℕ) (table : List (ℤ × Row)) (c : Cache)
    → queue_last_hit y persisted now (record c { year_cache = table })
      ≡ record (queue_last_hit y persisted now c) { year_cache = table }
unfolding queue_last_hit
queue_last_hit-table y persisted now table c = elim (Option-cases (lookup dec y c.last_hit_times)) [
  | inr (last, there) ↦ elim (Bool-cases (ltb now (last + c.last_hit_debounce / second))) [
    | inl early ↦ rw (there, early, queue_last_hit) refl
    | inr due ↦ rw (there, due, queue_last_hit) refl
  ]
  | inl missing ↦ elim (Bool-cases (ltb now (persisted + c.last_hit_debounce / second))) [
    | inl early ↦ rw (missing, early, queue_last_hit) refl
    | inr due ↦ rw (missing, due, queue_last_hit) refl
  ]
]

queue_all-table :
    (more : List (ℤ × ℕ × ℕ)) (table : List (ℤ × Row)) (c : Cache)
    → queue_all more (record c { year_cache = table })
      ≡ record (queue_all more c) { year_cache = table }
unfolding queue_all
queue_all-table [] table c = refl
queue_all-table ((y, persisted, now) ∷ more) table c =
    ap (queue_all more) (queue_last_hit-table y persisted now table c)
    ∙ queue_all-table more table (queue_last_hit y persisted now c)

flush_batch-pending :
    (batch : List (ℤ × ℕ)) (year : ℤ) (hit later : ℕ) (meanwhile : List (ℤ × ℕ × ℕ)) (c : Cache)
    → HasDistinctKeys dec batch
    → lookup dec year batch ≡ some hit
    → lookup dec year (queue_all meanwhile c).pending_last_hits ≡ some later
    → hit < later
    → lookup dec year (flush_batch batch flushed meanwhile c).pending_last_hits ≡ some later
unfolding flush_batch
flush_batch-pending [] year hit later meanwhile c d h g newer = g
flush_batch-pending (b ∷ batch) year hit later meanwhile c d h g newer =
    let table = write_hits (b ∷ batch) c.year_cache in
    let same : (queue_all meanwhile (record c { year_cache = table })).pending_last_hits
        ≡ (queue_all meanwhile c).pending_last_hits =
      ap (λ x. x.pending_last_hits) (queue_all-table meanwhile table c) in
    lookup-drop_written (b ∷ batch) _ year later (ap (lookup dec year) same ∙ g)
      (λ t e. ground arith) d

-- A hit that is queued while the UPDATE runs and is newer than the one being written stays queued for
-- the next run.
pub flush_last_hits-queue_all :
    (year : ℤ) (hit later : ℕ) (meanwhile : List (ℤ × ℕ × ℕ)) (c : Cache)
    → HasDistinctKeys dec c.pending_last_hits
    → lookup dec year c.pending_last_hits ≡ some hit
    → lookup dec year (queue_all meanwhile c).pending_last_hits ≡ some later
    → hit < later
    → lookup dec year (flush_last_hits flushed meanwhile c).pending_last_hits ≡ some later
unfolding flush_last_hits
flush_last_hits-queue_all year hit later meanwhile c d h g newer =
    flush_batch-pending c.pending_last_hits year hit later meanwhile c d h g newer
