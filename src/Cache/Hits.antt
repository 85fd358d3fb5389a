-- ===== src/Cache/Hits.antt =====
-- The worker that persists access times (internal/cache/cache.go, `flushLastHits`). Readers may queue
-- further hits while its UPDATE runs: these are the argument `meanwhile`.
pub mod Laws
use sonarr_anime_bridge.Prelude.{
  ltb, ◌/◌, ◌+◌, Option-cases, Bool-cases, inl, inr, ℕ, ◌≤◌, ◌<◌, ◌≡◌, refl, ap, ◌∙◌, leb, max,
  Bool, true, false, if◌then◌else◌, List, [], ◌∷◌, Option, none, some, arith, lookup, delete,
  insert, lookup-delete, lookup-insert, HasDistinctKeys, ℤ, ℤ_discrete as dec, if_neg,
}
use sonarr_anime_bridge.Retry.{DbError}
use sonarr_anime_bridge.Cache.{second, Row, Cache, queue_last_hit}

-- `last_hit = MAX(last_hit, CASE year WHEN … THEN … ELSE last_hit END) WHERE year IN (…)`
abbrev pub write_hit : List (ℤ × ℕ) → ℤ → Row → Row
write_hit batch year row = elim (lookup dec year batch) [
  | none ↦ row
  | some timestamp ↦ record row { last_hit = max row.last_hit timestamp }
]

unfoldable pub write_hits : List (ℤ × ℕ) → List (ℤ × Row) → List (ℤ × Row)
write_hits batch [] = []
write_hits batch ((year, row) ∷ rows) = (year, write_hit batch year row) ∷ write_hits batch rows

-- What was written is no longer pending, unless a newer hit has been queued.
unfoldable pub drop_written : List (ℤ × ℕ) → List (ℤ × ℕ) → List (ℤ × ℕ)
drop_written [] pending = pending
drop_written ((year, timestamp) ∷ batch) pending =
    let rest = drop_written batch pending in
    elim (lookup dec year pending) [
      | none ↦ rest
      | some queued ↦ if leb queued timestamp then delete dec year rest else rest
    ]

unfoldable pub mark_failed : List (ℤ × ℕ) → List (ℤ × Bool) → List (ℤ × Bool)
mark_failed [] failed = failed
mark_failed ((year, _) ∷ batch) failed = insert dec year true (mark_failed batch failed)

unfoldable pub clear_failed : List (ℤ × ℕ) → List (ℤ × Bool) → List (ℤ × Bool)
clear_failed [] failed = failed
clear_failed ((year, _) ∷ batch) failed = delete dec year (clear_failed batch failed)

-- Hits that readers queue: the year, the stored access time and the time of the hit.
unfoldable pub queue_all : List (ℤ × ℕ × ℕ) → Cache → Cache
queue_all [] c = c
queue_all ((year, persisted, now) ∷ more) c = queue_all more (queue_last_hit year persisted now c)

-- How the statements on the connection end: without an error, or with one, before the UPDATE has run or after
-- it (`true`), as the reset of the busy timeout can fail too.
pub data FlushAnswer : Type 0 where
  flushed : FlushAnswer
  failed : Bool → DbError → FlushAnswer

-- What follows the statements, with their answer.
unfoldable pub finish_flush : List (ℤ × ℕ) → FlushAnswer → Cache → Cache
unfolding drop_written mark_failed clear_failed
finish_flush batch (failed ran e) c = record c {
  last_hit_failed = mark_failed batch c.last_hit_failed;
}
finish_flush batch flushed c = record c {
  pending_last_hits = drop_written batch c.pending_last_hits;
  last_hit_failed = clear_failed batch c.last_hit_failed;
}

abbrev pub has_run : FlushAnswer → Bool
has_run flushed = true
has_run (failed ran e) = ran

-- An UPDATE that does not run leaves the table.
unfoldable pub update_hits : List (ℤ × ℕ) → FlushAnswer → Cache → Cache
unfolding write_hits
update_hits batch answer c =
    if has_run answer then record c { year_cache = write_hits batch c.year_cache } else c

-- With nothing pending the worker returns before the UPDATE.
unfoldable pub flush_batch : List (ℤ × ℕ) → FlushAnswer → List (ℤ × ℕ × ℕ) → Cache → Cache
unfolding update_hits queue_all finish_flush
flush_batch [] answer meanwhile c = queue_all meanwhile c
flush_batch (e ∷ batch) answer meanwhile c =
    finish_flush (e ∷ batch) answer (queue_all meanwhile (update_hits (e ∷ batch) answer c))

unfoldable pub flush_last_hits : FlushAnswer → List (ℤ × ℕ × ℕ) → Cache → Cache
unfolding flush_batch
flush_last_hits answer meanwhile c = flush_batch c.pending_last_hits answer meanwhile c
