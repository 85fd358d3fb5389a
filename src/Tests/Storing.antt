-- ===== src/Tests/Storing.antt =====
-- The year cache, the table of seen mappings, and the retries.
use sonarr_anime_bridge.Prelude.{
  ◌↔◌, ◌⊎◌, ℕ, zero, suc, ◌+◌, ◌≤◌, ◌<◌, ◌≡◌, refl, Bool, true, false, List, [], ◌∷◌, none, some,
  arith, length, lookup, insert, ℤ, pos, ℤ_discrete as dec,
}
use sonarr_anime_bridge.Retry.{sqlite, other, DbResult, ok, err, is_busy}
use sonarr_anime_bridge.Retry.Laws.{IsLocked}
use sonarr_anime_bridge.Cache.{queue_last_hit, Row, prune_stale_years}
use sonarr_anime_bridge.Cache.Laws.{IsExpired, IsAwaited, days_before, prune_stale_years-lookup}
use sonarr_anime_bridge.Cache.Hits.{queue_all, flushed, failed, flush_last_hits}
use sonarr_anime_bridge.Cache.Hits.Laws.{
  flush_last_hits-queue_all, IsQueued, flush_last_hits-IsQueued,
}
use sonarr_anime_bridge.Cache.Seen.{SeenMapping, stamp, mark_seen_mappings_once}
use sonarr_anime_bridge.Cache.Seen.Laws.{Marked, quiet, mark_seen_mappings_once-again}
use sonarr_anime_bridge.Tests.Data.{cache, noon, old_row}

prune_stale_years-lookup_example :
    ((lookup dec (pos 2023) (prune_stale_years 14 noon none true cache).0.year_cache ≡ none) ↔ (
      IsExpired (days_before noon 14) old_row
      × ¬ IsAwaited (days_before noon 14) (pos 2023) cache.pending_last_hits))
    × ((lookup dec (pos 2023) (prune_stale_years 14 noon none true cache).0.year_cache ≡ none)
        ⊎ (lookup dec (pos 2023) (prune_stale_years 14 noon none true cache).0.year_cache
            ≡ some old_row))
    × (n : ℕ) × ((prune_stale_years 14 noon none true cache).1 ≡ ok n)
    × (n + length (prune_stale_years 14 noon none true cache).0.year_cache
        ≡ length cache.year_cache)
unfolding lookup dec
prune_stale_years-lookup_example =
    prune_stale_years-lookup 14 noon cache (pos 2023) old_row refl (refl, tt)

-- Another hit of the year arrives while the UPDATE runs.
abbrev meanwhile : List (ℤ × ℕ × ℕ)
meanwhile = (pos 2023, 1690000005, 1690009000) ∷ []

flush_last_hits-IsQueued_example :
    IsQueued (pos 2023) 1690000100 (flush_last_hits (failed true other) meanwhile cache)
    × (row' : Row) × (lookup dec (pos 2023) (flush_last_hits flushed meanwhile cache).year_cache
        ≡ some row')
    × (1690000100 ≤ row'.last_hit)
    × (old_row.last_hit ≤ row'.last_hit)
unfolding lookup dec
flush_last_hits-IsQueued_example =
    flush_last_hits-IsQueued (pos 2023) 1690000100 true other meanwhile cache old_row refl
      (omega arith, omega arith) refl

flush_last_hits-queue_all_example :
    lookup dec (pos 2023) (flush_last_hits flushed meanwhile cache).pending_last_hits
    ≡ some 1690009000
unfolding lookup dec queue_all queue_last_hit insert
flush_last_hits-queue_all_example =
    flush_last_hits-queue_all (pos 2023) 1690000100 1690009000 meanwhile cache (refl, tt) refl refl
      (omega arith)

abbrev seen : SeenMapping
seen = record {
  tvdb_id = pos 7000;
  anilist_id = pos 101;
  title = "Alpha";
  season = "WINTER";
  year = pos 2024;
  starts_at = "";
  first_seen_at = 0;
}

mark_seen_mappings_once-again_example :
    Marked 5 (seen ∷ []) [] (stamp 5 seen ∷ []) (stamp 5 seen ∷ [])
    × (mark_seen_mappings_once none quiet none (seen ∷ []) 9 (stamp 5 seen ∷ [])
        ≡ (stamp 5 seen ∷ [], ok []))
unfolding mark_seen_mappings_once
mark_seen_mappings_once-again_example =
    mark_seen_mappings_once-again none none quiet (seen ∷ []) [] (stamp 5 seen ∷ [])
      (stamp 5 seen ∷ []) 5 9 tt refl

-- The database is locked at the first two attempts.
abbrev answers : ℕ → DbResult ℕ
answers zero = err (sqlite 5)
answers (suc zero) = err (sqlite 261)
answers (suc (suc n)) = ok 42

abbrev waits_out : ℕ → Bool
waits_out k = false

twice-IsLocked : (k : ℕ) → k < 2 → IsLocked (answers k) × (waits_out k ≡ false)
unfolding is_busy
twice-IsLocked zero h = (refl, refl)
twice-IsLocked (suc zero) h = (refl, refl)
twice-IsLocked (suc (suc k)) h = absurd (omega arith)
