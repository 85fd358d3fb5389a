-- ===== src/Scheduler/Track/Laws.antt =====
-- What is announced, and how often the cache is vacuumed.
use sonarr_anime_bridge.Prelude.{
  ℕ, ◌+◌, ◌*◌, ◌^◌, ◌<◌, ◌≡◌, ◌≢◌, ◌⊎◌, Bool, true, false, List, [], ◌∷◌, none, some, arith, lookup,
  ℤ, ℤ_discrete as dec, String,
}
use sonarr_anime_bridge.Show.{Show}
use sonarr_anime_bridge.Retry.{DbError}
use sonarr_anime_bridge.Cache.{hour}
use sonarr_anime_bridge.Cache.Seen.{SeenMapping}
use sonarr_anime_bridge.Cache.Seen.Laws.{Marked, HasFailed}
use sonarr_anime_bridge.Mapping.{ResolvedShow}
use sonarr_anime_bridge.Scheduler.Track.{TrackAnswers, starts_at, vacuum_maybe}

-- A vacuum that ran is followed by no other for 24 hours; the time of the last one is kept in whole
-- seconds, so the second may come up to a second early.
pub vacuum_maybe-vacuum_maybe :
    (ended ended' swapped swapped' : Bool) (now later last : ℕ)
    → (vacuum_maybe ended now swapped last).1 ≡ true
    → (vacuum_maybe ended' later swapped' (vacuum_maybe ended now swapped last).0).1 ≡ true
    → now + 24 * hour < later + 10 ^ 9
unfolding vacuum_maybe
vacuum_maybe-vacuum_maybe ended ended' swapped swapped' now later last h g = ground arith

-- The row of a show with its mapping.
abbrev pub IsEntry : Show → ResolvedShow → String → ℤ → SeenMapping → Type 0
IsEntry show r season year e =
    (e.tvdb_id ≡ r.tvdb_id)
    × (e.anilist_id ≡ show.id)
    × (e.title ≡ r.title)
    × (e.season ≡ season)
    × (e.year ≡ year)
    × (e.starts_at ≡ starts_at show.start_date)

-- The entries of a request: one for each show that resolves, in order.
pub data Entries (batch : List (ℤ × ResolvedShow)) (season : String) (year : ℤ)
    : List Show → List SeenMapping → Type 0 where
  no_shows : Entries batch season year [] []
  unknown :
      {show : Show} {shows : List Show} {es : List SeenMapping}
      → lookup dec show.id batch ≡ none
      → Entries batch season year shows es
      → Entries batch season year (show ∷ shows) es
  unresolved :
      {show : Show} {shows : List Show} {es : List SeenMapping} (r : ResolvedShow)
      → lookup dec show.id batch ≡ some r
      → r.resolved ≡ false
      → Entries batch season year shows es
      → Entries batch season year (show ∷ shows) es
  resolves :
      {show : Show} {shows : List Show} {e : SeenMapping} {es : List SeenMapping} (r : ResolvedShow)
      → lookup dec show.id batch ≡ some r
      → r.resolved ≡ true
      → IsEntry show r season year e
      → Entries batch season year shows es
      → Entries batch season year (show ∷ shows) (e ∷ es)

-- Some step of the discovery was answered with an error.
abbrev pub IsFault : TrackAnswers → DbError → Type 0
IsFault a e = (a.counting ≡ some e) ⊎ HasFailed a.begin a.inserting a.commit e

-- What is announced of the new rows.
abbrev pub IsAnnounced : List SeenMapping → List SeenMapping → List SeenMapping → Type 0
IsAnnounced table new told = ((table ≡ []) × (told ≡ [])) ⊎ ((table ≢ []) × (told ≡ new))

-- The discovery has failed and done nothing, or has recorded the entries and announced the new ones.
abbrev pub IsDiscovery :
    TrackAnswers
    → ℕ
    → List SeenMapping
    → List SeenMapping
    → List SeenMapping × List SeenMapping
    → Type 0
IsDiscovery a now entries table (after, told) =
    ((after ≡ table) × (told ≡ []) × (e : DbError) × IsFault a e)
    ⊎ ((new : List SeenMapping) × Marked now entries table after new × IsAnnounced table new told)
