-- ===== src/Scheduler/Fetch/Laws.antt =====
-- What a fetch leaves behind.
use sonarr_anime_bridge.Prelude.{
  ℕ, lt→ltb, ◌∙◌, ◌≤◌, ◌<◌, ◌≡◌, refl, Bool, true, false, List, Option, none, some, arith, ℤ,
  lookup-delete_self, ℤ_discrete as dec,
}
use sonarr_anime_bridge.Show.{Show}
use sonarr_anime_bridge.Retry.{DbError, ok}
use sonarr_anime_bridge.Cache.{Cache, Clock, second, read_year, set_year}
use sonarr_anime_bridge.Cache.Laws.{set_year-read_year}
use sonarr_anime_bridge.DecodedYear.{DecodedYear}
use sonarr_anime_bridge.Scheduler.Failures.{
  RetryLimits, fetch_cooldown_remaining, record_fetch_failure, clear_fetch_failure,
}
use sonarr_anime_bridge.Scheduler.Failures.Laws.{record_fetch_failure-cooldown}
use sonarr_anime_bridge.Scheduler.Fetch.{
  Cause, failure, cooldown, FetchError, Upstream, returns, FetchState, is_canceled, is_served,
  finish_fetch, fetch_upstream, fetch_and_store,
}

module _ (limits : RetryLimits) (encode : List Show → Option (List ℕ)) (year : ℤ)
    (cached : DecodedYear) (ended : Cause) where
  goes_upstream :
      (checked : ℕ) (up : Upstream) (stored : Clock) (write : Option DbError) (finished : ℕ)
      (s : FetchState)
      → is_served cached ≡ false
      → fetch_cooldown_remaining year checked s.failures ≡ 0
      → fetch_and_store limits encode year (ok cached) checked ended up stored write finished s
        ≡ finish_fetch limits year finished true
            (fetch_upstream encode year ended up stored write s.cache).1
            (record s { cache = (fetch_upstream encode year ended up stored write s.cache).0 })
  unfolding fetch_and_store
  goes_upstream checked up stored write finished s stale warm = rw (stale, warm) refl

  on_cooldown :
      (checked : ℕ) (up : Upstream) (stored : Clock) (write : Option DbError) (finished : ℕ)
      (s : FetchState)
      → is_served cached ≡ false
      → 0 < fetch_cooldown_remaining year checked s.failures
      → fetch_and_store limits encode year (ok cached) checked ended up stored write finished s
        ≡ (s, false, some (record { stage = cooldown; cause = failure }))
  unfolding fetch_and_store finish_fetch
  on_cooldown checked up stored write finished s stale cold =
      rw (stale, lt→ltb 0 (fetch_cooldown_remaining year checked s.failures) cold) refl

  fetch_upstream_stored :
      (shows : List Show) (bytes : List ℕ) (stored : Clock) (c : Cache)
      → encode shows ≡ some bytes
      → fetch_upstream encode year ended (returns shows) stored none c
        ≡ ((set_year year bytes stored none c).0, none)
  unfolding fetch_upstream set_year
  fetch_upstream_stored shows bytes stored c good = rw (good, fetch_upstream) refl

  -- For a year that is neither served from the cache nor on cooldown, and freshness windows of a second at least:
  -- shows that AniList returns, that can be encoded and are written, are what a read at that time gives
  -- back, as fresh; the call reports them as fetched, and no cooldown is left.
  pub fetch_and_store-read_year :
      (checked finished : ℕ) (shows : List Show) (bytes : List ℕ) (stored : Clock)
      (record_access : Bool) (s : FetchState)
      → is_served cached ≡ false
      → fetch_cooldown_remaining year checked s.failures ≡ 0
      → encode shows ≡ some bytes
      → second ≤ s.cache.current_year_freshness
      → second ≤ s.cache.past_year_freshness
      → (s' : FetchState) × (fetch_and_store limits encode year
            (ok cached)
            checked
            ended
            (returns shows)
            stored
            none
            finished
            s
          ≡ (s', true, none))
        × ((read_year year record_access stored none s'.cache).1
            ≡ ok (some (record { raw = bytes; fresh = true })))
        × (fetch_cooldown_remaining year finished s'.failures ≡ 0)
  unfolding finish_fetch fetch_cooldown_remaining clear_fetch_failure
  fetch_and_store-read_year checked finished shows bytes stored record_access s stale warm good
        current past =
      (
        record {
          cache = (set_year year bytes stored none s.cache).0;
          failures = clear_fetch_failure year s.failures;
        },
        goes_upstream checked (returns shows) stored none finished s stale warm
            ∙ rw (fetch_upstream_stored shows bytes stored s.cache good) refl,
        set_year-read_year year bytes stored record_access s.cache current past,
        ground (arith, lookup-delete_self dec year s.failures),
      )

  -- An attempt that fails leaves the cache.
  fetch_upstream_failed :
      (up : Upstream) (stored : Clock) (write : Option DbError) (s : FetchState) (e : FetchError)
      → (fetch_upstream encode year ended up stored write s.cache).1 ≡ some e
      → (fetch_upstream encode year ended up stored write s.cache).0 ≡ s.cache
  unfolding fetch_upstream set_year
  fetch_upstream_failed up stored write s e h = ground arith

  -- For a year that is neither served from the cache nor on cooldown: an attempt that fails and was not canceled
  -- leaves the cache as it was, and a further call at the time of the failure does nothing, whatever AniList
  -- would answer.
  pub fetch_and_store-fetch_and_store :
      (checked finished again : ℕ) (up up' : Upstream) (stored stored' : Clock)
      (write write' : Option DbError) (e : FetchError) (s : FetchState)
      → is_served cached ≡ false
      → fetch_cooldown_remaining year checked s.failures ≡ 0
      → (fetch_upstream encode year ended up stored write s.cache).1 ≡ some e
      → is_canceled e.cause ≡ false
      → (s' : FetchState) × (fetch_and_store limits encode year
            (ok cached)
            checked
            ended
            up
            stored
            write
            finished
            s
          ≡ (s', false, some e))
        × (s'.cache ≡ s.cache)
        × (fetch_and_store limits encode year (ok cached) finished ended up' stored' write' again s'
            ≡ (s', false, some (record { stage = cooldown; cause = failure })))
  unfolding finish_fetch
  fetch_and_store-fetch_and_store checked finished again up up' stored stored' write write' e s
        stale warm failed tried =
      let s' : FetchState = record {
        cache = (fetch_upstream encode year ended up stored write s.cache).0;
        failures = record_fetch_failure limits year finished s.failures;
      } in
      let (_, cold, _) = record_fetch_failure-cooldown year limits finished s.failures in
      (
        s',
        goes_upstream checked up stored write finished s stale warm ∙ rw failed (rw tried refl),
        fetch_upstream_failed up stored write s e failed,
        on_cooldown finished up' stored' write' again s' stale cold,
      )
