-- ===== src/Scheduler/Loading/Laws.antt =====
-- A load that fails keeps the mapping that is served (internal/scheduler/scheduler.go, `loadResolver`).
use sonarr_anime_bridge.Prelude.{
  ◌≡◌, refl, sym, ap, Bool, true, false, List, Option, none, some, String,
}
use sonarr_anime_bridge.Mapping.{AnibridgeMapping, set_mapping}
use sonarr_anime_bridge.Mapping.Source.{Codecs}
use sonarr_anime_bridge.Mapping.Loader.{
  Loader, LoadResult, ParsedSource, Parse, Loaded, ok, err, Answers,
}
use sonarr_anime_bridge.Mapping.Loader.Load.{Task}
use sonarr_anime_bridge.Mapping.Loader.Laws.{IsParsed, IsFaithful}
use sonarr_anime_bridge.Mapping.Loader.Outcome.{IsKept, load-IsKept}
use sonarr_anime_bridge.Scheduler.Fetch.{Cause}
use sonarr_anime_bridge.Scheduler.Loading.{ResolverState, keep_mapping, publish, load_resolver}

-- What the resolver serves is the parse of some file.
abbrev IsServed : Codecs → Parse → Option AnibridgeMapping → Type 0
IsServed codecs parse none = Unit
IsServed codecs parse (some m) = (digest : List _) × IsParsed codecs parse m digest

abbrev pub IsSound : Codecs → Parse → ResolverState → Type 0
IsSound codecs parse s =
    IsFaithful codecs parse s.loader.state × IsServed codecs parse s.resolver.mapping

-- The state after a load: with no error the resolver serves the mapping that the loader holds; after an
-- error it serves what it served before.
abbrev pub IsPublished : ResolverState → ResolverState → Option Cause → Type 0
IsPublished s s' none =
    (source : ParsedSource) × (s'.loader.state ≡ some source)
    × (s'.resolver.mapping ≡ some source.mapping)
IsPublished s s' (some e) = s'.resolver ≡ s.resolver

module _ (validate : String → Option String) (ended : Cause) (t : Task) (a : Answers)
    (s : ResolverState) where
  -- What a load makes of the loader, and the publication of its result.
  published :
      (ended_since : Bool) (l : Loader) (r : Loaded LoadResult)
      → IsSound t.codecs t.parse s
      → IsKept validate (record t { loader = s.loader }) a l r
      → let (s', e, _) = publish ended ended_since r (record s { loader = l }) in
        IsSound t.codecs t.parse s' × IsPublished s s' e
  unfolding publish keep_mapping set_mapping
  published ended_since l (err e) (f, served) kept = ((rw kept f, served), refl)
  published true l (ok r) (f, served) (source, held, m, meta, v, u, w, p, seen) =
      ((rw held p, served), refl)
  published false l (ok r) (f, served) (source, held, m, meta, v, u, w, p, seen) =
      ((rw held p, (source.digest, rw (← m) p)), (source, held, ap some (sym m)))

  -- If the loader holds, and the resolver serves, the parse of some file, then so it is after a load, however
  -- it ends. With no error the resolver serves what the loader holds; after an error it serves what it
  -- served before.
  pub load_resolver-IsPublished :
      (gate_ended ended_since : Bool)
      → IsSound t.codecs t.parse s
      → IsSound t.codecs t.parse (load_resolver validate ended gate_ended ended_since t a s).0
        × IsPublished s
            (load_resolver validate ended gate_ended ended_since t a s).0
            (load_resolver validate ended gate_ended ended_since t a s).1
  unfolding load_resolver
  load_resolver-IsPublished true ended_since sound = (sound, refl)
  load_resolver-IsPublished false ended_since sound =
      published ended_since _ _ sound
        (load-IsKept validate (record t { loader = s.loader }) a sound.0)
