-- ===== src/Mapping.antt =====
-- The anibridge mapping in memory and the resolver (internal/mapping/anibridge.go from
-- `AnibridgeMapping` to `countMissing`, and internal/mapping/resolve.go). A nil mapping is `none`; log
-- lines are left out.
pub mod Resolve
pub mod Parse
pub mod Url
pub mod Source
pub mod Loader
use sonarr_anime_bridge.Prelude.{
  ℕ, zero, suc, ◌+◌, Bool, true, false, if◌then◌else◌, List, [], ◌∷◌, map, Option, none, some,
  length, lookup, insert, has, ℤ, pos, ltb_ℤ, leb_ℤ, ℤ_discrete as dec, String,
}
use sonarr_anime_bridge.Show.{Show, display_title}

pub record AnibridgeMapping : Type 0 where
  pub by_mal : List (ℤ × ℤ)
  pub by_anilist : List (ℤ × ℤ)

unfoldable pub lookup_by_mal : AnibridgeMapping → ℤ → Option ℤ
lookup_by_mal m mal_id = lookup dec mal_id m.by_mal

unfoldable pub lookup_by_anilist : AnibridgeMapping → ℤ → Option ℤ
lookup_by_anilist m anilist_id = lookup dec anilist_id m.by_anilist

unfoldable pub mapping_stats : AnibridgeMapping → ℕ × ℕ
mapping_stats m = (length m.by_mal, length m.by_anilist)

-- `slices.Sorted` of the keys of a map.
unfoldable pub insert_sorted : ℤ → List ℤ → List ℤ
insert_sorted k [] = k ∷ []
insert_sorted k (j ∷ ks) = if leb_ℤ k j then k ∷ j ∷ ks else j ∷ insert_sorted k ks

unfoldable pub sorted : List ℤ → List ℤ
unfolding insert_sorted
sorted [] = []
sorted (k ∷ ks) = insert_sorted k (sorted ks)

unfoldable pub mapping_keys : AnibridgeMapping → List ℤ × List ℤ
unfolding sorted
mapping_keys m = (sorted (map (λ e. e.0) m.by_mal), sorted (map (λ e. e.0) m.by_anilist))

-- The resolver's atomic pointer.
pub record Resolver : Type 0 where
  pub mapping : Option AnibridgeMapping

unfoldable pub new_resolver : Resolver
new_resolver = record { mapping = none }

unfoldable pub set_mapping : Option AnibridgeMapping → Resolver → Resolver
set_mapping none r = r
set_mapping (some m) r = record { mapping = some m }

-- The fallback of `resolveShow`.
unfoldable pub resolve_by_anilist : AnibridgeMapping → Show → Option ℤ
unfolding lookup_by_anilist
resolve_by_anilist m s = if ltb_ℤ (pos 0) s.id then lookup_by_anilist m s.id else none

-- The lookup by MAL, if there is a positive MAL number.
unfoldable pub resolve_by_mal : AnibridgeMapping → Option ℤ → Option ℤ
unfolding lookup_by_mal
resolve_by_mal m none = none
resolve_by_mal m (some mal_id) = if ltb_ℤ (pos 0) mal_id then lookup_by_mal m mal_id else none

unfoldable pub resolve_show : Option AnibridgeMapping → Show → Option ℤ
unfolding resolve_by_mal resolve_by_anilist
resolve_show none s = none
resolve_show (some m) s = elim (resolve_by_mal m s.id_mal) [
  | some tvdb_id ↦ some tvdb_id
  | none ↦ resolve_by_anilist m s
]

pub record ResolvedShow : Type 0 where
  pub tvdb_id : ℤ
  pub title : String
  pub resolved : Bool

unfoldable pub resolved_show : Option AnibridgeMapping → Show → ResolvedShow
unfolding resolve_show
resolved_show m show = elim (resolve_show m show) [
  | some tvdb_id ↦ record { tvdb_id = tvdb_id; title = display_title show; resolved = true }
  | none ↦ record { tvdb_id = pos 0; title = display_title show; resolved = false }
]

-- The loop of `ResolveBatch` over the map that it fills.
unfoldable pub resolve_from :
    Option AnibridgeMapping → List Show → List (ℤ × ResolvedShow) → List (ℤ × ResolvedShow)
unfolding resolved_show
resolve_from m [] result = result
resolve_from m (show ∷ shows) result =
    resolve_from m shows (insert dec show.id (resolved_show m show) result)

unfoldable pub resolve_batch : Option AnibridgeMapping → List Show → List (ℤ × ResolvedShow)
unfolding resolve_from
resolve_batch m shows = resolve_from m shows []

-- The loops of `countMissing`: the set of `in`, then the set of what is missing from it.
unfoldable pub present_from : List ℤ → List (ℤ × Bool) → List (ℤ × Bool)
present_from [] present = present
present_from (k ∷ ks) present = present_from ks (insert dec k true present)

unfoldable pub missing_from : List ℤ → List (ℤ × Bool) → List (ℤ × Bool) → List (ℤ × Bool)
missing_from [] present missing = missing
missing_from (k ∷ ks) present missing =
    missing_from ks present (if has dec k present then missing else insert dec k true missing)

unfoldable pub count_missing : List ℤ → List ℤ → ℕ
unfolding present_from missing_from
count_missing from among = length (missing_from from (present_from among []) [])

-- The keys of a `Metadata`, and the changes between two.
pub record Keys : Type 0 where
  pub mal_keys : List ℤ
  pub anilist_keys : List ℤ

unfoldable pub diff_key_counts : Keys → Keys → ℕ × ℕ
unfolding count_missing
diff_key_counts prev curr = (
  count_missing curr.mal_keys prev.mal_keys + count_missing curr.anilist_keys prev.anilist_keys,
  count_missing prev.mal_keys curr.mal_keys + count_missing prev.anilist_keys curr.anilist_keys,
)
