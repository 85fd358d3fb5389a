-- ===== src/Mapping/Resolve.antt =====
-- What the resolver promises.
use sonarr_anime_bridge.Prelude.{
  ◌≡◌, ◌↔◌, inl, inr, refl, List, [], ◌∷◌, Option, none, some, arith, lookup, insert, lookup-insert,
  ℤ, pos, negsuc, ◌≤ℤ◌, ℤ_discrete as dec, Option-cases, ite,
}
use sonarr_anime_bridge.Show.{Show}
use sonarr_anime_bridge.Mapping.{
  AnibridgeMapping, resolve_by_mal, resolve_by_anilist, resolve_show, ResolvedShow, resolved_show,
  resolve_from, resolve_batch, lookup_by_mal, lookup_by_anilist,
}

abbrev pub IsPositive : ℤ → Type 0
IsPositive n = pos 1 ≤ℤ n

-- A positive MAL number that the mapping knows.
abbrev pub HasMal : AnibridgeMapping → Show → ℤ → Type 0
HasMal m s tvdb_id =
    (mal_id : ℤ) × (s.id_mal ≡ some mal_id)
    × IsPositive mal_id
    × (lookup dec mal_id m.by_mal ≡ some tvdb_id)

-- When a show has a TVDB number: its MAL number decides where it is known, and else its AniList number.
pub data Resolves (m : AnibridgeMapping) (s : Show) (tvdb_id : ℤ) : Type 0 where
  by_mal : HasMal m s tvdb_id → Resolves m s tvdb_id
  by_anilist :
      ((other : ℤ) → ¬ HasMal m s other)
      → IsPositive s.id
      → lookup dec s.id m.by_anilist ≡ some tvdb_id
      → Resolves m s tvdb_id

mal_found :
    (m : AnibridgeMapping) (mal : Option ℤ) (tvdb_id : ℤ)
    → resolve_by_mal m mal ≡ some tvdb_id
    → (mal_id : ℤ) × (mal ≡ some mal_id)
      × IsPositive mal_id
      × (lookup dec mal_id m.by_mal ≡ some tvdb_id)
unfolding resolve_by_mal lookup_by_mal
mal_found m none tvdb_id h = cc
mal_found m (some (negsuc n)) tvdb_id h = ground arith
mal_found m (some (pos n)) tvdb_id h = (pos n, refl, ground arith, ground arith)

found_mal :
    (m : AnibridgeMapping) (mal_id tvdb_id : ℤ)
    → IsPositive mal_id
    → lookup dec mal_id m.by_mal ≡ some tvdb_id
    → resolve_by_mal m (some mal_id) ≡ some tvdb_id
unfolding resolve_by_mal lookup_by_mal
found_mal m mal_id tvdb_id p h = ground arith

found_mal_of :
    (m : AnibridgeMapping) (s : Show) (tvdb_id : ℤ)
    → HasMal m s tvdb_id
    → resolve_by_mal m s.id_mal ≡ some tvdb_id
found_mal_of m s tvdb_id (mal_id, e, p, h) = rw e (found_mal m mal_id tvdb_id p h)

-- A show resolves to a TVDB number exactly by its positive MAL number where the mapping knows that, and else
-- by its positive AniList number.
pub resolve_show_iff :
    (m : AnibridgeMapping) (s : Show) (tvdb_id : ℤ)
    → (resolve_show (some m) s ≡ some tvdb_id) ↔ Resolves m s tvdb_id
unfolding resolve_show resolve_by_anilist lookup_by_anilist
resolve_show_iff m s tvdb_id = (to, from)
  where
    to : resolve_show (some m) s ≡ some tvdb_id → Resolves m s tvdb_id
    to h = elim (Option-cases (resolve_by_mal m s.id_mal)) [
      | inl missed ↦
          by_anilist (λ other known. ground (arith, found_mal_of m s other known)) (ground arith)
            (ground arith)
      | inr (known, e) ↦ by_mal (mal_found m s.id_mal tvdb_id (ground arith))
    ]

    from : Resolves m s tvdb_id → resolve_show (some m) s ≡ some tvdb_id
    from (by_mal known) = ground (arith, found_mal_of m s tvdb_id known)
    from (by_anilist unknown p h) = elim (Option-cases (resolve_by_mal m s.id_mal)) [
      | inl missed ↦ ground arith
      | inr (other, e) ↦ absurd (unknown other (mal_found m s.id_mal other e))
    ]

-- The last show of the list with an identifier: what a map filled in order holds for it.
abbrev pub last_with : ℤ → List Show → Option Show
last_with k [] = none
last_with k (s ∷ shows) = elim (last_with k shows) [
  | some later ↦ some later
  | none ↦ ite (dec s.id k) (some s) none
]

abbrev pub outcome :
    Option AnibridgeMapping → Option Show → Option ResolvedShow → Option ResolvedShow
outcome m (some s) before = some (resolved_show m s)
outcome m none before = before

resolve_from_lem :
    (m : Option AnibridgeMapping)
    → (shows : List Show) → (result : List (ℤ × ResolvedShow)) → (k : ℤ)
    → lookup dec k (resolve_from m shows result)
      ≡ outcome m (last_with k shows) (lookup dec k result)
unfolding resolve_from
resolve_from_lem m [] result k = refl
resolve_from_lem m (s ∷ shows) result k = ground (
  arith,
  resolve_from_lem m shows (insert dec s.id (resolved_show m s) result) k,
  lookup-insert dec s.id k (resolved_show m s) result,
)

-- A batch holds for each number the resolution of the last show that has it, and nothing else.
pub resolve_batch_lem :
    (m : Option AnibridgeMapping)
    → (shows : List Show) → (k : ℤ)
    → lookup dec k (resolve_batch m shows) ≡ outcome m (last_with k shows) none
unfolding resolve_batch lookup
resolve_batch_lem m shows k = resolve_from_lem m shows [] k
