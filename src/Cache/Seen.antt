-- ===== src/Cache/Seen.antt =====
-- The table of seen mappings (internal/cache/cache.go, `MarkSeenMappings`, `markSeenMappingsOnce`,
-- `CountSeenMappings`). The answers of the database to the steps of the transaction are arguments.
pub mod Laws
use sonarr_anime_bridge.Prelude.{
  ℕ, suc, ◌≡◌, ◌⊎◌, refl, ap, ◌∙◌, Bool, true, false, ◌&&◌, ◌||◌, List, [], ◌∷◌, Option, none, some,
  arith, length, any, All, All-map, ℤ, eqb_ℤ, String, str_eq, str_eq_iff, Bool-cases, inl, inr,
  Option-cases,
}
use sonarr_anime_bridge.Retry.Laws.{DbResult-cases}
use sonarr_anime_bridge.Retry.{DbError, DbResult, ok, err}

pub record SeenMapping : Type 0 where
  pub tvdb_id : ℤ
  pub anilist_id : ℤ
  pub title : String
  pub season : String
  pub year : ℤ
  pub starts_at : String
  pub first_seen_at : ℕ

-- PRIMARY KEY (tvdb_id, season, year)
unfoldable pub same_key : SeenMapping → SeenMapping → Bool
same_key a b = eqb_ℤ a.tvdb_id b.tvdb_id && (str_eq a.season b.season && eqb_ℤ a.year b.year)

abbrev pub is_seen : SeenMapping → List SeenMapping → Bool
is_seen m table = any (same_key m) table

abbrev pub stamp : ℕ → SeenMapping → SeenMapping
stamp now m = record m { first_seen_at = now }

-- The loop of `INSERT OR IGNORE` statements: the table in the transaction, and the mappings that were
-- inserted. `answer i` is what the database says to the `i`-th statement.
unfoldable pub insert_from :
    ℕ
    → (ℕ → Option DbError)
    → ℕ
    → List SeenMapping
    → List SeenMapping
    → DbResult (List SeenMapping × List SeenMapping)
insert_from now answer i [] table = ok (table, [])
insert_from now answer i (m ∷ ms) table = elim (answer i) [
  | some e ↦ err e
  | none ↦ elim (is_seen m table) [
    | true ↦ insert_from now answer (suc i) ms table
    | false ↦ elim (insert_from now answer (suc i) ms (stamp now m ∷ table)) [
      | err e ↦ err e
      | ok (after, new) ↦ ok (after, stamp now m ∷ new)
    ]
  ]
]

-- `begin` covers `BeginTx` and `PrepareContext`. The table is the committed one: an error anywhere
-- rolls back.
unfoldable pub mark_seen_mappings_once :
    Option DbError
    → (ℕ → Option DbError)
    → Option DbError
    → List SeenMapping
    → ℕ
    → List SeenMapping
    → List SeenMapping × DbResult (List SeenMapping)
unfolding insert_from
mark_seen_mappings_once (some e) answer commit ms now table = (table, err e)
mark_seen_mappings_once none answer commit ms now table = elim (insert_from now answer 0 ms table) [
  | err e ↦ (table, err e)
  | ok (after, new) ↦ elim commit [ some e ↦ (table, err e) | none ↦ (after, ok new) ]
]

unfoldable pub count_seen_mappings : Option DbError → List SeenMapping → DbResult ℕ
count_seen_mappings (some e) table = err e
count_seen_mappings none table = ok (length table)
