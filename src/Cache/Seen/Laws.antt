-- ===== src/Cache/Seen/Laws.antt =====
-- What a transaction over the seen mappings leaves (internal/cache/cache.go, `markSeenMappingsOnce`).
use sonarr_anime_bridge.Prelude.{
  ℕ, suc, ◌≡◌, ◌⊎◌, refl, ap, ◌∙◌, true, false, ◌||◌, List, [], ◌∷◌, Option, none, some, arith, All,
  All-map, str_eq_iff, Bool-cases, inl, inr, Option-cases,
}
use sonarr_anime_bridge.Retry.Laws.{DbResult-cases}
use sonarr_anime_bridge.Retry.{DbError, ok, err}
use sonarr_anime_bridge.Cache.Seen.{
  SeenMapping, same_key, is_seen, stamp, insert_from, mark_seen_mappings_once,
}

-- No two rows have the same key.
abbrev pub HasDistinctRows : List SeenMapping → Type 0
HasDistinctRows [] = Unit
HasDistinctRows (m ∷ table) = (is_seen m table ≡ false) × HasDistinctRows table

abbrev pub quiet : ℕ → Option DbError
quiet i = none

same_key-stamp : (now : ℕ) (m : SeenMapping) → same_key m (stamp now m) ≡ true
unfolding same_key
same_key-stamp now m = ground (arith, str_eq_iff m.season m.season)

is_seen-stamp :
    (now : ℕ) (m : SeenMapping) (table : List SeenMapping)
    → is_seen (stamp now m) table ≡ is_seen m table
unfolding same_key
is_seen-stamp now m [] = refl
is_seen-stamp now m (r ∷ table) = ap (λ b. same_key m r || b) (is_seen-stamp now m table)

-- The rows, put into the table one after the other.
abbrev pub push_all : List SeenMapping → List SeenMapping → List SeenMapping
push_all [] table = table
push_all (m ∷ ms) table = push_all ms (m ∷ table)

abbrev pub IsAmong : SeenMapping → List SeenMapping → Type 0
IsAmong m [] = ⊥
IsAmong m (x ∷ xs) = (m ≡ x) ⊎ IsAmong m xs

-- The row is a mapping that was asked for, with the time of the transaction.
abbrev pub IsStamped : ℕ → List SeenMapping → SeenMapping → Type 0
IsStamped now ms row = (m : SeenMapping) × IsAmong m ms × (row ≡ record m { first_seen_at = now })

-- What a transaction leaves: the old table with the new rows, in which no key is repeated and the key of every
-- mapping that was asked for is found. The new rows are mappings that were asked for and are stamped, and
-- their keys were not in the table.
pub record Marked (now : ℕ) (ms table after new : List SeenMapping) : Type 0 where
  pub distinct : HasDistinctRows after
  pub every : All (λ m. is_seen m after ≡ true) ms
  pub grown : after ≡ push_all new table
  pub asked : All (IsStamped now ms) new
  pub was_new : All (λ m. is_seen m table ≡ false) new

pub nothing_left :
    (now : ℕ) (table : List SeenMapping) → HasDistinctRows table → Marked now [] table table []
nothing_left now table d = record {
  distinct = d;
  every = tt;
  grown = refl;
  asked = tt;
  was_new = tt;
}

-- What is in the table stays in it.
is_seen-push_all :
    (m : SeenMapping) (new table : List SeenMapping)
    → is_seen m table ≡ true
    → is_seen m (push_all new table) ≡ true
is_seen-push_all m [] table h = h
is_seen-push_all m (x ∷ new) table h = is_seen-push_all m new (x ∷ table) (ground (arith, h))

is_seen-after :
    {now : ℕ} {ms table after new : List SeenMapping} (m : SeenMapping)
    → Marked now ms table after new
    → is_seen m table ≡ true
    → is_seen m after ≡ true
is_seen-after {table = table} {new = new} m k h =
    ap (is_seen m) k.grown ∙ is_seen-push_all m new table h

IsStamped-more :
    (now : ℕ) (m : SeenMapping) (ms : List SeenMapping) (row : SeenMapping)
    → IsStamped now ms row
    → IsStamped now (m ∷ ms) row
IsStamped-more now m ms row (x, among, e) = (x, inr among, e)

skip_seen :
    (now : ℕ) (m : SeenMapping) (ms table after new : List SeenMapping)
    → is_seen m table ≡ true
    → Marked now ms table after new
    → Marked now (m ∷ ms) table after new
skip_seen now m ms table after new seen k = record {
  distinct = k.distinct;
  every = (is_seen-after m k seen, k.every);
  grown = k.grown;
  asked = All-map (IsStamped-more now m ms) new k.asked;
  was_new = k.was_new;
}

insert_new :
    (now : ℕ) (m : SeenMapping) (ms table after new : List SeenMapping)
    → is_seen m table ≡ false
    → Marked now ms (stamp now m ∷ table) after new
    → Marked now (m ∷ ms) table after (stamp now m ∷ new)
insert_new now m ms table after new fresh k = record {
  distinct = k.distinct;
  every = (is_seen-after m k (rw (same_key-stamp now m)), k.every);
  grown = k.grown;
  asked = ((m, inl refl, refl), All-map (IsStamped-more now m ms) new k.asked);
  was_new = (is_seen-stamp now m table ∙ fresh, All-map (λ x h. ground (arith, h)) new k.was_new);
}

insert_from-Marked :
    (now : ℕ) (answer : ℕ → Option DbError) (i : ℕ) (ms table after new : List SeenMapping)
    → HasDistinctRows table
    → insert_from now answer i ms table ≡ ok (after, new)
    → Marked now ms table after new
unfolding insert_from
insert_from-Marked now answer i [] table after new d h =
    let same : table ≡ after = cc in
    let empty : [] ≡ new = cc in rw (← same, ← empty) (nothing_left now table d)
insert_from-Marked now answer i (m ∷ ms) table after new d h = elim (Option-cases (answer i)) [
  | inr (e, failed) ↦ absurd (ground arith)
  | inl ran ↦ elim (Bool-cases (is_seen m table)) [
    | inl seen ↦
        skip_seen now m ms table after new seen
          (insert_from-Marked now answer (suc i) ms table after new d (ground arith))
    | inr fresh ↦ elim (DbResult-cases (insert_from now answer (suc i) ms (stamp now m ∷ table))) [
      | inr (e, failed) ↦ absurd (ground arith)
      | inl ((after', new'), rest) ↦
          let k =
            insert_from-Marked now answer (suc i) ms (stamp now m ∷ table) after' new'
              (is_seen-stamp now m table ∙ fresh, d) rest in
          let same : after' ≡ after = ground arith in
          let same' : (stamp now m ∷ new') ≡ new = ground arith in
          rw (← same, ← same') (insert_new now m ms table after' new' fresh k)
    ]
  ]
]

insert_from-All_seen :
    (now i : ℕ) (ms table : List SeenMapping)
    → All (λ m. is_seen m table ≡ true) ms
    → insert_from now quiet i ms table ≡ ok (table, [])
unfolding insert_from
insert_from-All_seen now i [] table h = refl
insert_from-All_seen now i (m ∷ ms) table (seen, h) =
    rw (seen, insert_from) (insert_from-All_seen now (suc i) ms table h)

mark_ran :
    (begin commit : Option DbError) (answer : ℕ → Option DbError)
    (ms table after new : List SeenMapping) (now : ℕ)
    → mark_seen_mappings_once begin answer commit ms now table ≡ (after, ok new)
    → insert_from now answer 0 ms table ≡ ok (after, new)
unfolding mark_seen_mappings_once
mark_ran (some e) commit answer ms table after new now h = ground arith
mark_ran none commit answer ms table after new now h =
    elim (DbResult-cases (insert_from now answer 0 ms table)) [
      | inr (e, failed) ↦ absurd (ground arith)
      | inl ((after', new'), done) ↦ ground (arith, done)
    ]

-- A transaction that commits adds exactly the rows that it returns, in that order. They are mappings that were
-- asked for, with the time of the transaction, and none of their keys was in the table. No key is repeated
-- in the table after it, every mapping that was asked for is found there, and a second transaction over
-- the same mappings finds nothing new and changes nothing.
pub mark_seen_mappings_once-again :
    (begin commit : Option DbError) (answer : ℕ → Option DbError)
    (ms table after new : List SeenMapping) (now later : ℕ)
    → HasDistinctRows table
    → mark_seen_mappings_once begin answer commit ms now table ≡ (after, ok new)
    → Marked now ms table after new
      × (mark_seen_mappings_once none quiet none ms later after ≡ (after, ok []))
unfolding mark_seen_mappings_once
mark_seen_mappings_once-again begin commit answer ms table after new now later d h =
    let k =
      insert_from-Marked now answer 0 ms table after new d
        (mark_ran begin commit answer ms table after new now h) in
    (k, rw (insert_from-All_seen later 0 ms after k.every, mark_seen_mappings_once))

-- An error is that of some step.
abbrev pub HasFailed : Option DbError → (ℕ → Option DbError) → Option DbError → DbError → Type 0
HasFailed begin answer commit e =
    (begin ≡ some e) ⊎ (((i : ℕ) × (answer i ≡ some e)) ⊎ (commit ≡ some e))

insert_from-err :
    (now : ℕ) (answer : ℕ → Option DbError) (i : ℕ) (ms table : List SeenMapping) (e : DbError)
    → insert_from now answer i ms table ≡ err e
    → (j : ℕ) × (answer j ≡ some e)
unfolding insert_from
insert_from-err now answer i [] table e h = absurd (cc h)
insert_from-err now answer i (m ∷ ms) table e h = elim (Option-cases (answer i)) [
  | inr (e', failed) ↦ (i, ground arith)
  | inl ran ↦ elim (Bool-cases (is_seen m table)) [
    | inl seen ↦ insert_from-err now answer (suc i) ms table e (ground arith)
    | inr fresh ↦ elim (DbResult-cases (insert_from now answer (suc i) ms (stamp now m ∷ table))) [
      | inr (e', failed) ↦
          insert_from-err now answer (suc i) ms (stamp now m ∷ table) e (ground arith)
      | inl ((after', new'), rest) ↦ absurd (ground arith)
    ]
  ]
]

pub mark_seen_mappings_once-HasFailed :
    (begin commit : Option DbError) (answer : ℕ → Option DbError) (ms table : List SeenMapping)
    (now : ℕ) (e : DbError)
    → (mark_seen_mappings_once begin answer commit ms now table).1 ≡ err e
    → HasFailed begin answer commit e
unfolding mark_seen_mappings_once
mark_seen_mappings_once-HasFailed (some e') commit answer ms table now e h = inl (ground arith)
mark_seen_mappings_once-HasFailed none commit answer ms table now e h =
    elim (DbResult-cases (insert_from now answer 0 ms table)) [
      | inr (e', failed) ↦ inr (inl (insert_from-err now answer 0 ms table e (ground arith)))
      | inl ((after', new'), done) ↦ inr (inr (by_commit commit done h))
    ]
  where
    by_commit :
        {after new : List SeenMapping} (commit : Option DbError)
        → insert_from now answer 0 ms table ≡ ok (after, new)
        → (mark_seen_mappings_once none answer commit ms now table).1 ≡ err e
        → commit ≡ some e
    by_commit none done h = absurd (ground arith)
    by_commit (some e') done h = ground arith

-- A transaction that fails anywhere leaves the table as it was.
pub mark_seen_mappings_once-rollback :
    (begin commit : Option DbError) (answer : ℕ → Option DbError) (ms table : List SeenMapping)
    (now : ℕ) (e : DbError)
    → (mark_seen_mappings_once begin answer commit ms now table).1 ≡ err e
    → (mark_seen_mappings_once begin answer commit ms now table).0 ≡ table
unfolding mark_seen_mappings_once
mark_seen_mappings_once-rollback begin commit answer ms table now e h = ground arith
