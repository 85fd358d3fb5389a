-- ===== src/DecodedYear.antt =====
-- `readDecodedYearContext` (internal/cache/decoded_year.go) among other goroutines. Between its critical
-- sections they run any operations on the shared cache, here the argument `others`. The context may end
-- at each place where the source looks at it, the argument `ended`. The decoder is the field `decode`
-- of the source, and `size_of` its `decodedYearSize`.
pub mod Laws
use sonarr_anime_bridge.Prelude.{
  ℕ, Bool, true, false, if◌then◌else◌, List, [], ◌∷◌, Option, none, some, ℤ,
}
use sonarr_anime_bridge.Show.{Show}
use sonarr_anime_bridge.Retry.{DbResult, ok, err, canceled}
use sonarr_anime_bridge.Decoded.{DecodedCache, look_up, admit, invalidate}
use sonarr_anime_bridge.Cache.{YearData}

-- What another goroutine does to the shared cache in one critical section.
pub data Op : Type 0 where
  looks_up : ℤ → List ℕ → Bool → ℕ → Op
  admits : ℕ → ℤ → List ℕ → List Show → ℕ → Op
  invalidates : ℤ → Bool → Bool → Op

infixl 5 ◌>>=◌
abbrev ◌>>=◌ {ℓ κ} : {A : Type ℓ} {B : Type κ} → Option A → (A → Option B) → Option B
none >>= f = none
some a >>= f = f a

-- `none` is a panic.
unfoldable pub run_op : Op → DecodedCache → Option DecodedCache
run_op (looks_up year raw present generation) d = some (look_up year raw present generation d).0
run_op (admits size year raw shows generation) d = admit size year raw shows generation d
run_op (invalidates year every closed) d = some (invalidate year every closed d)

unfoldable pub run_ops : List Op → DecodedCache → Option DecodedCache
unfolding run_op
run_ops [] d = some d
run_ops (op ∷ ops) d = do d' ← run_op op d; run_ops ops d'

pub record DecodedYear : Type 0 where
  pub shows : List Show
  pub fresh : Bool
  pub present : Bool
  pub decode_err : Bool

-- The state after the call, and what it returns.
abbrev pub Outcome : Type 0
Outcome = Option (DecodedCache × DbResult DecodedYear)

abbrev pub year_of : List Show → Bool → Bool → DecodedYear
year_of shows fresh failed = record {
  shows = shows;
  fresh = fresh;
  present = true;
  decode_err = failed;
}

-- A look at the context before a return.
abbrev pub unless_ended : Bool → DecodedCache → DecodedYear → Outcome
unless_ended true d result = some (d, err canceled)
unless_ended false d result = some (d, ok result)

-- A hit is copied and returned; a miss goes on.
abbrev pub hit_or :
    Bool → YearData → DecodedCache × Option (List Show) → (DecodedCache → Outcome) → Outcome
hit_or b row (d, some shows) miss = unless_ended b d (year_of shows row.fresh false)
hit_or b row (d, none) miss = miss d

module _ (decode : List ℕ → Option (List Show)) (size_of : List ℕ → List Show → ℕ)
    (others : ℕ → List Op) (ended : ℕ → Bool) where
  -- Behind the gate of the year, after the second lookup has missed.
  unfoldable pub decode_and_admit : ℤ → YearData → ℕ → DecodedCache → Outcome
  decode_and_admit year row generation d = elim (ended 4) [
    | true ↦ some (d, err canceled)
    | false ↦ elim (decode row.raw) [
      | none ↦ unless_ended (ended 5) d (year_of [] row.fresh true)
      | some shows ↦ do
        d' ← run_ops (others 2) d
        d'' ← admit (size_of row.raw shows) year row.raw shows generation d'
        unless_ended (ended 5) d'' (year_of shows row.fresh false)
    ]
  ]

  -- `acquire` waits for the gate while others run.
  unfoldable pub behind_gate : ℤ → YearData → ℕ → DecodedCache → Outcome
  unfolding decode_and_admit
  behind_gate year row generation d = elim (ended 2) [
    | true ↦ some (d, err canceled)
    | false ↦ do
      d' ← run_ops (others 1) d
      elim (ended 3) [
        | true ↦ some (d', err canceled)
        | false ↦
            hit_or (ended 5) row (look_up year row.raw true generation d')
              (decode_and_admit year row generation)
      ]
  ]

  -- After the read of the database.
  unfoldable pub after_read : ℤ → ℕ → DbResult (Option YearData) → DecodedCache → Outcome
  unfolding behind_gate
  after_read year generation (err e) d = some (d, err e)
  after_read year generation (ok none) d =
      unless_ended (ended 1) (look_up year [] false generation d).0
        (record { shows = []; fresh = false; present = false; decode_err = false })
  after_read year generation (ok (some row)) d =
      hit_or (ended 5) row (look_up year row.raw true generation d)
        (behind_gate year row generation)

  unfoldable pub read_decoded_year : ℤ → DbResult (Option YearData) → DecodedCache → Outcome
  unfolding run_ops after_read
  read_decoded_year year answer d = elim (ended 0) [
    | true ↦ some (d, err canceled)
    | false ↦ do d' ← run_ops (others 0) d; after_read year d.generation answer d'
  ]
