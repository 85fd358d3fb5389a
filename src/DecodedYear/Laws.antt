-- ===== src/DecodedYear/Laws.antt =====
-- Whatever other goroutines do between its steps, a read returns the decoding of the bytes that it read.
use sonarr_anime_bridge.Prelude.{
  ℕ, ◌≡◌, inl, inr, refl, Bool, true, false, if◌then◌else◌, List, [], ◌∷◌, Option, none, some, ℤ,
  All, Option-cases, Bool-cases,
}
use sonarr_anime_bridge.Show.{Show}
use sonarr_anime_bridge.Retry.{DbResult, ok, err, canceled}
use sonarr_anime_bridge.Decoded.{DecodedCache, look_up}
use sonarr_anime_bridge.Decoded.Invariant.{IsValid, look_up-IsValid, invalidate-IsValid}
use sonarr_anime_bridge.Decoded.Admit.{admit-IsValid, look_up-decode}
use sonarr_anime_bridge.Cache.{YearData}
use sonarr_anime_bridge.DecodedYear.{
  year_of, unless_ended, hit_or, Op, looks_up, admits, invalidates, run_op, run_ops, DecodedYear,
  Outcome, decode_and_admit, behind_gate, after_read, read_decoded_year,
}

module _ (decode : List ℕ → Option (List Show)) where
  -- Others admit what they decoded, as this call does.
  abbrev pub IsHonest : Op → Type 0
  IsHonest (looks_up year raw present generation) = Unit
  IsHonest (admits size year raw shows generation) = decode raw ≡ some shows
  IsHonest (invalidates year every closed) = Unit

  run_op-IsValid :
      (op : Op) (d : DecodedCache)
      → IsHonest op
      → IsValid decode d
      → (d' : DecodedCache) × (run_op op d ≡ some d') × IsValid decode d'
  unfolding run_op
  run_op-IsValid (looks_up year raw present generation) d h v =
      (_, refl, look_up-IsValid decode year raw present generation v)
  run_op-IsValid (admits size year raw shows generation) d h v =
      admit-IsValid decode size year raw shows generation v h
  run_op-IsValid (invalidates year every closed) d h v =
      (_, refl, invalidate-IsValid decode year every closed v)

  -- No sequence of operations panics or breaks the invariant.
  pub run_ops-IsValid :
      (ops : List Op) (d : DecodedCache)
      → All IsHonest ops
      → IsValid decode d
      → (d' : DecodedCache) × (run_ops ops d ≡ some d') × IsValid decode d'
  unfolding run_ops
  run_ops-IsValid [] d h v = (d, refl, v)
  run_ops-IsValid (op ∷ ops) d (h, hs) v =
      let (d', ran, w) = run_op-IsValid op d h v in
      let (d'', rest, u) = run_ops-IsValid ops d' hs w in (d'', rw ran rest, u)

  -- What a caller may conclude from a result.
  abbrev pub Describes : Option YearData → DecodedYear → Type 0
  Describes none r = r.present ≡ false
  Describes (some row) r =
      (r.present ≡ true)
      × (r.fresh ≡ row.fresh)
      × (decode row.raw ≡ (if r.decode_err then none else some r.shows))

  -- The call returns, the cache is valid, and a result is right.
  abbrev pub IsRight : DbResult (Option YearData) → DbResult DecodedYear → Type 0
  IsRight (ok row) (ok r) = Describes row r
  IsRight answer (err e) = Unit
  IsRight (err e) (ok r) = ⊥

  pub record Returns (answer : DbResult (Option YearData)) (o : Outcome) : Type 0 where
    pub state : DecodedCache
    pub result : DbResult DecodedYear
    pub ran : o ≡ some (state, result)
    pub valid : IsValid decode state
    pub right : IsRight answer result

  finish :
      (answer : DbResult (Option YearData)) (b : Bool) (d : DecodedCache) (r : DecodedYear)
      → IsValid decode d
      → IsRight answer (ok r)
      → IsRight answer (err canceled)
      → Returns answer (unless_ended b d r)
  finish answer true d r v right other = record {
    state = d;
    result = err canceled;
    ran = refl;
    valid = v;
    right = other;
  }
  finish answer false d r v right other = record {
    state = d;
    result = ok r;
    ran = refl;
    valid = v;
    right = right;
  }

  -- With an error there is nothing to be right about.
  failed :
      (row : YearData) (d : DecodedCache)
      → IsValid decode d
      → Returns (ok (some row)) (some (d, err canceled))
  failed row d v = record { state = d; result = err canceled; ran = refl; valid = v; right = tt }

  module _ (size_of : List ℕ → List Show → ℕ) (others : ℕ → List Op) (ended : ℕ → Bool)
      (honest : (i : ℕ) → All IsHonest (others i)) where
    decode_and_admit-Returns :
        (year : ℤ) (row : YearData) (generation : ℕ) (d : DecodedCache)
        → IsValid decode d
        → Returns
            (ok (some row))
            (decode_and_admit decode size_of others ended year row generation d)
    unfolding decode_and_admit
    decode_and_admit-Returns year row generation d v = elim (Bool-cases (ended 4)) [
      | inl stop ↦ rw (stop, decode_and_admit) (failed row d v)
      | inr go ↦ elim (Option-cases (decode row.raw)) [
        | inl bad ↦
            rw (go, bad, decode_and_admit)
              (finish (ok (some row)) (ended 5) d (year_of [] row.fresh true) v (refl, refl, bad)
                tt)
        | inr (shows, good) ↦
            let (d', ran, w) = run_ops-IsValid (others 2) d (honest 2) v in
            let (d'', admitted, u) =
              admit-IsValid decode (size_of row.raw shows) year row.raw shows generation w good in
            rw (go, good, ran, admitted, decode_and_admit)
              (finish (ok (some row)) (ended 5) d'' (year_of shows row.fresh false) u
                (refl, refl, good) tt)
      ]
    ]

    hit_or-Returns :
        (year : ℤ) (row : YearData) (generation : ℕ) (d : DecodedCache)
        (miss : DecodedCache → Outcome)
        → IsValid decode d
        → ((c : DecodedCache) → IsValid decode c → Returns (ok (some row)) (miss c))
        → Returns
            (ok (some row))
            (hit_or (ended 5) row (look_up year row.raw true generation d) miss)
    hit_or-Returns year row generation d miss v go_on =
        let w = look_up-IsValid decode year row.raw true generation v in
        elim (Option-cases (look_up year row.raw true generation d).1) [
          | inl missed ↦ rw (missed, hit_or) (go_on (look_up year row.raw true generation d).0 w)
          | inr (shows, hit) ↦
              rw (hit, hit_or)
                (finish (ok (some row)) (ended 5) (look_up year row.raw true generation d).0
                  (year_of shows row.fresh false) w
                  (refl, refl, look_up-decode decode year row.raw true generation shows v hit) tt)
        ]

    behind_gate-Returns :
        (year : ℤ) (row : YearData) (generation : ℕ) (d : DecodedCache)
        → IsValid decode d
        → Returns (ok (some row)) (behind_gate decode size_of others ended year row generation d)
    unfolding behind_gate
    behind_gate-Returns year row generation d v = elim (Bool-cases (ended 2)) [
      | inl stop ↦ rw (stop, behind_gate) (failed row d v)
      | inr go ↦
          let (d', ran, w) = run_ops-IsValid (others 1) d (honest 1) v in
          elim (Bool-cases (ended 3)) [
            | inl stop ↦ rw (go, ran, stop, behind_gate) (failed row d' w)
            | inr go_on ↦
                rw (go, ran, go_on, behind_gate)
                  (hit_or-Returns year row generation d'
                    (decode_and_admit decode size_of others ended year row generation) w
                    (decode_and_admit-Returns year row generation))
          ]
    ]

    after_read-Returns :
        (year : ℤ) (generation : ℕ) (answer : DbResult (Option YearData)) (d : DecodedCache)
        → IsValid decode d
        → Returns answer (after_read decode size_of others ended year generation answer d)
    unfolding after_read
    after_read-Returns year generation (err e) d v = record {
      state = d;
      result = err e;
      ran = refl;
      valid = v;
      right = tt;
    }
    after_read-Returns year generation (ok none) d v =
        finish (ok none) (ended 1) _ _ (look_up-IsValid decode year [] false generation v) refl tt
    after_read-Returns year generation (ok (some row)) d v =
        hit_or-Returns year row generation d
          (behind_gate decode size_of others ended year row generation) v
          (behind_gate-Returns year row generation)

    -- Whatever other goroutines do in between, as long as they admit only what they decoded themselves:
    -- the call returns without a panic, the cache stays valid, and a result without an error says
    -- truly whether the year was present and fresh, and carries the decoding of the very bytes that
    -- were read, or the decoding error of those.
    pub read_decoded_year-Returns :
        (year : ℤ) (answer : DbResult (Option YearData)) (d : DecodedCache)
        → IsValid decode d
        → Returns answer (read_decoded_year decode size_of others ended year answer d)
    unfolding read_decoded_year
    read_decoded_year-Returns year answer d v = elim (Bool-cases (ended 0)) [
      | inl stop ↦ rw (stop, read_decoded_year) (ended_early answer)
      | inr go ↦
          let (d', ran, w) = run_ops-IsValid (others 0) d (honest 0) v in
          rw (go, ran, read_decoded_year) (after_read-Returns year d.generation answer d' w)
    ]
      where
        ended_early : (a : DbResult (Option YearData)) → Returns a (some (d, err canceled))
        ended_early (ok row) = record {
          state = d;
          result = err canceled;
          ran = refl;
          valid = v;
          right = tt;
        }
        ended_early (err e) = record {
          state = d;
          result = err canceled;
          ran = refl;
          valid = v;
          right = tt;
        }
