-- ===== src/Scheduler/Flights/Steps.antt =====
-- Each step of the calls of `fetchAndStore` around its map `inflight` keeps them coordinated
-- (internal/scheduler/scheduler.go).
use mathlib.Core.Path.{subst}
use native.Mathlib.Decide.{dec_le}
use sonarr_anime_bridge.Prelude.{
  ℕ, ◌+◌, ◌<◌, ◌≡◌, ◌≢◌, refl, sym, ◌∙◌, ap, Option, none, some, ℤ, ℤ_discrete, arith, some_lem,
}
use sonarr_anime_bridge.Scheduler.Flights.{
  FetchResult, Phase, owns, closes, finishes, waits, receives, gives_up, Flights, update,
  update_year, set_phase, join_from, close_done, delete_inflight, receive, give_up,
}
use sonarr_anime_bridge.Scheduler.Flights.Moves.{
  IsFlight, update_self, update_other, update_year_self, update_year_other, IsFlying, Fits,
  IsCoordinated, IsFlying-IsFlight, update_all, moved, moved-IsFlight, moved-IsFlying, moved-Fits,
  moved-unused,
}

-- The phase of a call is known.
Fits-at : (s : Flights) (n : ℕ) (p : Option Phase) → IsCoordinated s → s.calls n ≡ p → Fits s n p
Fits-at s n p h e = subst (Fits s n) e (h.fits n)

-- A call whose phase is known was started.
started : (s : Flights) (n : ℕ) (p : Phase) → IsCoordinated s → s.calls n ≡ some p → n < s.next
started s n p h e = elim (dec_le s.next n) [
  | yes le ↦ absurd (cc (h.unused n le, e))
  | no nle ↦ omega (arith, nle)
]

-- A call moves on, and nothing else changes.
set_phase-IsCoordinated :
    (s : Flights) (k : ℕ) (p q : Phase)
    → IsCoordinated s
    → s.calls k ≡ some p
    → Fits (set_phase k q s) k (some q)
    → ((y : ℤ) → IsFlight y (some p) → IsFlight y (some q))
    → ((y : ℤ) → IsFlying y (some p) → IsFlying y (some q))
    → IsCoordinated (set_phase k q s)
set_phase-IsCoordinated s k p q h e fit c f = record {
  fits = update_all (Fits (set_phase k q s)) k q s.calls fit λ m ne.
      moved-Fits s k q s.next s.inflight s.done (λ y m ne i. i) (λ m ne. refl) (λ n r d. d)
        (λ y g. c y (subst (IsFlight y) e g)) m (s.calls m) ne (h.fits m);
  flying = λ y n i. moved-IsFlying s k q y (λ g. f y (subst (IsFlying y) e g)) n (h.flying y n i);
  unused = λ n g.
      update_other k n (some q) s.calls (λ z. omega (arith, z, started s k p h e, g))
      ∙ h.unused n g;
}

pub receive-IsCoordinated :
    (s : Flights) (m : ℕ) (y : ℤ) (n : ℕ) (r : FetchResult)
    → IsCoordinated s
    → s.calls m ≡ some (waits y n)
    → s.done n ≡ some r
    → IsCoordinated (receive m y n r s)
unfolding receive
receive-IsCoordinated s m y n r h e d =
    set_phase-IsCoordinated s m (waits y n) (receives y n r) h e
      (
        moved-IsFlight s m (receives y n r) (λ z g. absurd (subst (IsFlight z) e g)) y n
            (Fits-at s m (some (waits y n)) h e),
        d,
      )
      (λ z g. g) (λ z g. g)

pub give_up-IsCoordinated :
    (s : Flights) (m : ℕ) (y : ℤ) (n : ℕ)
    → IsCoordinated s
    → s.calls m ≡ some (waits y n)
    → IsCoordinated (give_up m y n s)
unfolding give_up
give_up-IsCoordinated s m y n h e =
    set_phase-IsCoordinated s m (waits y n) (gives_up y n) h e tt (λ z g. g) (λ z g. g)

pub close_done-IsCoordinated :
    (s : Flights) (n : ℕ) (year : ℤ) (r : FetchResult)
    → IsCoordinated s
    → s.calls n ≡ some (owns year)
    → IsCoordinated (close_done n year r s)
unfolding close_done
close_done-IsCoordinated s n year r h e =
    let (i, open_) = Fits-at s n (some (owns year)) h e in
    let q = closes year r in
    record {
      fits =
          update_all (Fits (moved s n q s.next s.inflight (update n (some r) s.done))) n q s.calls
            (i, update_self n (some r) s.done)
            λ m ne.
              moved-Fits s n q s.next s.inflight (update n (some r) s.done) (λ y m ne i. i)
                (λ m ne. update_other n m (some r) s.done ne)
                (λ j x d. update_other n j (some r) s.done (λ z. cc (open_, d, ap s.done z)) ∙ d)
                (λ y g. subst (IsFlight y) e g) m (s.calls m) ne (h.fits m);
      flying = λ y m j. moved-IsFlying s n q y (λ g. subst (IsFlying y) e g) m (h.flying y m j);
      unused =
          moved-unused s n q s.next s.inflight (update n (some r) s.done) h.unused
            (started s n _ h e) (omega arith);
    }

pub delete_inflight-IsCoordinated :
    (s : Flights) (n : ℕ) (year : ℤ) (r : FetchResult)
    → IsCoordinated s
    → s.calls n ≡ some (closes year r)
    → IsCoordinated (delete_inflight n year r s)
unfolding delete_inflight
delete_inflight-IsCoordinated s n year r h e =
    let (i, d) = Fits-at s n (some (closes year r)) h e in
    let q = finishes year r in
    let inflight' : ℤ → Option ℕ = update_year year none s.inflight in
    -- The year of another flight is another one.
    let apart : (y : ℤ) (m : ℕ) → n ≢ m → s.inflight y ≡ some m → year ≢ y =
      λ y m ne j z. ne (some_lem (sym i ∙ ap s.inflight z ∙ j)) in
    record {
      fits = update_all (Fits (moved s n q s.next inflight' s.done)) n q s.calls d λ m ne.
          moved-Fits s n q s.next inflight' s.done
            (λ y m ne j. update_year_other year y none s.inflight (apart y m ne j) ∙ j)
            (λ m ne. refl) (λ n r d. d) (λ y g. subst (IsFlight y) e g) m (s.calls m) ne (h.fits m);
      flying = λ y m j. elim (ℤ_discrete year y) [
        | yes z ↦ absurd (cc (sym (update_year_self year none s.inflight) ∙ ap inflight' z ∙ j))
        | no nz ↦
            moved-IsFlying s n q y (λ g. nz (subst (IsFlying y) e g)) m
              (h.flying y m (sym (update_year_other year y none s.inflight nz) ∙ j))
      ];
      unused =
          moved-unused s n q s.next inflight' s.done h.unused (started s n _ h e) (omega arith);
    }

pub join_from-IsCoordinated :
    (s : Flights) (year : ℤ) (o : Option ℕ)
    → IsCoordinated s
    → s.inflight year ≡ o
    → IsCoordinated (join_from year s o)
join_from-IsCoordinated s year (some n) h i =
    let new = h.unused s.next (omega arith) in
    let q = waits year n in
    let c : (y : ℤ) → IsFlight y (s.calls s.next) → IsFlight y (some q) =
      λ y g. subst (IsFlight y) new g in
    record {
      fits =
          update_all (Fits (moved s s.next q (s.next + 1) s.inflight s.done)) s.next q s.calls
            (moved-IsFlight s s.next q c year n (IsFlying-IsFlight year _ (h.flying year n i)))
            λ m ne.
              moved-Fits s s.next q (s.next + 1) s.inflight s.done (λ y m ne j. j) (λ m ne. refl)
                (λ n r d. d) c m (s.calls m) ne (h.fits m);
      flying =
          λ y m j. moved-IsFlying s s.next q y (λ g. subst (IsFlying y) new g) m (h.flying y m j);
      unused =
          moved-unused s s.next q (s.next + 1) s.inflight s.done h.unused (omega arith)
            (omega arith);
    }
join_from-IsCoordinated s year none h i =
    let new = h.unused s.next (omega arith) in
    let q = owns year in
    let c : (y : ℤ) → IsFlight y (s.calls s.next) → IsFlight y (some q) =
      λ y g. absurd (subst (IsFlight y) new g) in
    let inflight' : ℤ → Option ℕ = update_year year (some s.next) s.inflight in
    record {
      fits =
          update_all (Fits (moved s s.next q (s.next + 1) inflight' s.done)) s.next q s.calls
            (update_year_self year (some s.next) s.inflight, Fits-at s s.next none h new)
            λ m ne.
              moved-Fits s s.next q (s.next + 1) inflight' s.done
                (λ y m ne j.
                  update_year_other year y (some s.next) s.inflight
                    (λ z. cc (i, ap s.inflight z, j))
                  ∙ j)
                (λ m ne. refl) (λ n r d. d) c m (s.calls m) ne (h.fits m);
      flying = λ y m j. elim (ℤ_discrete year y) [
        | yes z ↦
            subst (λ m. IsFlying y (update s.next (some q) s.calls m))
              (some_lem (sym (update_year_self year (some s.next) s.inflight) ∙ ap inflight' z ∙ j))
              (subst (IsFlying y) (sym (update_self s.next (some q) s.calls)) z)
        | no nz ↦
            moved-IsFlying s s.next q y (λ g. absurd (subst (IsFlying y) new g)) m
              (h.flying y m (sym (update_year_other year y (some s.next) s.inflight nz) ∙ j))
      ];
      unused =
          moved-unused s s.next q (s.next + 1) inflight' s.done h.unused (omega arith)
            (omega arith);
    }
