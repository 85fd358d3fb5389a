-- ===== src/Scheduler/Flights/Laws.antt =====
-- In whatever order calls come and end, a year has one fetch at a time, and the calls that wait for it get
-- its result (internal/scheduler/scheduler.go, `fetchAndStore`).
use sonarr_anime_bridge.Prelude.{
  ℕ, ◌≡◌, ◌⊎◌, inl, inr, refl, sym, ◌∙◌, ap, Option, none, some, ℤ, some_lem,
}
use sonarr_anime_bridge.Scheduler.Flights.{
  FetchResult, Phase, owns, closes, finishes, waits, receives, gives_up, Flights, join, receive,
  FlightStep, joins, ends_fetch, deletes, gets, times_out, Flies, takes_off, flies,
}
use sonarr_anime_bridge.Scheduler.Flights.Moves.{IsFlight, IsFlying, Fits, IsCoordinated}
use sonarr_anime_bridge.Scheduler.Flights.Steps.{
  receive-IsCoordinated, give_up-IsCoordinated, close_done-IsCoordinated,
  delete_inflight-IsCoordinated, join_from-IsCoordinated,
}

FlightStep-IsCoordinated : {s t : Flights} → IsCoordinated s → FlightStep s t → IsCoordinated t
unfolding join
FlightStep-IsCoordinated {s = s} h (joins year) =
    join_from-IsCoordinated s year (s.inflight year) h refl
FlightStep-IsCoordinated {s = s} h (ends_fetch n year r e) = close_done-IsCoordinated s n year r h e
FlightStep-IsCoordinated {s = s} h (deletes n year r e) =
    delete_inflight-IsCoordinated s n year r h e
FlightStep-IsCoordinated {s = s} h (gets m year n r e d) = receive-IsCoordinated s m year n r h e d
FlightStep-IsCoordinated {s = s} h (times_out m year n e) = give_up-IsCoordinated s m year n h e

Flies-IsCoordinated : {s : Flights} → Flies s → IsCoordinated s
Flies-IsCoordinated takes_off = record {
  fits = λ m. refl;
  flying = λ y n i. absurd (cc i);
  unused = λ n g. refl;
}
Flies-IsCoordinated (flies s t path step) = FlightStep-IsCoordinated (Flies-IsCoordinated path) step

IsFlying-inflight :
    (s : Flights) (year : ℤ) (n : ℕ) (p : Option Phase)
    → Fits s n p
    → IsFlying year p
    → s.inflight year ≡ some n
IsFlying-inflight s year n none f h = absurd h
IsFlying-inflight s year n (some (owns y)) (i, d) h = ap s.inflight (sym h) ∙ i
IsFlying-inflight s year n (some (closes y r)) (i, d) h = ap s.inflight (sym h) ∙ i
IsFlying-inflight s year n (some (finishes y r)) f h = absurd h
IsFlying-inflight s year n (some (waits y m)) f h = absurd h
IsFlying-inflight s year n (some (receives y m r)) f h = absurd h
IsFlying-inflight s year n (some (gives_up y m)) f h = absurd h

-- In whatever order calls come, fetch, wait and end: no two calls have a fetch of the same year under way.
pub Flies-inflight :
    (s : Flights) (year : ℤ) (m n : ℕ)
    → Flies s
    → IsFlying year (s.calls m)
    → IsFlying year (s.calls n)
    → m ≡ n
Flies-inflight s year m n path a b =
    let h = Flies-IsCoordinated path in
    some_lem (
      sym (IsFlying-inflight s year m (s.calls m) (h.fits m) a)
      ∙ IsFlying-inflight s year n (s.calls n) (h.fits n) b)

-- A call that waits can receive a result as soon as the call it waits for has one; a call that has received
-- a result has the one of a fetch of its year.
abbrev pub IsAnswered : Flights → ℕ → Option Phase → Type 0
IsAnswered s m (some (waits y n)) =
    (s.calls n ≡ some (owns y)) ⊎ ((r : FetchResult) × FlightStep s (receive m y n r s))
IsAnswered s m (some (receives y n r)) =
    (s.calls n ≡ some (closes y r)) ⊎ (s.calls n ≡ some (finishes y r))
IsAnswered s m p = Unit

waits-IsAnswered :
    (s : Flights) (m : ℕ) (y : ℤ) (n : ℕ) (p : Option Phase)
    → s.calls m ≡ some (waits y n)
    → s.calls n ≡ p
    → Fits s n p
    → IsFlight y p
    → IsAnswered s m (some (waits y n))
waits-IsAnswered s m y n none w e f g = absurd g
waits-IsAnswered s m y n (some (owns z)) w e f g = inl (e ∙ ap (λ x. some (owns x)) g)
waits-IsAnswered s m y n (some (closes z r)) w e (i, d) g = inr (r, gets m y n r w d)
waits-IsAnswered s m y n (some (finishes z r)) w e d g = inr (r, gets m y n r w d)
waits-IsAnswered s m y n (some (waits z k)) w e f g = absurd g
waits-IsAnswered s m y n (some (receives z k r)) w e f g = absurd g
waits-IsAnswered s m y n (some (gives_up z k)) w e f g = absurd g

receives-IsAnswered :
    (s : Flights) (m : ℕ) (y : ℤ) (n : ℕ) (r : FetchResult) (p : Option Phase)
    → s.calls n ≡ p
    → Fits s n p
    → IsFlight y p
    → s.done n ≡ some r
    → IsAnswered s m (some (receives y n r))
receives-IsAnswered s m y n r none e f g d = absurd g
receives-IsAnswered s m y n r (some (owns z)) e (i, open_) g d = absurd (cc (open_, d))
receives-IsAnswered s m y n r (some (closes z q)) e (i, c) g d =
    inl (e ∙ cc (g, some_lem (sym c ∙ d)))
receives-IsAnswered s m y n r (some (finishes z q)) e c g d = inr (e ∙ cc (g, some_lem (sym c ∙ d)))
receives-IsAnswered s m y n r (some (waits z k)) e f g d = absurd g
receives-IsAnswered s m y n r (some (receives z k q)) e f g d = absurd g
receives-IsAnswered s m y n r (some (gives_up z k)) e f g d = absurd g

Fits-IsAnswered :
    (s : Flights) (m : ℕ) (p : Option Phase)
    → IsCoordinated s
    → s.calls m ≡ p
    → Fits s m p
    → IsAnswered s m p
Fits-IsAnswered s m none h e f = tt
Fits-IsAnswered s m (some (owns y)) h e f = tt
Fits-IsAnswered s m (some (closes y r)) h e f = tt
Fits-IsAnswered s m (some (finishes y r)) h e f = tt
Fits-IsAnswered s m (some (waits y n)) h e f =
    waits-IsAnswered s m y n (s.calls n) e refl (h.fits n) f
Fits-IsAnswered s m (some (receives y n r)) h e (f, d) =
    receives-IsAnswered s m y n r (s.calls n) refl (h.fits n) f d
Fits-IsAnswered s m (some (gives_up y n)) h e f = tt

-- In whatever order calls come, fetch, wait and end: a call that waits waits for a call that is still fetching
-- its year, or can receive a result at once; a call that has received a result has the very result of
-- the call that fetched its year.
pub Flies-IsAnswered : (s : Flights) (m : ℕ) → Flies s → IsAnswered s m (s.calls m)
Flies-IsAnswered s m path =
    let h = Flies-IsCoordinated path in Fits-IsAnswered s m (s.calls m) h refl (h.fits m)
