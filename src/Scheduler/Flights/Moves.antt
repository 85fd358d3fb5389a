-- ===== src/Scheduler/Flights/Moves.antt =====
-- What holds while calls of `fetchAndStore` coalesce (internal/scheduler/scheduler.go, its map `inflight`), and
-- the move of one call.
use mathlib.Core.Path.{subst}
use sonarr_anime_bridge.Prelude.{
  ℕ, ◌≤◌, ◌<◌, ◌≡◌, ◌≢◌, refl, ◌∙◌, Option, none, some, ℤ, ℤ_discrete, ℕ_discrete, ite, if_pos,
  if_neg, arith,
}
use sonarr_anime_bridge.Scheduler.Flights.{
  FetchResult, Phase, owns, closes, finishes, waits, receives, gives_up, Flights, update,
  update_year,
}

pub update_self {ℓ} : {V : Type ℓ} (k : ℕ) (v : V) (f : ℕ → V) → update k v f k ≡ v
update_self k v f = if_pos (ℕ_discrete k k) refl v (f k)

pub update_other {ℓ} : {V : Type ℓ} (k n : ℕ) (v : V) (f : ℕ → V) → k ≢ n → update k v f n ≡ f n
update_other k n v f ne = if_neg (ℕ_discrete k n) ne v (f n)

pub update_year_self {ℓ} : {V : Type ℓ} (k : ℤ) (v : V) (f : ℤ → V) → update_year k v f k ≡ v
update_year_self k v f = if_pos (ℤ_discrete k k) refl v (f k)

pub update_year_other {ℓ} :
    {V : Type ℓ} (k y : ℤ) (v : V) (f : ℤ → V) → k ≢ y → update_year k v f y ≡ f y
update_year_other k y v f ne = if_neg (ℤ_discrete k y) ne v (f y)

-- The call is the one whose fetch of the year was joined.
abbrev pub IsFlight : ℤ → Option Phase → Type 0
IsFlight year none = ⊥
IsFlight year (some (owns y)) = y ≡ year
IsFlight year (some (closes y r)) = y ≡ year
IsFlight year (some (finishes y r)) = y ≡ year
IsFlight year (some (waits y n)) = ⊥
IsFlight year (some (receives y n r)) = ⊥
IsFlight year (some (gives_up y n)) = ⊥

-- It is under way.
abbrev pub IsFlying : ℤ → Option Phase → Type 0
IsFlying year none = ⊥
IsFlying year (some (owns y)) = y ≡ year
IsFlying year (some (closes y r)) = y ≡ year
IsFlying year (some (finishes y r)) = ⊥
IsFlying year (some (waits y n)) = ⊥
IsFlying year (some (receives y n r)) = ⊥
IsFlying year (some (gives_up y n)) = ⊥

-- What is true of a call in each phase.
abbrev pub Fits : Flights → ℕ → Option Phase → Type 0
Fits s m none = s.done m ≡ none
Fits s m (some (owns y)) = (s.inflight y ≡ some m) × (s.done m ≡ none)
Fits s m (some (closes y r)) = (s.inflight y ≡ some m) × (s.done m ≡ some r)
Fits s m (some (finishes y r)) = s.done m ≡ some r
Fits s m (some (waits y n)) = IsFlight y (s.calls n)
Fits s m (some (receives y n r)) = IsFlight y (s.calls n) × (s.done n ≡ some r)
Fits s m (some (gives_up y n)) = Unit

pub record IsCoordinated (s : Flights) : Type 0 where
  pub fits : (m : ℕ) → Fits s m (s.calls m)
  pub flying : (y : ℤ) (n : ℕ) → s.inflight y ≡ some n → IsFlying y (s.calls n)
  pub unused : (n : ℕ) → s.next ≤ n → s.calls n ≡ none

pub IsFlying-IsFlight : (y : ℤ) (p : Option Phase) → IsFlying y p → IsFlight y p
IsFlying-IsFlight y none h = h
IsFlying-IsFlight y (some (owns z)) h = h
IsFlying-IsFlight y (some (closes z r)) h = h
IsFlying-IsFlight y (some (finishes z r)) h = absurd h
IsFlying-IsFlight y (some (waits z n)) h = h
IsFlying-IsFlight y (some (receives z n r)) h = h
IsFlying-IsFlight y (some (gives_up z n)) h = h

-- What holds of all calls after one of them has moved.
pub update_all {ℓ} :
    (P : ℕ → Option Phase → Type ℓ) (k : ℕ) (q : Phase) (f : ℕ → Option Phase)
    → P k (some q)
    → ((m : ℕ) → k ≢ m → P m (f m))
    → (m : ℕ) → P m (update k (some q) f m)
update_all P k q f here there m = elim (ℕ_discrete k m) as (λ d. P m (ite d (some q) (f m))) [
  | yes e ↦ subst (λ j. P j (some q)) e here
  | no ne ↦ there m ne
]

-- A state that differs from `s` in what one call does.
abbrev pub moved : Flights → ℕ → Phase → ℕ → (ℤ → Option ℕ) → (ℕ → Option FetchResult) → Flights
moved s k q next inflight done = record {
  next = next;
  calls = update k (some q) s.calls;
  inflight = inflight;
  done = done;
}

module _ (s : Flights) (k : ℕ) (q : Phase) where
  pub moved-IsFlight :
      ((y : ℤ) → IsFlight y (s.calls k) → IsFlight y (some q))
      → (y : ℤ) (n : ℕ) → IsFlight y (s.calls n)
      → IsFlight y (update k (some q) s.calls n)
  moved-IsFlight c y n =
      update_all (λ n p. IsFlight y (s.calls n) → IsFlight y p) k q s.calls (c y) (λ m ne h. h) n

  pub moved-IsFlying :
      (y : ℤ)
      → (IsFlying y (s.calls k) → IsFlying y (some q))
      → (n : ℕ) → IsFlying y (s.calls n)
      → IsFlying y (update k (some q) s.calls n)
  moved-IsFlying y c n =
      update_all (λ n p. IsFlying y (s.calls n) → IsFlying y p) k q s.calls c (λ m ne h. h) n

  module _ (next : ℕ) (inflight : ℤ → Option ℕ) (done : ℕ → Option FetchResult) where
    pub moved-Fits :
        ((y : ℤ) (m : ℕ) → k ≢ m → s.inflight y ≡ some m → inflight y ≡ some m)
        → ((m : ℕ) → k ≢ m → done m ≡ s.done m)
        → ((n : ℕ) (r : FetchResult) → s.done n ≡ some r → done n ≡ some r)
        → ((y : ℤ) → IsFlight y (s.calls k) → IsFlight y (some q))
        → (m : ℕ) (p : Option Phase) → k ≢ m
        → Fits s m p
        → Fits (moved s k q next inflight done) m p
    moved-Fits a b d c m none ne h = b m ne ∙ h
    moved-Fits a b d c m (some (owns y)) ne (i, h) = (a y m ne i, b m ne ∙ h)
    moved-Fits a b d c m (some (closes y r)) ne (i, h) = (a y m ne i, b m ne ∙ h)
    moved-Fits a b d c m (some (finishes y r)) ne h = b m ne ∙ h
    moved-Fits a b d c m (some (waits y n)) ne h = moved-IsFlight c y n h
    moved-Fits a b d c m (some (receives y n r)) ne (h, e) = (moved-IsFlight c y n h, d n r e)
    moved-Fits a b d c m (some (gives_up y n)) ne h = tt

    pub moved-unused :
        ((n : ℕ) → s.next ≤ n → s.calls n ≡ none)
        → k < next
        → s.next ≤ next
        → (n : ℕ) → next ≤ n
        → update k (some q) s.calls n ≡ none
    moved-unused u l g n h =
        update_other k n (some q) s.calls (λ e. omega (arith, e, l, h)) ∙ u n (omega (arith, g, h))
