-- ===== src/Server/List/Laws.antt =====
-- Which requests for the list are answered, and for which year.
use sonarr_anime_bridge.Prelude.{
  ◌≡◌, ◌↔◌, ◌⊎◌, inl, inr, refl, ap, sym, Bool, true, ◌||◌, any, Option, none, some, arith, ℤ, pos,
  ◌+ℤ◌, ◌-ℤ◌, ◌≤ℤ◌, ltb_ℤ, leb_ℤ, String, str_eq, str_eq_iff, Bool-cases,
}
use sonarr_anime_bridge.Server.Health.{is_read}
use sonarr_anime_bridge.Server.List.{
  ListRequest, Rejection, Checked, refuses, accepts, valid_seasons, season_or_all,
  category_or_series, choose_year, ListQuery, check_request,
}

-- This year without the parameter, and else the number given, which is positive and at most ten years off.
abbrev pub IsChosen : ℤ → Option (Option ℤ) → ℤ → Type 0
IsChosen this_year given year =
    ((given ≡ none) × (year ≡ this_year))
    ⊎ ((given ≡ some (some year))
        × (pos 1 ≤ℤ year)
        × (this_year -ℤ pos 10 ≤ℤ year)
        × (year ≤ℤ this_year +ℤ pos 10))

choose_year_sound :
    (this_year : ℤ) (given : Option (Option ℤ)) (year : ℤ)
    → choose_year this_year given ≡ accepts year
    → IsChosen this_year given year
unfolding choose_year
choose_year_sound this_year none year h = inl (refl, cc)
choose_year_sound this_year (some none) year h = cc
choose_year_sound this_year (some (some y)) year h = elim (Bool-cases (leb_ℤ y (pos 0))) [
  | inl low ↦ cc (rw (low, choose_year) at h)
  | inr positive ↦
      elim (Bool-cases (ltb_ℤ y (this_year -ℤ pos 10) || ltb_ℤ (this_year +ℤ pos 10) y)) [
        | inl far ↦ cc (rw (positive, far, choose_year) at h)
        | inr near ↦
            let same : y ≡ year = cc (rw (positive, near, choose_year) at h) in
            inr (
              ap (λ z. some (some z)) same,
              rw (← same) (ground arith),
              rw (← same) (ground arith),
              rw (← same) (ground arith),
            )
      ]
]

choose_year_complete :
    (this_year : ℤ) (given : Option (Option ℤ)) (year : ℤ)
    → IsChosen this_year given year
    → choose_year this_year given ≡ accepts year
unfolding choose_year
choose_year_complete this_year given year (inl (e, same)) = rw (e, same, choose_year) refl
choose_year_complete this_year given year (inr (e, positive, low, high)) =
    rw (e, choose_year) (ground arith)

-- A query that the handler works on.
pub record IsAccepted (r : ListRequest) (loaded : Bool) (this_year : ℤ) (q : ListQuery)
    : Type 0 where
  pub read : is_read r.method ≡ true
  pub resolver : loaded ≡ true
  pub season : q.season ≡ season_or_all r.season
  pub known_season : any (str_eq q.season) valid_seasons ≡ true
  pub year : IsChosen this_year r.year q.year
  pub category : q.category ≡ category_or_series r.category
  pub known_category : (q.category ≡ "series") ⊎ (q.category ≡ "series-new")

abbrev is_known : String → Bool
is_known c = str_eq c "" || (str_eq c "series" || str_eq c "series-new")

is_known_iff :
    (c : String)
    → (is_known c ≡ true)
      ↔ ((category_or_series c ≡ "series") ⊎ (category_or_series c ≡ "series-new"))
is_known_iff c = (to, from)
  where
    to :
        is_known c ≡ true
        → (category_or_series c ≡ "series") ⊎ (category_or_series c ≡ "series-new")
    to h = elim (Bool-cases (str_eq c "")) [
      | inl empty ↦ inl (rw empty refl)
      | inr other ↦ rw other (ground (arith, str_eq_iff c "series", str_eq_iff c "series-new"))
    ]

    from :
        (category_or_series c ≡ "series") ⊎ (category_or_series c ≡ "series-new")
        → is_known c ≡ true
    from h = elim (Bool-cases (str_eq c "")) [
      | inl empty ↦ rw empty refl
      | inr other ↦ ground (arith, rw other at h, str_eq_iff c "series", str_eq_iff c "series-new")
    ]

abbrev query_of : ListRequest → ℤ → ListQuery
query_of r year = record {
  season = season_or_all r.season;
  year = year;
  category = category_or_series r.category;
}

Checked-cases {ℓ} :
    {A : Type ℓ} (c : Checked A) → ((e : Rejection) × (c ≡ refuses e)) ⊎ ((a : A) × (c ≡ accepts a))
Checked-cases (refuses e) = inl (e, refl)
Checked-cases (accepts a) = inr (a, refl)

module _ (r : ListRequest) (loaded : Bool) (this_year : ℤ) where
  pub check_request_complete :
      (q : ListQuery)
      → IsAccepted r loaded this_year q
      → check_request r loaded this_year ≡ accepts q
  unfolding check_request
  check_request_complete q a =
      let known : any (str_eq (season_or_all r.season)) valid_seasons ≡ true =
        rw a.season at a.known_season in
      let chosen = choose_year_complete this_year r.year q.year a.year in
      let category : is_known r.category ≡ true =
        (is_known_iff r.category).1 (rw a.category at a.known_category) in
      rw (a.read, known, a.resolver, chosen, category, check_request)
        (λ i.
          accepts (record { season = sym a.season i; year = q.year; category = sym a.category i }))

  check_request_sound :
      (q : ListQuery)
      → check_request r loaded this_year ≡ accepts q
      → IsAccepted r loaded this_year q
  unfolding check_request
  check_request_sound q h = elim (Bool-cases (is_read r.method)) [
    | inr unread ↦ cc (rw (unread, check_request) at h)
    | inl read ↦ elim (Bool-cases (any (str_eq (season_or_all r.season)) valid_seasons)) [
      | inr unknown ↦ cc (rw (read, unknown, check_request) at h)
      | inl known ↦ elim (Bool-cases loaded) [
        | inr unloaded ↦ cc (rw (read, known, unloaded, check_request) at h)
        | inl resolver ↦ elim (Checked-cases (choose_year this_year r.year)) [
          | inl (e, refused) ↦ cc (rw (read, known, resolver, refused, check_request) at h)
          | inr (year, chosen) ↦ elim (Bool-cases (is_known r.category)) [
            | inr other ↦ cc (rw (read, known, resolver, chosen, other, check_request) at h)
            | inl category ↦
                let same : query_of r year ≡ q =
                  cc (rw (read, known, resolver, chosen, category, check_request) at h) in
                let right : IsAccepted r loaded this_year (query_of r year) = record {
                  read = read;
                  resolver = resolver;
                  season = refl;
                  known_season = known;
                  year = choose_year_sound this_year r.year year chosen;
                  category = refl;
                  known_category = (is_known_iff r.category).0 category;
                } in
                rw same at right
          ]
        ]
      ]
    ]
  ]

  -- A request is accepted exactly if it is a GET or HEAD with one of the five seasons or none, a mapping is
  -- loaded, its year is absent or a positive number at most ten off this year, and its category is
  -- absent, series or series-new; absent parameters stand for ALL, this year and series.
  pub check_request_iff :
      (q : ListQuery)
      → (check_request r loaded this_year ≡ accepts q) ↔ IsAccepted r loaded this_year q
  check_request_iff q = (check_request_sound q, check_request_complete q)
