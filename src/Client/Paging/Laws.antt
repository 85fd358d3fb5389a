-- ===== src/Client/Paging/Laws.antt =====
-- A year is fetched whole: against a server that answers each page as its listing has it.
use sonarr_anime_bridge.Prelude.{
  ℕ, zero, suc, ◌+◌, ◌-◌, ◌*◌, ◌≤◌, ◌<◌, ◌≡◌, refl, ap, sym, ◌∙◌, ltb, ltb→lt, leb, leb→le, Bool,
  true, false, if◌then◌else◌, List, [], ◌++◌, Option, some, arith, Bool-cases, inl, inr,
}
use native.Mathlib.Nat.{add-suc, add-zero, zero-add, suc-add}
use mathlib.Core.List.{append_assoc}
use sonarr_anime_bridge.Show.{Show}
use sonarr_anime_bridge.Client.Paging.{
  max_pages, GraphqlResponse, YearResult, fetched, refused, too_many_pages, fetch_batch, fetch_from,
  fetch_year,
}
use sonarr_anime_bridge.Client.Paging.Batch.{the_response, pages_from, batch_goes_on, batch_ends}

module _ (ends : ℕ → Bool) (answers : ℕ → Option GraphqlResponse) where
  fetch_from_past :
      (fuel page : ℕ) (all_shows : List Show)
      → max_pages < page
      → fetch_from fuel page all_shows ends answers ≡ refused too_many_pages
  unfolding fetch_from
  fetch_from_past zero page all_shows h = refl
  fetch_from_past (suc fuel) page all_shows h = ground arith

  fetch_from_fuel :
      (fuel more page : ℕ) (all_shows : List Show)
      → max_pages < page + 4 * fuel
      → fetch_from (more + fuel) page all_shows ends answers
        ≡ fetch_from fuel page all_shows ends answers
  unfolding fetch_from
  fetch_from_fuel zero more page all_shows h =
      fetch_from_past (more + 0) page all_shows (omega arith)
      ∙ sym (fetch_from_past 0 page all_shows (omega arith))
  fetch_from_fuel (suc fuel) more page all_shows h = rw add-suc (
      ground (
        arith,
        fetch_from_fuel fuel more (page + 4)
            (all_shows ++ shows_of (fetch_batch page (ends page) (answers page))),
      ))
    where
      shows_of : YearResult (List Show × Bool) → List Show
      shows_of (fetched batch) = batch.0
      shows_of (refused e) = []

  -- The fuel of the loop is enough: more of it changes nothing.
  pub fetch_year_fuel :
      (more : ℕ) → fetch_from (more + max_pages) 1 [] ends answers ≡ fetch_year ends answers
  unfolding fetch_year
  fetch_year_fuel more = fetch_from_fuel max_pages more 1 [] (omega arith)

leb_of : (a b : ℕ) → a ≤ b → leb a b ≡ true
leb_of a b h = ground arith

module _ (listing : ℕ → List Show) (last : ℕ) where
  abbrev pub going : ℕ → Bool
  going page = false

  abbrev pub serves : ℕ → Option GraphqlResponse
  serves page = some (the_response listing last page)

  pages_from-append :
      (n m k : ℕ)
      → pages_from listing last k (n + m)
        ≡ pages_from listing last k n ++ pages_from listing last (k + n) m
  pages_from-append zero m k = rw (zero-add, add-zero) refl
  pages_from-append (suc n) m k =
      let shift : k + suc n ≡ suc k + n = omega arith in
      rw (suc-add, shift)
        (ap (◌++◌ (listing k)) (pages_from-append n m (suc k))
          ∙ sym (
              append_assoc (listing k) (pages_from listing last (suc k) n)
                (pages_from listing last (suc k + n) m)))

  fetch_from_step :
      (fuel page : ℕ) (all_shows shows : List Show)
      → page ≤ max_pages
      → fetch_batch page false (some (the_response listing last page)) ≡ fetched (shows, false)
      → fetch_from (suc fuel) page all_shows going serves
        ≡ fetch_from fuel (page + 4) (all_shows ++ shows) going serves
  unfolding fetch_from
  fetch_from_step fuel page all_shows shows h e = rw (leb_of page max_pages h, e, fetch_from) refl

  fetch_from_end :
      (fuel page : ℕ) (all_shows shows : List Show)
      → page ≤ max_pages
      → fetch_batch page false (some (the_response listing last page)) ≡ fetched (shows, true)
      → fetch_from (suc fuel) page all_shows going serves ≡ fetched (all_shows ++ shows)
  unfolding fetch_from
  fetch_from_end fuel page all_shows shows h e = rw (leb_of page max_pages h, e, fetch_from) refl

  fetch_from-serves :
      (fuel page d : ℕ) (all_shows : List Show)
      → last ≤ max_pages
      → page + d ≡ last
      → d < 4 * fuel
      → fetch_from fuel page all_shows going serves
        ≡ fetched (all_shows ++ pages_from listing last page (suc d))
  fetch_from-serves zero page d all_shows few e enough = absurd (omega arith)
  fetch_from-serves (suc fuel) page d all_shows few e enough = elim (Bool-cases (ltb d 4)) [
    | inl small ↦
        fetch_from_end fuel page all_shows (pages_from listing last page (suc d)) (omega arith)
          (batch_ends listing last page d (ltb→lt d 4 small) e)
    | inr large ↦
        let beyond : 4 ≤ d = ground arith in
        let r = d - 4 in
        let split : suc d ≡ 4 + suc r = omega arith in
        fetch_from_step fuel page all_shows (pages_from listing last page 4) (omega arith)
          (batch_goes_on listing last page (omega arith))
        ∙ fetch_from-serves fuel (page + 4) r (all_shows ++ pages_from listing last page 4) few
            (omega arith) (omega arith)
        ∙ ap fetched (
            append_assoc all_shows (pages_from listing last page 4)
              (pages_from listing last (page + 4) (suc r))
            ∙ ap (λ xs. all_shows ++ xs) (sym (pages_from-append 4 (suc r) page))
            ∙ ap (λ n. all_shows ++ pages_from listing last page n) (sym split))
  ]

  -- Too many pages, `rounds` batches before the bound.
  fetch_from-too_many :
      (rounds fuel page : ℕ) (all_shows : List Show)
      → max_pages < last
      → page + 4 * rounds ≡ 101
      → fetch_from fuel page all_shows going serves ≡ refused too_many_pages
  unfolding fetch_from
  fetch_from-too_many zero fuel page all_shows many e =
      fetch_from_past going serves fuel page all_shows (omega arith)
  fetch_from-too_many (suc rounds) zero page all_shows many e = refl
  fetch_from-too_many (suc rounds) (suc fuel) page all_shows many e =
      fetch_from_step fuel page all_shows (pages_from listing last page 4) (omega arith)
        (batch_goes_on listing last page (omega arith))
      ∙ fetch_from-too_many rounds fuel (page + 4) (all_shows ++ pages_from listing last page 4)
          many (omega arith)

  -- Against a server whose year has pages 1 to `last` and which answers each page asked for, a year of at
  -- most 100 pages is fetched whole and in order, and a longer one is refused.
  pub fetch_year-serves :
      0 < last
      → fetch_year going serves ≡ (
          if leb last max_pages
          then fetched (pages_from listing last 1 last)
          else refused too_many_pages)
  unfolding fetch_year
  fetch_year-serves some_pages = elim (Bool-cases (leb last max_pages)) [
    | inl few ↦
        let d = last - 1 in
        let whole : suc d ≡ last = omega arith in
        rw few (
          fetch_from-serves max_pages 1 d [] (leb→le last max_pages few) (omega arith)
            (ground arith)
          ∙ ap (λ n. fetched (pages_from listing last 1 n)) whole)
    | inr many ↦ rw many (fetch_from-too_many 25 max_pages 1 [] (ground arith) refl)
  ]
