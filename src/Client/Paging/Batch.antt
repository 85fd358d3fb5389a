-- ===== src/Client/Paging/Batch.antt =====
-- One batch of pages, against a server that answers each page as its listing has it.
use sonarr_anime_bridge.Prelude.{
  ℕ, zero, suc, ◌+◌, ◌≤◌, ◌<◌, ◌≡◌, refl, ap, ◌∙◌, ltb, lt→ltb, leb, true, false, if◌then◌else◌,
  List, [], ◌∷◌, ◌++◌, Option, some, arith, pos,
}
use native.Mathlib.Nat.{add-zero, zero-add}
use sonarr_anime_bridge.Show.{Show}
use sonarr_anime_bridge.Client.Paging.{
  MediaPage, GraphqlResponse, fetched, page_of, check_from, media_of, collect_from, pages_of,
  fetch_batch,
}

fetch_batch_checked :
    (page t : ℕ) (resp : GraphqlResponse)
    → resp.errors ≡ 0
    → check_from page 0 4 (pages_of resp) ≡ fetched t
    → fetch_batch page false (some resp) ≡ fetched (collect_from page 0 t (pages_of resp), ltb t 4)
unfolding fetch_batch
fetch_batch_checked page t resp fine checked = rw (fine, checked, fetch_batch) refl

module _ (listing : ℕ → List Show) (last : ℕ) where
  -- What AniList answers for one page when the year has `last` pages.
  abbrev pub page_at : ℕ → Option MediaPage
  page_at k = some (record {
    page_info = some (record { has_next_page = some (ltb k last); current_page = pos k });
    media = some (if leb k last then listing k else []);
  })

  abbrev pub the_response : ℕ → GraphqlResponse
  the_response page = record {
    page0 = page_at page;
    page1 = page_at (page + 1);
    page2 = page_at (page + 2);
    page3 = page_at (page + 3);
    errors = 0;
  }

  -- `n` pages of the listing from page `k` on.
  abbrev pub pages_from : ℕ → ℕ → List Show
  pages_from k zero = []
  pages_from k (suc n) = listing k ++ pages_from (suc k) n

  module _ (page : ℕ) where
    abbrev served : ℕ → ℕ → List (Option MediaPage)
    served i zero = []
    served i (suc n) = page_at (page + i) ∷ served (suc i) n

    page_of_before : (k : ℕ) → k < last → page_of k (page_at k) ≡ some (true, listing k)
    unfolding page_of
    page_of_before k h = ground arith

    page_of_last : (k : ℕ) → k ≡ last → page_of k (page_at k) ≡ some (false, listing k)
    unfolding page_of
    page_of_last k h = ground arith

    page_of_after : (k : ℕ) → last < k → page_of k (page_at k) ≡ some (false, [])
    unfolding page_of
    page_of_after k h = ground arith

    check_from-before :
        (n i : ℕ) → i + n ≤ 4 → page + i + n ≤ last → check_from page i 4 (served i n) ≡ fetched 4
    unfolding check_from
    check_from-before zero i small h = refl
    check_from-before (suc n) i small h =
        ground (arith, page_of_before (page + i) (omega arith), check_from-before n (suc i))

    check_from-after :
        (n i t : ℕ) → t < 4 → last < page + i → check_from page i t (served i n) ≡ fetched t
    unfolding check_from
    check_from-after zero i t small h = refl
    check_from-after (suc n) i t small h =
        ground (arith, page_of_after (page + i) h, check_from-after n (suc i) t)

    check_from-last :
        (n i d : ℕ)
        → i + n ≤ 4
        → d < n
        → page + i + d ≡ last
        → check_from page i 4 (served i n) ≡ fetched (i + d)
    unfolding check_from
    check_from-last zero i d small h e = absurd (omega arith)
    check_from-last (suc n) i zero small h e =
        ground (arith, page_of_last (page + i) (omega arith), check_from-after n (suc i) i)
    check_from-last (suc n) i (suc d) small h e =
        ground (arith, page_of_before (page + i) (omega arith), check_from-last n (suc i) d)

    media_of-page_at : (k : ℕ) → k ≤ last → media_of (page_of k (page_at k)) ≡ listing k
    unfolding page_of
    media_of-page_at k le = ground arith

    collect_from-past :
        (i t : ℕ) (pages : List (Option MediaPage)) → t < i → collect_from page i t pages ≡ []
    unfolding collect_from
    collect_from-past i t [] h = refl
    collect_from-past i t (p ∷ pages) h = ground arith

    -- The pages up to `terminal`, which has been counted from `i` on.
    collect_from-upto :
        (n i d t : ℕ)
        → d ≤ n
        → i + d ≡ suc t
        → page + t ≤ last
        → collect_from page i t (served i n) ≡ pages_from (page + i) d
    unfolding collect_from
    collect_from-upto zero i zero t le e h = refl
    collect_from-upto zero i (suc d) t le e h = absurd (omega arith)
    collect_from-upto (suc n) i zero t le e h =
        collect_from-past i t (served i (suc n)) (omega arith)
    collect_from-upto (suc n) i (suc d) t le e h =
        let shift : page + suc i ≡ suc (page + i) = omega arith in
        let later : collect_from page (suc i) t (served (suc i) n) ≡ pages_from (suc (page + i)) d =
          rw shift at (collect_from-upto n (suc i) d t (omega arith) (omega arith) h) in
        ground (arith, media_of-page_at (page + i) (omega arith), later)

    -- All of them.
    collect_from-all :
        (n i t : ℕ)
        → i + n ≤ suc t
        → page + i + n ≤ suc last
        → collect_from page i t (served i n) ≡ pages_from (page + i) n
    unfolding collect_from
    collect_from-all zero i t small h = refl
    collect_from-all (suc n) i t small h =
        let shift : page + suc i ≡ suc (page + i) = omega arith in
        let later : collect_from page (suc i) t (served (suc i) n) ≡ pages_from (suc (page + i)) n =
          rw shift at (collect_from-all n (suc i) t (omega arith) (omega arith)) in
        ground (arith, media_of-page_at (page + i) (omega arith), later)

    served_pages : pages_of (the_response page) ≡ served 0 4
    served_pages = rw add-zero refl

    pub batch_goes_on :
        page + 3 < last
        → fetch_batch page false (some (the_response page)) ≡ fetched (pages_from page 4, false)
    batch_goes_on h =
        let checked = check_from-before 4 0 (omega arith) (omega arith) in
        let collected : collect_from page 0 4 (served 0 4) ≡ pages_from page 4 =
          collect_from-all 4 0 4 (omega arith) (omega arith)
          ∙ ap (λ k. pages_from k 4) (add-zero page) in
        fetch_batch_checked page 4 (the_response page) refl
          (ap (check_from page 0 4) served_pages ∙ checked)
        ∙ ap (λ ps. fetched (collect_from page 0 4 ps, false)) served_pages
        ∙ ap (λ xs. fetched (xs, false)) collected

    pub batch_ends :
        (d : ℕ)
        → d < 4
        → page + d ≡ last
        → fetch_batch page false (some (the_response page))
          ≡ fetched (pages_from page (suc d), true)
    batch_ends d small e =
        let checked : check_from page 0 4 (served 0 4) ≡ fetched d =
          rw zero-add at (check_from-last 4 0 d (omega arith) small (omega arith)) in
        let collected : collect_from page 0 d (served 0 4) ≡ pages_from page (suc d) =
          collect_from-upto 4 0 (suc d) d (omega arith) (omega arith) (omega arith)
          ∙ ap (λ k. pages_from k (suc d)) (add-zero page) in
        fetch_batch_checked page d (the_response page) refl
          (ap (check_from page 0 4) served_pages ∙ checked)
        ∙ ap (λ ps. fetched (collect_from page 0 d ps, ltb d 4)) served_pages
        ∙ ap (λ xs. fetched (xs, ltb d 4)) collected
        ∙ ap (λ b. fetched (pages_from page (suc d), b)) (lt→ltb d 4 small)
