-- ===== src/Client/Paging.antt =====
-- `FetchYear` (internal/anilist/anilist.go): batches of four pages until a page says that it is the last.
-- What a request for a batch yields, and whether the context has ended before it, are arguments, by the
-- number of its first page. A nil slice of media is `none`.
pub mod Batch
pub mod Laws
use sonarr_anime_bridge.Prelude.{
  ℕ, zero, suc, ◌+◌, ltb, leb, ◌==◌, Bool, true, false, not, ◌&&◌, ◌||◌, if◌then◌else◌, List, [],
  ◌∷◌, ◌++◌, Option, none, some, length, ℤ, pos, eqb_ℤ,
}
use sonarr_anime_bridge.Show.{Show}

abbrev pub default_batch_size : ℕ
default_batch_size = 4

abbrev pub max_pages : ℕ
max_pages = 100

pub record PageInfo : Type 0 where
  pub has_next_page : Option Bool
  pub current_page : ℤ

pub record MediaPage : Type 0 where
  pub page_info : Option PageInfo
  pub media : Option (List Show)

-- `errors` is how many errors the response lists.
pub record GraphqlResponse : Type 0 where
  pub page0 : Option MediaPage
  pub page1 : Option MediaPage
  pub page2 : Option MediaPage
  pub page3 : Option MediaPage
  pub errors : ℕ

pub data YearError : Type 0 where
  context_ended request_failed too_many_pages : YearError
  graphql_errors incomplete inconsistent : ℕ → YearError

pub data YearResult {ℓ} (A : Type ℓ) : Type ℓ where
  fetched : A → YearResult A
  refused : YearError → YearResult A

-- A page that is complete and bears the number asked for: `HasNextPage` and `Media`.
unfoldable pub page_of : ℕ → Option MediaPage → Option (Bool × List Show)
page_of number none = none
page_of number (some p) = elim p.page_info [
  | none ↦ none
  | some info ↦ elim info.has_next_page [
    | none ↦ none
    | some more ↦
        if not (eqb_ℤ info.current_page (pos number))
        then none
        else elim p.media [ none ↦ none | some media ↦ some (more, media) ]
  ]
]

-- The first loop over the pages of a batch: it computes `terminal`.
unfoldable pub check_from : ℕ → ℕ → ℕ → List (Option MediaPage) → YearResult ℕ
unfolding page_of
check_from page i terminal [] = fetched terminal
check_from page i terminal (p ∷ pages) = elim (page_of (page + i) p) [
  | none ↦ refused (incomplete (page + i))
  | some (more, media) ↦ elim (ltb terminal i && (more || not (length media == 0))) [
    | true ↦ refused (inconsistent (page + i))
    | false ↦
        check_from page (suc i) (if not more && terminal == default_batch_size then i else terminal)
          pages
  ]
]

abbrev pub media_of : Option (Bool × List Show) → List Show
media_of none = []
media_of (some (more, media)) = media

-- The second loop: the media of the pages up to `terminal`.
unfoldable pub collect_from : ℕ → ℕ → ℕ → List (Option MediaPage) → List Show
unfolding page_of
collect_from page i terminal [] = []
collect_from page i terminal (p ∷ pages) =
    let rest = collect_from page (suc i) terminal pages in
    if ltb terminal i then [] else media_of (page_of (page + i) p) ++ rest

abbrev pub pages_of : GraphqlResponse → List (Option MediaPage)
pages_of resp = resp.page0 ∷ resp.page1 ∷ resp.page2 ∷ resp.page3 ∷ []

-- One iteration, with its request: the shows of the batch, and whether it had the last page.
unfoldable pub fetch_batch : ℕ → Bool → Option GraphqlResponse → YearResult (List Show × Bool)
unfolding check_from collect_from
fetch_batch page true answer = refused context_ended
fetch_batch page false none = refused request_failed
fetch_batch page false (some resp) =
    if ltb 0 resp.errors
    then refused (graphql_errors resp.errors)
    else elim (check_from page 0 default_batch_size (pages_of resp)) [
      | refused e ↦ refused e
      | fetched terminal ↦
          fetched (collect_from page 0 terminal (pages_of resp), ltb terminal default_batch_size)
    ]

-- The loop over the batches, on fuel.
unfoldable pub fetch_from :
    ℕ → ℕ → List Show → (ℕ → Bool) → (ℕ → Option GraphqlResponse) → YearResult (List Show)
unfolding fetch_batch
fetch_from zero page all_shows ends answers = refused too_many_pages
fetch_from (suc fuel) page all_shows ends answers = elim (leb page max_pages) [
  | false ↦ refused too_many_pages
  | true ↦ elim (fetch_batch page (ends page) (answers page)) [
    | refused e ↦ refused e
    | fetched batch ↦ elim batch.1 [
      | true ↦ fetched (all_shows ++ batch.0)
      | false ↦ fetch_from fuel (page + default_batch_size) (all_shows ++ batch.0) ends answers
    ]
  ]
]

-- Each round moves on by four pages, so as many rounds as there may be pages are more than enough.
unfoldable pub fetch_year : (ℕ → Bool) → (ℕ → Option GraphqlResponse) → YearResult (List Show)
unfolding fetch_from
fetch_year ends answers = fetch_from max_pages 1 [] ends answers
