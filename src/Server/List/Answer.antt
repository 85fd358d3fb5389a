-- ===== src/Server/List/Answer.antt =====
-- The list from the request to the response.
use sonarr_anime_bridge.Prelude.{
  ℕ, ◌≡◌, ◌≢◌, ◌⊎◌, inl, inr, refl, ap, ◌∙◌, Bool, true, false, not, List, [], some, keep, arith, ℤ,
  String, str_eq_iff,
}
use sonarr_anime_bridge.Show.{Show}
use sonarr_anime_bridge.Show.Dates.{Now}
use sonarr_anime_bridge.Retry.{ok}
use sonarr_anime_bridge.DecodedYear.{DecodedYear}
use sonarr_anime_bridge.Mapping.{AnibridgeMapping}
use sonarr_anime_bridge.Scheduler.Process.{FilterConfig, process}
use sonarr_anime_bridge.Scheduler.Process.Winter.{with_winter}
use sonarr_anime_bridge.Scheduler.Process.Laws.{is_wanted}
use sonarr_anime_bridge.Scheduler.Process.Distinct.{
  HasDistinctIds, own_answers, process-own_answers,
}
use sonarr_anime_bridge.Server.List.{
  ListRequest, ListQuery, ListReads, lists, is_missing, year_to_list, prior_shows, list_year,
  handle_list,
}
use sonarr_anime_bridge.Server.List.Laws.{IsAccepted, check_request_complete}

-- The bytes of the year are there and decode.
pub record IsWhole (d : DecodedYear) : Type 0 where
  pub present : d.present ≡ true
  pub decodes : d.decode_err ≡ false

-- They are not.
abbrev pub IsLost : DecodedYear → Type 0
IsLost d = (d.present ≡ false) ⊎ (d.decode_err ≡ true)

-- The year is in the cache, or is there after a fetch that went well.
pub data WasRead (r : ListReads) (found : DecodedYear) : Type 0 where
  at_once : r.first ≡ ok found → IsWhole found → WasRead r found
  after_fetch :
      (lost : DecodedYear)
      → r.first ≡ ok lost
      → IsLost lost
      → r.fetch_failed ≡ false
      → r.second ≡ ok found
      → IsWhole found
      → WasRead r found

-- The shows of the year before that a season counts in, and whether that year has to be fetched.
pub data Prior (season : String) (r : ListReads) (shows : List Show) (to_fetch : Bool)
    : Type 0 where
  not_winter : season ≢ "WINTER" → shows ≡ [] → to_fetch ≡ false → Prior season r shows to_fetch
  stored :
      (d : DecodedYear)
      → season ≡ "WINTER"
      → r.prior ≡ ok d
      → IsWhole d
      → shows ≡ d.shows
      → to_fetch ≡ false
      → Prior season r shows to_fetch
  lost :
      (d : DecodedYear)
      → season ≡ "WINTER"
      → r.prior ≡ ok d
      → IsLost d
      → shows ≡ []
      → to_fetch ≡ true
      → Prior season r shows to_fetch

is_missing-IsWhole : (d : DecodedYear) → IsWhole d → is_missing d ≡ false
is_missing-IsWhole d w = ground arith

is_missing-IsLost : (d : DecodedYear) → IsLost d → is_missing d ≡ true
is_missing-IsLost d (inl h) = ground arith
is_missing-IsLost d (inr h) = ground arith

year_to_list-WasRead :
    (r : ListReads) (found : DecodedYear) → WasRead r found → year_to_list r ≡ ok (some found)
unfolding year_to_list
year_to_list-WasRead r found (at_once e w) =
    rw (e, year_to_list) (rw (is_missing-IsWhole found w) refl)
year_to_list-WasRead r found (after_fetch d e l f e' w) =
    ground (arith, e, is_missing-IsLost d l, f, e', is_missing-IsWhole found w)

prior_shows-Prior :
    (season : String) (r : ListReads) (shows : List Show) (to_fetch : Bool)
    → Prior season r shows to_fetch
    → prior_shows season r.prior ≡ ok (shows, to_fetch)
unfolding prior_shows
prior_shows-Prior season r shows to_fetch (not_winter n e f) =
    ground (arith, n, str_eq_iff season "WINTER")
prior_shows-Prior season r shows to_fetch (stored d w p h e f) =
    ground (arith, p, str_eq_iff season "WINTER", is_missing-IsWhole d h)
prior_shows-Prior season r shows to_fetch (lost d w p h e f) =
    ground (arith, p, str_eq_iff season "WINTER", is_missing-IsLost d h)

module _ (fold : ℕ → ℕ) (now : Now) (cfg : FilterConfig) (m : AnibridgeMapping) where
  list_year_found :
      (q : ListQuery) (r : ListReads) (tracking : Bool) (found : DecodedYear)
      (prior : List Show × Bool)
      → year_to_list r ≡ ok (some found)
      → prior_shows q.season r.prior ≡ ok prior
      → list_year fold now cfg (some m) q r tracking
        ≡ lists
            (process fold now cfg (some m) tracking found.shows prior.0 q.season q.category).0
            (not found.fresh)
            prior.1
  unfolding list_year
  list_year_found q r tracking found prior h g = rw (h, g, list_year) refl

  -- An accepted request for a year that is in the cache, or is there after its fetch, and whose shows have
  -- distinct numbers, is answered with the wanted shows of that year and of the December before, in order,
  -- each with its TVDB number and title. A refresh is asked for exactly if the year is not fresh. The year
  -- before counts only for winter; it is to be fetched exactly if winter is asked for and it is missing or
  -- does not decode, and then none of its shows count.
  pub handle_list-own_answers :
      (request : ListRequest) (loaded : Bool) (this_year : ℤ) (q : ListQuery) (r : ListReads)
      (tracking : Bool) (found : DecodedYear) (shows : List Show) (to_fetch : Bool)
      → IsAccepted request loaded this_year q
      → WasRead r found
      → Prior q.season r shows to_fetch
      → HasDistinctIds found.shows
      → handle_list fold now cfg (some m) request loaded this_year r tracking
        ≡ lists
            (own_answers m (
              keep
                (is_wanted fold now cfg q.season q.category)
                (with_winter found.shows shows q.season)))
            (not found.fresh)
            to_fetch
  unfolding handle_list
  handle_list-own_answers request loaded this_year q r tracking found shows to_fetch a h g d =
      rw (check_request_complete request loaded this_year q a, handle_list)
        (list_year_found q r tracking found (shows, to_fetch) (year_to_list-WasRead r found h)
            (prior_shows-Prior q.season r shows to_fetch g)
          ∙ ap (λ xs. lists xs (not found.fresh) to_fetch)
              ((process-own_answers fold now cfg m tracking found.shows shows q.season q.category
                d).0))
