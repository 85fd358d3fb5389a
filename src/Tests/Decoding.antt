-- ===== src/Tests/Decoding.antt =====
-- The cache of decoded years.
use sonarr_anime_bridge.Prelude.{
  ℕ, zero, suc, ◌≡◌, refl, Bool, true, false, List, [], ◌∷◌, some, arith, All, take, delete, ℤ, pos,
  ℤ_discrete as dec,
}
use sonarr_anime_bridge.Show.{Show}
use sonarr_anime_bridge.Retry.{ok}
use sonarr_anime_bridge.Decoded.{DecodedCache, new_decoded_year_cache, admit}
use sonarr_anime_bridge.Decoded.Invariant.{IsValid, new_decoded_year_cache-IsValid}
use sonarr_anime_bridge.Decoded.Admit.{
  fresh_entry, invalidate_all, admit-front, admit-invalidate_all,
}
use sonarr_anime_bridge.DecodedYear.{Op, admits, invalidates, read_decoded_year}
use sonarr_anime_bridge.DecodedYear.Laws.{IsHonest, Returns, read_decoded_year-Returns}
use sonarr_anime_bridge.Tests.Data.{winter_show, decode}

abbrev size_of : List ℕ → List Show → ℕ
size_of raw shows = 10

-- First another goroutine caches a year, and later ones invalidate the year that is read.
abbrev others : ℕ → List Op
others zero = admits 10 (pos 2023) (1 ∷ []) (winter_show ∷ []) 0 ∷ []
others (suc n) = invalidates (pos 2024) false false ∷ []

others-IsHonest : (i : ℕ) → All (IsHonest decode) (others i)
others-IsHonest zero = (refl, tt)
others-IsHonest (suc n) = (tt, tt)

abbrev never : ℕ → Bool
never i = false

read_decoded_year-Returns_example :
    Returns decode (ok (some (record { raw = 1 ∷ []; fresh = true }))) (
      read_decoded_year decode size_of others never
        (pos 2024)
        (ok (some (record { raw = 1 ∷ []; fresh = true })))
        new_decoded_year_cache)
read_decoded_year-Returns_example =
    read_decoded_year-Returns decode size_of others never others-IsHonest (pos 2024)
      (ok (some (record { raw = 1 ∷ []; fresh = true }))) new_decoded_year_cache
      (new_decoded_year_cache-IsValid decode)

admit-front_example :
    (d' : DecodedCache) × (admit 10 (pos 2024) (1 ∷ []) (winter_show ∷ []) 0 new_decoded_year_cache
      ≡ some d')
    × IsValid decode d'
    × (kept : ℕ) × (d'.lru
        ≡ (pos 2024, fresh_entry decode 10 (pos 2024) (1 ∷ []) (winter_show ∷ []) 0)
          ∷ take kept (delete dec (pos 2024) new_decoded_year_cache.lru))
unfolding new_decoded_year_cache
admit-front_example =
    admit-front decode 10 (pos 2024) (1 ∷ []) (winter_show ∷ []) 0
      (new_decoded_year_cache-IsValid decode) refl refl

abbrev one_write : List (ℤ × Bool × Bool)
one_write = (pos 2024, false, false) ∷ []

admit-invalidate_all_example :
    admit 10
      (pos 2024)
      (1 ∷ [])
      (winter_show ∷ [])
      new_decoded_year_cache.generation
      (invalidate_all one_write new_decoded_year_cache)
    ≡ some (invalidate_all one_write new_decoded_year_cache)
unfolding new_decoded_year_cache
admit-invalidate_all_example =
    admit-invalidate_all 10 (pos 2024) (1 ∷ []) (winter_show ∷ []) one_write new_decoded_year_cache
      (omega arith) (omega arith) (omega arith)
