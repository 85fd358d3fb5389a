-- ===== src/Show.antt =====
-- The AniList show record and its methods (internal/anilist/anilist.go, the types `Tag`,
-- `RelationEdge`, `RelationBlock`, `Show`, `FuzzyDate`, `Title` and the methods on `Show`). A nil
-- pointer is `none`; a nil slice and an empty one are the same list. The Unicode folding table of
-- `strings.EqualFold` is the argument `fold`: it takes each code point to the representative of its
-- folding orbit. `time.Now()` is the argument `now`.
pub mod Dates
pub mod Decimal
use sonarr_anime_bridge.Prelude.{
  ℕ, ◌==◌, Bool, true, false, not, ◌&&◌, ◌||◌, if◌then◌else◌, List, [], ◌∷◌, map, any, Option, none,
  some, ℤ, pos, leb_ℤ, String, str_eq, codes, codes_eq,
}
use Prim.Native.String.{◌++◌ as append}
use Dates.{Now, starts_by}
use Decimal.{decimal}

pub record Tag : Type 0 where
  pub name : String

pub record RelationEdge : Type 0 where
  pub relation_type : String

pub record RelationBlock : Type 0 where
  pub edges : List RelationEdge

pub record FuzzyDate : Type 0 where
  pub year : Option ℤ
  pub month : Option ℤ
  pub day : Option ℤ

pub record Title : Type 0 where
  pub english : Option String
  pub romaji : Option String

pub record Show : Type 0 where
  pub id : ℤ
  pub id_mal : Option ℤ
  pub title : Title
  pub format : String
  pub duration : Option ℤ
  pub tags : List Tag
  pub season : String
  pub start_date : FuzzyDate
  pub relations : Option RelationBlock

-- The loop of `IsNew`: the first prequel or parent ends it.
unfoldable pub no_predecessor : List RelationEdge → Bool
no_predecessor [] = true
no_predecessor (e ∷ edges) =
    if str_eq e.relation_type "PREQUEL" || str_eq e.relation_type "PARENT"
    then false
    else no_predecessor edges

unfoldable pub is_new : Show → Bool
unfolding no_predecessor
is_new s = elim s.relations [ none ↦ true | some block ↦ no_predecessor block.edges ]

unfoldable pub skip_by_duration : Show → Bool
skip_by_duration s = elim s.duration [ none ↦ false | some minutes ↦ leb_ℤ minutes (pos 10) ]

-- `strings.EqualFold`
unfoldable pub equal_fold : (ℕ → ℕ) → String → String → Bool
equal_fold fold s t = codes_eq (map fold (codes s)) (map fold (codes t))

unfoldable pub has_tag : (ℕ → ℕ) → Show → String → Bool
unfolding equal_fold
has_tag fold s name = any (λ t. equal_fold fold t.name name) s.tags

-- `time.Date(year, month, 1)` against `time.Now().AddDate(0, months, 0)`
unfoldable pub is_within_months : Now → Show → ℕ → Bool
unfolding starts_by
is_within_months now s months = elim s.start_date.year [
  | none ↦ true
  | some year ↦ elim s.start_date.month [
    | none ↦ true
    | some month ↦ starts_by now year month months
  ]
]

-- `Title.Romaji`, then the number of the show
abbrev romaji_or_number : Show → Option String → String
romaji_or_number s (some romaji) = romaji
romaji_or_number s none = append "Anime #" (decimal s.id)

unfoldable pub display_title : Show → String
unfolding decimal
display_title s = elim s.title.english [
  | none ↦ romaji_or_number s s.title.romaji
  | some english ↦ if not (str_eq english "") then english else romaji_or_number s s.title.romaji
]
