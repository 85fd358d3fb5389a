-- ===== src/Mapping/Parse/Settles/Places.antt =====
-- What the parser of internal/mapping/parse.go reads at a key, at a value and at the end of an object, on
-- any input, and `skipToken`.
use sonarr_anime_bridge.Prelude.{
  ℕ, zero, suc, ◌+◌, ◌≤◌, ◌<◌, ◌≡◌, refl, Bool, true, false, List, [], ◌∷◌, some, length, arith,
  Bool-cases, Option-cases, inl, inr, ap, ltb,
}
use sonarr_anime_bridge.Mapping.Parse.Json.{
  Token, Frame, Input, Parsed, in_array, at_key, at_value, close_object, close_array, text, ok,
  after_value, accept, more, more_in, as_string, parser_token, bind,
}
use sonarr_anime_bridge.Mapping.Parse.Targets.{
  is_delim, stack_after, skip_from, skip_token, skip_value,
}
use sonarr_anime_bridge.Mapping.Parse.Settles.{
  Settles, holds, refused, Settles-bind, Settles-map, parser_token-Settles,
}

-- A value has been read at a place of an object, and at most `n` tokens are left.
abbrev pub Left {ℓ} : {A : Type ℓ} → List Frame → ℕ → A → Input → Type 0
Left gs n a j = (j.frames ≡ at_key ∷ gs) × (length j.ahead ≤ n)

-- The open containers of the decoder are those of a stack of delimiters, inside of `base`.
abbrev Nested : List Token → List Frame → List Frame → Type 0
Nested [] fs base = fs ≡ base
Nested (d ∷ s) [] base = ⊥
Nested (d ∷ s) (f ∷ fs) base = Nested s (after_value fs) base

stack_after-Nested :
    (n : ℕ) (t d : Token) (s s' : List Token) (fs gs base : List Frame)
    → accept t fs ≡ some gs
    → stack_after n t (d ∷ s) ≡ some s'
    → Nested (d ∷ s) fs base
    → Nested s' gs base
unfolding accept stack_after after_value
stack_after-Nested n t d s s' [] gs base a e h = absurd h
stack_after-Nested n t d s s' (in_array ∷ fs) gs base a e h = ground arith
stack_after-Nested n t d s s' (at_key ∷ fs) gs base a e h = ground arith
stack_after-Nested n t d s s' (at_value ∷ fs) gs base a e h = ground arith

skip_from-Settles :
    (f n : ℕ) (s : List Token) (i : Input) (base : List Frame)
    → length i.ahead < f
    → Nested s i.frames base
    → Settles (λ _ j. (j.frames ≡ base) × (length j.ahead ≤ length i.ahead)) (skip_from f n s i)
unfolding skip_from
skip_from-Settles f n [] i base l h = holds (h, omega arith)
skip_from-Settles zero n (d ∷ s) i base l h = absurd (omega arith)
skip_from-Settles (suc f) n (d ∷ s) i base l h = Settles-bind (parser_token-Settles i) λ t j (a, e).
    elim (Option-cases (stack_after n t (d ∷ s))) [
      | inl none_left ↦ rw none_left refused
      | inr (s', q) ↦ rw q (
          Settles-map
            (skip_from-Settles f n s' j base (omega (arith, ap length e))
              (stack_after-Nested n t d s s' i.frames j.frames base a q h))
            λ _ k (p, r). (p, omega (arith, ap length e)))
    ]

opened-Nested :
    (t : Token) (fs gs : List Frame)
    → accept t (at_value ∷ gs) ≡ some fs
    → is_delim t ≡ true
    → Nested (t ∷ []) fs (at_key ∷ gs)
unfolding accept after_value
opened-Nested t fs gs a d = ground arith

pub closed_lem :
    (t : Token) (fs gs : List Frame)
    → accept t (at_value ∷ gs) ≡ some fs
    → is_delim t ≡ false
    → fs ≡ at_key ∷ gs
unfolding accept after_value
closed_lem t fs gs a d = ground arith

-- The rest of a value of an object is read to its end.
pub skip_token-Settles :
    (t : Token) (n : ℕ) (i : Input) (gs : List Frame)
    → accept t (at_value ∷ gs) ≡ some i.frames
    → Settles (Left gs (length i.ahead)) (skip_token t n i)
unfolding skip_token
skip_token-Settles t n i gs a = elim (Bool-cases (is_delim t)) [
  | inr d ↦ rw d (holds (closed_lem t _ gs a d, omega arith))
  | inl d ↦ elim (Bool-cases (ltb 10000 (1 + n))) [
    | inl deep ↦ rw (d, deep) refused
    | inr fits ↦
        rw (d, fits)
          (skip_from-Settles (suc (length i.ahead)) n (t ∷ []) i (at_key ∷ gs) (omega arith)
            (opened-Nested t _ gs a d))
  ]
]

-- A value of an object, its first token included.
module _ (gs : List Frame) (i : Input) (place : i.frames ≡ at_value ∷ gs) where
  pub value_token :
      {A : Type 0} {f : Token → Input → Parsed A} {Q : A → Input → Type 0}
      → ((t : Token) (j : Input)
          → accept t (at_value ∷ gs) ≡ some j.frames
          → suc (length j.ahead) ≡ length i.ahead
          → Settles Q (f t j))
      → Settles Q (bind (parser_token i) f)
  value_token k =
      Settles-bind (parser_token-Settles i)
        λ t j (a, e). k t j (rw place at a) (omega (arith, ap length e))

  pub skip_value-Settles : (n : ℕ) → Settles (Left gs (length i.ahead)) (skip_value n i)
  unfolding skip_value
  skip_value-Settles n =
      value_token
        λ t j a e. Settles-map (skip_token-Settles t n j gs a) λ _ k (p, l). (p, omega arith)

-- At a key of an object with `more` to come.
key_lem :
    (t : Token) (b : Bool) (ts : List Token) (fs gs : List Frame)
    → accept t (at_key ∷ gs) ≡ some fs
    → more_in b (t ∷ ts) ≡ true
    → (key : List ℕ) × (t ≡ text key) × (fs ≡ at_value ∷ gs)
unfolding accept more_in
key_lem (text key) b ts fs gs a m = (key, refl, cc)
key_lem close_object b ts fs gs a m = cc
key_lem close_array b ts fs gs a m = cc
key_lem t b ts fs gs a m = cc

close_lem :
    (t : Token) (b : Bool) (ts : List Token) (fs gs : List Frame)
    → accept t (at_key ∷ gs) ≡ some fs
    → more_in b (t ∷ ts) ≡ false
    → fs ≡ after_value gs
unfolding accept more_in
close_lem t b ts fs gs a m = ground arith

module _ (gs : List Frame) (i : Input) (place : i.frames ≡ at_key ∷ gs) where
  pub read_key_token :
      {A : Type 0} {f : List ℕ → Input → Parsed A} {Q : A → Input → Type 0}
      (read : Token → Input → Parsed (List ℕ))
      → ((s : List ℕ) (j : Input) → read (text s) j ≡ ok s j)
      → more i ≡ true
      → ((key : List ℕ) (j : Input)
          → j.frames ≡ at_value ∷ gs
          → suc (length j.ahead) ≡ length i.ahead
          → Settles Q (f key j))
      → Settles Q (bind (parser_token i) λ t j. bind (read t j) f)
  unfolding more
  read_key_token read h m k = Settles-bind (parser_token-Settles i) λ t j (a, e).
      let (key, is_text, fs) =
        key_lem t i.malformed j.ahead j.frames gs (rw place at a) (rw e at m) in
      rw (is_text, h key j) (k key j fs (omega (arith, ap length e)))

  pub key_token :
      {A : Type 0} {f : List ℕ → Input → Parsed A} {Q : A → Input → Type 0}
      → more i ≡ true
      → ((key : List ℕ) (j : Input)
          → j.frames ≡ at_value ∷ gs
          → suc (length j.ahead) ≡ length i.ahead
          → Settles Q (f key j))
      → Settles Q (bind (parser_token i) λ t j. bind (as_string t j) f)
  unfolding as_string
  key_token m k = read_key_token as_string (λ s j. refl) m k

  -- At the end of an object.
  pub close_token :
      {A : Type 0} {f : Token → Input → Parsed A} {Q : A → Input → Type 0}
      → more i ≡ false
      → ((t : Token) (j : Input)
          → j.frames ≡ after_value gs
          → suc (length j.ahead) ≡ length i.ahead
          → Settles Q (f t j))
      → Settles Q (bind (parser_token i) f)
  unfolding more
  close_token m k = Settles-bind (parser_token-Settles i) λ t j (a, e).
      k t j (close_lem t i.malformed j.ahead j.frames gs (rw place at a) (rw e at m))
        (omega (arith, ap length e))
