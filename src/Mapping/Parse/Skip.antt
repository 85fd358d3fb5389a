-- ===== src/Mapping/Parse/Skip.antt =====
-- `skipToken` reads one value to its end (internal/mapping/parse.go).
use sonarr_anime_bridge.Prelude.{
  ℕ, suc, ◌+◌, ◌≤◌, ◌<◌, ◌≡◌, refl, Bool, true, false, List, [], ◌∷◌, some, length, arith, ◌∙◌,
}
use sonarr_anime_bridge.Mapping.Parse.Json.{
  Token, Frame, Input, in_array, at_key, at_value, open_object, close_object, open_array,
  close_array, ok, after_value, accept, parser_token,
}
use sonarr_anime_bridge.Mapping.Parse.Targets.{
  is_delim, stack_after, skip_from, skip_token, skip_value,
}
use sonarr_anime_bridge.Mapping.Parse.Tree.{
  Value, Items, Fields, null, bool, number, text, array, object, no_items, item, no_fields, field,
  first, body, body_items, body_fields, size, size_items, size_fields, depth, depth_items,
  depth_fields, frames_in, reader,
}

-- The decoder wants a value.
abbrev pub wants_value : List Frame → Bool
wants_value (at_key ∷ fs) = false
wants_value fs = true

pub accept-first :
    (v : Value) (fs : List Frame)
    → wants_value fs ≡ true
    → accept (first v) fs ≡ some (frames_in v fs)
unfolding accept first frames_in after_value
accept-first v fs h = ground arith

pub parser_token_lem :
    (b : Bool) (t : Token) (ts : List Token) (fs gs : List Frame)
    → accept t fs ≡ some gs
    → parser_token (reader b (t ∷ ts) fs) ≡ ok t (reader b ts gs)
unfolding parser_token
parser_token_lem b t ts fs gs h = rw h refl

-- One round of the loop.
skip_from-step :
    (b : Bool) (f f' n : ℕ) (t d : Token) (ts s s' : List Token) (fs gs : List Frame)
    → f ≡ suc f'
    → accept t fs ≡ some gs
    → stack_after n t (d ∷ s) ≡ some s'
    → skip_from f n (d ∷ s) (reader b (t ∷ ts) fs) ≡ skip_from f' n s' (reader b ts gs)
unfolding skip_from
skip_from-step b f f' n t d ts s s' fs gs e a h = ground (arith, parser_token_lem b t ts fs gs a)

-- `skip_from` steps over a value: its tokens leave the stack as it was.
mutual
  unfolding first body size depth frames_in after_value stack_after accept

  skip_from-value :
      (v : Value) (b : Bool) (f f' n : ℕ) (d : Token) (s rest : List Token) (fs : List Frame)
      → f ≡ f' + size v + 1
      → wants_value fs ≡ true
      → depth v + length s + n < 10000
      → skip_from f n (d ∷ s) (reader b (first v ∷ body v rest) fs)
        ≡ skip_from f' n (d ∷ s) (reader b rest (after_value fs))
  skip_from-value (array xs) b f f' n d s rest fs e w p =
      skip_from-step b f (f' + 1 + size_items xs) n open_array d _ s (open_array ∷ d ∷ s) fs _
        (omega (arith, e)) (accept-first (array xs) fs w) (ground arith)
      ∙ skip_from-items xs b _ (f' + 1) n open_array (d ∷ s) (close_array ∷ rest) fs refl
          (omega (arith, p))
      ∙ skip_from-step b (f' + 1) f' n close_array open_array rest (d ∷ s) (d ∷ s) (in_array ∷ fs)
          (after_value fs) (omega arith) refl refl
  skip_from-value (object ms) b f f' n d s rest fs e w p =
      skip_from-step b f (f' + 1 + size_fields ms) n open_object d _ s (open_object ∷ d ∷ s) fs _
        (omega (arith, e)) (accept-first (object ms) fs w) (ground arith)
      ∙ skip_from-fields ms b _ (f' + 1) n open_object (d ∷ s) (close_object ∷ rest) fs refl
          (omega (arith, p))
      ∙ skip_from-step b (f' + 1) f' n close_object open_object rest (d ∷ s) (d ∷ s) (at_key ∷ fs)
          (after_value fs) (omega arith) refl refl
  skip_from-value v b f f' n d s rest fs e w p =
      skip_from-step b f f' n (first v) d rest s (d ∷ s) fs (after_value fs) (omega (arith, e))
        (accept-first v fs w) refl

  skip_from-items :
      (xs : Items) (b : Bool) (f f' n : ℕ) (d : Token) (s rest : List Token) (fs : List Frame)
      → f ≡ f' + size_items xs
      → depth_items xs + length s + n < 10000
      → skip_from f n (d ∷ s) (reader b (body_items xs rest) (in_array ∷ fs))
        ≡ skip_from f' n (d ∷ s) (reader b rest (in_array ∷ fs))
  skip_from-items no_items b f f' n d s rest fs e p = rw e (ground arith)
  skip_from-items (item v xs) b f f' n d s rest fs e p =
      skip_from-value v b f (f' + size_items xs) n d s _ (in_array ∷ fs) (omega (arith, e)) refl
        (omega (arith, p))
      ∙ skip_from-items xs b _ f' n d s rest fs refl (omega (arith, p))

  skip_from-fields :
      (ms : Fields) (b : Bool) (f f' n : ℕ) (d : Token) (s rest : List Token) (fs : List Frame)
      → f ≡ f' + size_fields ms
      → depth_fields ms + length s + n < 10000
      → skip_from f n (d ∷ s) (reader b (body_fields ms rest) (at_key ∷ fs))
        ≡ skip_from f' n (d ∷ s) (reader b rest (at_key ∷ fs))
  skip_from-fields no_fields b f f' n d s rest fs e p = rw e (ground arith)
  skip_from-fields (field k v ms) b f f' n d s rest fs e p =
      skip_from-step b f (f' + size_fields ms + size v + 1) n (Token.text k) d _ s (d ∷ s)
        (at_key ∷ fs) (at_value ∷ fs) (omega (arith, e)) refl refl
      ∙ skip_from-value v b _ (f' + size_fields ms) n d s _ (at_value ∷ fs) (omega arith) refl
          (omega (arith, p))
      ∙ skip_from-fields ms b _ f' n d s rest fs refl (omega (arith, p))

mutual
  unfolding first body size

  pub length-body : (v : Value) (rest : List Token) → length (body v rest) ≡ size v + length rest
  length-body (array xs) rest = omega (arith, length-body_items xs (close_array ∷ rest))
  length-body (object ms) rest = omega (arith, length-body_fields ms (close_object ∷ rest))
  length-body v rest = omega arith

  length-body_items :
      (xs : Items) (rest : List Token) → length (body_items xs rest) ≡ size_items xs + length rest
  length-body_items no_items rest = omega arith
  length-body_items (item v xs) rest =
      omega (arith, length-body v (body_items xs rest), length-body_items xs rest)

  pub length-body_fields :
      (ms : Fields) (rest : List Token)
      → length (body_fields ms rest) ≡ size_fields ms + length rest
  length-body_fields no_fields rest = omega arith
  length-body_fields (field k v ms) rest =
      omega (arith, length-body v (body_fields ms rest), length-body_fields ms rest)

skip_token-delim :
    (t : Token) (n : ℕ) (i : Input)
    → is_delim t ≡ true
    → n < 10000
    → skip_token t n i ≡ skip_from (suc (length i.ahead)) n (t ∷ []) i
unfolding skip_token
skip_token-delim t n i d p = ground arith

skip_from-done : (f n : ℕ) (i : Input) → skip_from f n [] i ≡ ok tt i
unfolding skip_from
skip_from-done f n i = ground arith

-- What is left of a value after its first token is read to its end.
pub skip_token-first :
    (v : Value) (b : Bool) (n : ℕ) (rest : List Token) (fs : List Frame)
    → depth v + n ≤ 10000
    → skip_token (first v) n (reader b (body v rest) (frames_in v fs))
      ≡ ok tt (reader b rest (after_value fs))
unfolding first body size depth frames_in accept stack_after after_value
skip_token-first (array xs) b n rest fs p =
    skip_token-delim open_array n _ refl (omega (arith, p))
    ∙ skip_from-items xs b _ (suc (length (close_array ∷ rest))) n open_array []
        (close_array ∷ rest) fs (omega (arith, length-body_items xs (close_array ∷ rest)))
        (omega (arith, p))
    ∙ skip_from-step b _ (suc (length rest)) n close_array open_array rest [] [] (in_array ∷ fs)
        (after_value fs) refl refl refl
    ∙ skip_from-done (suc (length rest)) n _
skip_token-first (object ms) b n rest fs p =
    skip_token-delim open_object n _ refl (omega (arith, p))
    ∙ skip_from-fields ms b _ (suc (length (close_object ∷ rest))) n open_object []
        (close_object ∷ rest) fs (omega (arith, length-body_fields ms (close_object ∷ rest)))
        (omega (arith, p))
    ∙ skip_from-step b _ (suc (length rest)) n close_object open_object rest [] [] (at_key ∷ fs)
        (after_value fs) refl refl refl
    ∙ skip_from-done (suc (length rest)) n _
skip_token-first null b n rest fs p = unfold skip_token in refl
skip_token-first (bool _) b n rest fs p = unfold skip_token in refl
skip_token-first (number _) b n rest fs p = unfold skip_token in refl
skip_token-first (text _) b n rest fs p = unfold skip_token in refl

pub skip_value-first :
    (v : Value) (b : Bool) (n : ℕ) (rest : List Token) (fs : List Frame)
    → wants_value fs ≡ true
    → depth v + n ≤ 10000
    → skip_value n (reader b (first v ∷ body v rest) fs) ≡ ok tt (reader b rest (after_value fs))
unfolding skip_value
skip_value-first v b n rest fs w p =
    rw (parser_token_lem b (first v) (body v rest) fs _ (accept-first v fs w))
      (skip_token-first v b n rest fs p)
