-- ===== src/Mapping/Parse/Json.antt =====
-- `json.Decoder` as the parser of internal/mapping/parse.go uses it (`Token`, `More`), the end of a
-- context, and `parserToken`. Text is its code points; commas and colons are the decoder's own.
use sonarr_anime_bridge.Prelude.{ℕ, zero, suc, Bool, true, false, List, [], ◌∷◌, Option, none, some}

pub data Token : Type 0 where
  open_object close_object open_array close_array null : Token
  bool : Bool → Token
  number : List ℕ → Token
  text : List ℕ → Token

-- What the decoder is inside of, and whether it wants a key there.
pub data Frame : Type 0 where
  in_array at_key at_value : Frame

-- The tokens ahead up to the first fault, whether that is a malformed token (else the reader ends),
-- and the open containers. `ctx` is the number of times that `ctx.Err()` still answers nil; with
-- `none` the context does not end.
pub record Input : Type 0 where
  pub ctx : Option ℕ
  pub ahead : List Token
  pub malformed : Bool
  pub frames : List Frame

pub data ParseError : Type 0 where
  context_ended bad_json too_deep not_an_object not_a_key bad_targets bad_episodes : ParseError

-- `panicked` is a failed type assertion; `out_of_fuel` has no counterpart in the program.
pub data Parsed {ℓ} (A : Type ℓ) : Type ℓ where
  ok : A → Input → Parsed A
  failed : ParseError → Parsed A
  panicked out_of_fuel : Parsed A

abbrev pub Parser {ℓ} : Type ℓ → Type ℓ
Parser A = Input → Parsed A

module _ {ℓ κ} {A : Type ℓ} {B : Type κ} where
  infixl 5 ◌>>=◌ ◌>>◌
  abbrev pub bind : Parsed A → (A → Parser B) → Parsed B
  bind (ok a i) f = f a i
  bind (failed e) f = failed e
  bind panicked f = panicked
  bind out_of_fuel f = out_of_fuel

  abbrev pub ◌>>=◌ : Parser A → (A → Parser B) → Parser B
  p >>= f = λ i. bind (p i) f

  abbrev pub ◌>>◌ : Parser A → Parser B → Parser B
  p >> q = p >>= λ _. q

abbrev pub pure {ℓ} : {A : Type ℓ} → A → Parser A
pure a i = ok a i

abbrev pub fail {ℓ} : {A : Type ℓ} → ParseError → Parser A
fail e i = failed e

-- A value has been read.
unfoldable pub after_value : List Frame → List Frame
after_value (at_value ∷ fs) = at_key ∷ fs
after_value fs = fs

-- The check of `Token`: the open containers after a token, if it may stand there.
unfoldable pub accept : Token → List Frame → Option (List Frame)
unfolding after_value
accept close_object (at_key ∷ fs) = some (after_value fs)
accept close_object fs = none
accept close_array (in_array ∷ fs) = some (after_value fs)
accept close_array fs = none
accept (text s) (at_key ∷ fs) = some (at_value ∷ fs)
accept t (at_key ∷ fs) = none
accept open_object fs = some (at_key ∷ fs)
accept open_array fs = some (in_array ∷ fs)
accept t fs = some (after_value fs)

unfoldable pub next : Token → List Token → Input → Option (List Frame) → Parsed Token
next t ts i none = failed bad_json
next t ts i (some fs) = ok t (record i { ahead = ts; frames = fs })

-- `dec.Token()`
unfoldable pub decoder_token : List Token → Parser Token
unfolding accept next
decoder_token [] i = failed bad_json
decoder_token (t ∷ ts) i = next t ts i (accept t i.frames)

-- `dec.More()`: a malformed token is not a closing bracket.
unfoldable pub more_in : Bool → List Token → Bool
more_in malformed [] = malformed
more_in malformed (close_object ∷ ts) = false
more_in malformed (close_array ∷ ts) = false
more_in malformed (t ∷ ts) = true

unfoldable pub more : Input → Bool
unfolding more_in
more i = more_in i.malformed i.ahead

-- `ctx.Err()`
unfoldable pub check_left : Option ℕ → Parser (Unit {0})
check_left none i = ok tt i
check_left (some zero) i = failed context_ended
check_left (some (suc n)) i = ok tt (record i { ctx = some n })

unfoldable pub check_ctx : Parser (Unit {0})
unfolding check_left
check_ctx i = check_left i.ctx i

-- The end of the context goes before an error of the decoder.
unfoldable pub or_ended : Input → Parsed Token → Parsed Token
unfolding check_ctx
or_ended i (ok t j) = bind (check_ctx j) λ _ k. ok t k
or_ended i r = bind (check_ctx i) λ _ k. r

unfoldable pub parser_token : Parser Token
unfolding check_ctx decoder_token or_ended
parser_token i = bind (check_ctx i) λ _ j. or_ended j (decoder_token j.ahead j)

-- `t.(string)`
unfoldable pub as_string : Token → Parser (List ℕ)
as_string (text s) i = ok s i
as_string t i = panicked
