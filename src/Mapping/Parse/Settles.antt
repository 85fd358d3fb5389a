-- ===== src/Mapping/Parse/Settles.antt =====
-- Runs of the parser of internal/mapping/parse.go that end in a value or an error: no type assertion
-- fails, and the fuel is enough. The reading of one token.
pub mod Places
pub mod Targets
pub mod Document
use sonarr_anime_bridge.Prelude.{
  ℕ, zero, suc, ◌+◌, ◌≤◌, ◌<◌, ◌≡◌, refl, Bool, true, false, List, [], ◌∷◌, Option, none, some,
  length, arith, Option-cases, inl, inr,
}
use sonarr_anime_bridge.Mapping.Parse.Json.{
  Token, Frame, Input, Parsed, in_array, at_key, at_value, open_object, close_object, open_array,
  close_array, null, bool, number, text, ok, failed, ParseError, after_value, accept, next,
  decoder_token, more, more_in, check_left, check_ctx, or_ended, parser_token, bind,
}

pub data Settles {ℓ κ} {A : Type ℓ} (P : A → Input → Type κ) : Parsed A → Type (ℓ ⊔ κ) where
  holds : {a : A} {i : Input} → P a i → Settles P (ok a i)
  refused : {e : ParseError} → Settles P (failed e)

pub Settles-bind {ℓ κ ℓ' κ'} :
    {A : Type ℓ} {B : Type ℓ'} {P : A → Input → Type κ} {Q : B → Input → Type κ'} {r : Parsed A}
    {f : A → Input → Parsed B}
    → Settles P r
    → ((a : A) (i : Input) → P a i → Settles Q (f a i))
    → Settles Q (bind r f)
Settles-bind (holds {a} {i} p) k = k a i p
Settles-bind refused k = refused

pub Settles-map {ℓ κ κ'} :
    {A : Type ℓ} {P : A → Input → Type κ} {Q : A → Input → Type κ'} {r : Parsed A}
    → Settles P r
    → ((a : A) (i : Input) → P a i → Q a i)
    → Settles Q r
Settles-map (holds {a} {i} p) k = holds (k a i p)
Settles-map refused k = refused

-- Only the context has moved on.
abbrev pub Same : Input → Unit {0} → Input → Type 0
Same i u j = (j.ahead ≡ i.ahead) × (j.frames ≡ i.frames) × (j.malformed ≡ i.malformed)

check_left-Settles : (ctx : Option ℕ) (i : Input) → Settles (Same i) (check_left ctx i)
unfolding check_left
check_left-Settles none i = holds (refl, refl, refl)
check_left-Settles (some zero) i = refused
check_left-Settles (some (suc n)) i = holds (refl, refl, refl)

pub check_ctx-Settles : (i : Input) → Settles (Same i) (check_ctx i)
unfolding check_ctx
check_ctx-Settles i = check_left-Settles i.ctx i

-- One token has been read, which the decoder accepts.
abbrev pub Reads : Input → Token → Input → Type 0
Reads i t j = (accept t i.frames ≡ some j.frames) × (i.ahead ≡ t ∷ j.ahead)

next-Settles :
    (t : Token) (ts : List Token) (i : Input) (o : Option (List Frame))
    → accept t i.frames ≡ o
    → i.ahead ≡ t ∷ ts
    → Settles (Reads i) (next t ts i o)
unfolding next
next-Settles t ts i none a e = refused
next-Settles t ts i (some fs) a e = holds (a, e)

decoder_token-Settles :
    (ts : List Token) (i : Input) → i.ahead ≡ ts → Settles (Reads i) (decoder_token ts i)
unfolding decoder_token
decoder_token-Settles [] i e = refused
decoder_token-Settles (t ∷ ts) i e = next-Settles t ts i (accept t i.frames) refl e

or_ended-Settles :
    (i : Input) {r : Parsed Token} → Settles (Reads i) r → Settles (Reads i) (or_ended i r)
unfolding or_ended
or_ended-Settles i (holds {a = t} {i = j} (a, e)) =
    Settles-bind (check_ctx-Settles j) λ _ k (h, g, _). holds (rw g a, rw h e)
or_ended-Settles i refused = Settles-bind (check_ctx-Settles i) λ _ k _. refused

pub parser_token-Settles : (i : Input) → Settles (Reads i) (parser_token i)
unfolding parser_token
parser_token-Settles i = Settles-bind (check_ctx-Settles i) λ _ j (h, g, _).
    Settles-map (or_ended-Settles j (decoder_token-Settles j.ahead j refl))
      λ t k (a, e). (rw (← g) a, rw (← h) e)
