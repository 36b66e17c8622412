-- ===== src/Http.antt =====
-- Responses of net/http handlers, and the statuses that the program sends.
use take.Prelude.{
  ℕ, ◌&&◌, ◌||◌, Option, none, some, List, [], ◌∷◌, Text, ◌++◌, codes, text_eq, if◌then◌else◌,
}
use take.Json.{Json}

-- `nothing` is a response with a header alone.
pub data Body : Type 0 where
  nothing : Body
  plain : Text → Body
  document : Json → Body

pub record Response : Type 0 where
  pub status : ℕ
  pub body : Body

-- http.Error ends its text with a newline.
abbrev pub http_error : Text → ℕ → Response
http_error message status = record { status = status; body = plain (message ++ codes "\n") }

abbrev pub write_json : ℕ → Json → Response
write_json status j = record { status = status; body = document j }

-- A value from a request, or the response that refuses it.
pub data Decoded (A : Type 0) : Type 0 where
  value : A → Decoded A
  refused : Response → Decoded A

-- The pattern with the request's method; one of GET serves HEAD too.
unfoldable pub pick : {E : Type 0} → Text → List (Text × E) → Option E
pick method [] = none
pick method ((m, e) ∷ rs) =
    if text_eq m method || text_eq m (codes "GET") && text_eq method (codes "HEAD")
    then some e
    else pick method rs
