-- ===== src/Api/Requests.antt =====
-- What the handlers of api/main.go read from a request, and its routes. A request's path comes as its
-- decoded segments. The first JSON document of a body is the parameter `first_value`; it is told whether
-- the text goes on behind the limit, where reading fails.
use take.Prelude.{
  ℕ, ◌-◌, Bool, not, ◌&&◌, Option, none, some, List, [], ◌∷◌, Text, codes, text_eq, ltb, leb,
  length, if◌then◌else◌, ℤ, pos, ltb_ℤ,
}
use take.Json.{Json, null, bool, str, names, read_text, read_struct}
use take.Strings.{trim_space, rune_len, byte_len}
use take.Numbers.{atoi}
use take.Http.{Response, http_error, Decoded, value, refused}

abbrev pub max_text_len : ℕ
max_text_len = 500

abbrev pub max_body : ℕ
max_body = 4096

-- What http.MaxBytesReader lets through of a body.
unfoldable pub clip : ℕ → Text → Text
clip n [] = []
clip n (c ∷ s) = let rest = clip (n - rune_len c) s in if leb (rune_len c) n then c ∷ rest else []

abbrev pub invalid_body : Response
invalid_body = http_error (codes "invalid JSON body") 400

abbrev pub no_such_todo : Response
no_such_todo = http_error (codes "no such todo") 404

abbrev pub storage_fail : Response
storage_fail = http_error (codes "storage unavailable") 502

pub record CreateBody : Type 0 where
  pub text : Text

-- With DisallowUnknownFields a member of another name is an error.
unfoldable pub create_member : Text → Json → CreateBody → Option CreateBody
create_member k v b =
    if names (codes "text") k
    then (elim (read_text v b.text) [ none ↦ none | some t ↦ some (record { text = t }) ])
    else none

pub record UpdateBody : Type 0 where
  pub text : Option Text
  pub is_done : Option Bool

-- Into a pointer: `null` makes it nil.
abbrev read_text_pointer : Json → Option (Option Text)
read_text_pointer null = some none
read_text_pointer (str t) = some (some t)
read_text_pointer _ = none

abbrev read_bool_pointer : Json → Option (Option Bool)
read_bool_pointer null = some none
read_bool_pointer (bool b) = some (some b)
read_bool_pointer _ = none

unfoldable pub update_member : Text → Json → UpdateBody → Option UpdateBody
update_member k v b =
    if names (codes "text") k
    then (elim (read_text_pointer v) [ none ↦ none | some t ↦ some (record b { text = t }) ])
    else if names (codes "done") k
    then (elim (read_bool_pointer v) [ none ↦ none | some d ↦ some (record b { is_done = d }) ])
    else none

unfoldable pub path_id : Text → Decoded ℤ
path_id segment = elim (atoi segment) [
  | none ↦ refused (http_error (codes "invalid id") 400)
  | some id ↦ if ltb_ℤ (pos 0) id then value id else refused (http_error (codes "invalid id") 400)
]

-- The text is trimmed.
unfoldable pub check_text : Text → Decoded Text
check_text s =
    if text_eq s []
    then refused (http_error (codes "text is required") 400)
    else if ltb max_text_len (length s)
    then refused (http_error (codes "text is too long") 400)
    else value s

unfoldable pub clean_text : Text → Decoded Text
unfolding check_text
clean_text s = check_text (trim_space s)

unfoldable pub given : Decoded Text → Decoded (Option Text)
given (refused r) = refused r
given (value t) = value (some t)

unfoldable pub clean_given : Option Text → Decoded (Option Text)
unfolding clean_text given
clean_given none = value none
clean_given (some s) = given (clean_text s)

pub data Endpoint : Type 0 where
  health list_all create_one : Endpoint
  update_one remove_one : Text → Endpoint

-- The patterns of main that have the path, with their methods. A wildcard takes one segment, not an
-- empty one.
unfoldable pub api_routes : List Text → List (Text × Endpoint)
api_routes (a ∷ b ∷ []) =
    if not (text_eq a (codes "api"))
    then []
    else if text_eq b (codes "healthz")
    then (codes "GET", health) ∷ []
    else if text_eq b (codes "todos")
    then (codes "GET", list_all) ∷ (codes "POST", create_one) ∷ []
    else []
api_routes (a ∷ b ∷ id ∷ []) =
    if text_eq a (codes "api") && text_eq b (codes "todos") && not (text_eq id [])
    then (codes "PATCH", update_one id) ∷ (codes "DELETE", remove_one id) ∷ []
    else []
api_routes _ = []

module _ (first_value : Bool → Text → Option Json) where
  -- A body of `none` is one that cannot be read.
  unfoldable pub decode : {A : Type 0} → (Text → Json → A → Option A) → Option Text → A → Option A
  decode member none zero' = none
  decode member (some body) zero' =
      elim (first_value (ltb max_body (byte_len body)) (clip max_body body)) [
        | none ↦ none
        | some j ↦ read_struct member j zero'
      ]
