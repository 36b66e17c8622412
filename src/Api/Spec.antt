-- ===== src/Api/Spec.antt =====
-- What the handlers of api/main.go promise, as a relation between a request, its response, and the
-- table before and after.
use take.Prelude.{
  ◌≤◌, ◌≡◌, ◌≢◌, Bool, false, Option, none, some, List, [], ◌∷◌, ◌++◌, Text, codes, ◌⊎◌, length, ℤ,
}
use take.Json.{Json, arr}
use take.Strings.{trim_space}
use take.Http.{Response, plain, http_error, nothing, value, write_json}
use take.Api.Todos.{Todo, encode_row, encode_rows, row_of, set_row, remove_row}
use take.Api.Requests.{
  CreateBody, UpdateBody, create_member, update_member, decode, path_id, no_such_todo, Endpoint,
  health, list_all, create_one, update_one, remove_one,
}

-- A text as it is stored: not empty, and of at most 500 characters.
pub record IsTitle (s : Text) : Type 0 where
  pub filled : s ≢ []
  pub short : length s ≤ 500

-- The column that a PATCH sets for a text in its body.
pub data IsGiven : Option Text → Option Text → Type 0 where
  absent : IsGiven none none
  present : {s : Text} → IsTitle (trim_space s) → IsGiven (some s) (some (trim_space s))

abbrev pub segment_of : Endpoint → Option Text
segment_of (update_one s) = some s
segment_of (remove_one s) = some s
segment_of _ = none

module _ (first_value : Bool → Text → Option Json) where
  abbrev pub ReadsCreate : Option Text → CreateBody → Type 0
  ReadsCreate body b = decode first_value create_member body (record { text = [] }) ≡ some b

  abbrev pub ReadsUpdate : Option Text → UpdateBody → Type 0
  ReadsUpdate body b =
      decode first_value update_member body (record { text = none; is_done = none }) ≡ some b

  -- A request that the handlers refuse: an id that is none, a body that is none, a title that is empty
  -- or too long, or an update of nothing.
  pub data IsBad (e : Endpoint) (body : Option Text) : Type 0 where
    bad_id :
        (segment : Text)
        → segment_of e ≡ some segment
        → ((id : ℤ) → path_id segment ≢ value id)
        → IsBad e body
    bad_new_body :
        e ≡ create_one
        → decode first_value create_member body (record { text = [] }) ≡ none
        → IsBad e body
    bad_new_title :
        (b : CreateBody)
        → e ≡ create_one
        → ReadsCreate body b
        → ¬ IsTitle (trim_space b.text)
        → IsBad e body
    bad_body :
        (segment : Text)
        → e ≡ update_one segment
        → decode first_value update_member body (record { text = none; is_done = none }) ≡ none
        → IsBad e body
    bad_title :
        (segment s : Text) (b : UpdateBody)
        → e ≡ update_one segment
        → ReadsUpdate body b
        → b.text ≡ some s
        → ¬ IsTitle (trim_space s)
        → IsBad e body
    no_change :
        (segment : Text)
        → e ≡ update_one segment
        → ReadsUpdate body (record { text = none; is_done = none })
        → IsBad e body

  pub data Does (e : Endpoint) (body : Option Text) (t : List Todo) (r : Response) (t' : List Todo)
      : Type 0 where
    did_ping :
        e ≡ health
        → (r ≡ record { status = 200; body = plain (codes "ok\n") })
          ⊎ (r ≡ http_error (codes "database unreachable") 503)
        → t' ≡ t
        → Does e body t r t'
    did_refuse : IsBad e body → r.status ≡ 400 → t' ≡ t → Does e body t r t'
    did_list : e ≡ list_all → r ≡ write_json 200 (arr (encode_rows t)) → t' ≡ t → Does e body t r t'
    did_create :
        (b : CreateBody) (x : Todo)
        → e ≡ create_one
        → ReadsCreate body b
        → x.text ≡ trim_space b.text
        → IsTitle x.text
        → x.is_done ≡ false
        → row_of x.id t ≡ none
        → r ≡ write_json 201 (encode_row x)
        → t' ≡ t ++ x ∷ []
        → Does e body t r t'
    did_update :
        (segment : Text) (id : ℤ) (b : UpdateBody) (text : Option Text) (x : Todo)
        → e ≡ update_one segment
        → path_id segment ≡ value id
        → ReadsUpdate body b
        → IsGiven b.text text
        → row_of id t' ≡ some x
        → r ≡ write_json 200 (encode_row x)
        → t' ≡ set_row text b.is_done id t
        → Does e body t r t'
    did_remove :
        (segment : Text) (id : ℤ)
        → e ≡ remove_one segment
        → path_id segment ≡ value id
        → row_of id t ≢ none
        → r ≡ record { status = 204; body = nothing }
        → t' ≡ remove_row id t
        → Does e body t r t'
    was_missing :
        (segment : Text) (id : ℤ)
        → segment_of e ≡ some segment
        → path_id segment ≡ value id
        → row_of id t ≡ none
        → r ≡ no_such_todo
        → t' ≡ t
        → Does e body t r t'
