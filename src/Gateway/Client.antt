-- ===== src/Gateway/Client.antt =====
-- keda/websocket-gateway/mcpclient.go: one call of a tool of keda/mcp-server. `post` is the exchange
-- by http.DefaultClient, with the first document of the response's body, and `bad_url` the error of
-- http.NewRequestWithContext for the url; `decode_error` is the text of an error for a document of
-- another shape.
use take.Prelude.{
  Bool, false, Option, none, some, List, [], ◌∷◌, Text, ◌++◌, codes, if◌then◌else◌, pos,
}
use take.Json.{
  Json, null, int, str, arr, obj, Items, nil, cons, end, field, names, read_text, read_bool,
  read_struct,
}
use take.Keda.World.{Outcome, done, failed, Answer}

-- The struct of the response: the texts of its blocks, isError, and the message of a non-nil error.
pub record ToolResult : Type 0 where
  pub content : List Text
  pub is_error : Bool

pub record RpcReply : Type 0 where
  pub result : ToolResult
  pub error : Option Text

unfoldable pub text_member : Text → Text → Json → Text → Option Text
text_member tag k v t = if names tag k then read_text v t else some t

unfoldable pub read_blocks : Items → Option (List Text)
unfolding text_member
read_blocks nil = some []
read_blocks (cons j rest) = elim (read_struct (text_member (codes "text")) j []) [
  | none ↦ none
  | some t ↦ elim (read_blocks rest) [ none ↦ none | some ts ↦ some (t ∷ ts) ]
]

-- Into a slice: `null` makes it nil, a second array takes the place of a first.
abbrev read_content : Json → Option (List Text)
read_content null = some []
read_content (arr items) = read_blocks items
read_content _ = none

unfoldable pub result_member : Text → Json → ToolResult → Option ToolResult
unfolding read_blocks
result_member k v r =
    if names (codes "content") k
    then (elim (read_content v) [ none ↦ none | some ts ↦ some (record r { content = ts }) ])
    else if names (codes "iserror") k
    then (elim (read_bool v r.is_error) [ none ↦ none | some b ↦ some (record r { is_error = b }) ])
    else some r

abbrev old_message : Option Text → Text
old_message none = []
old_message (some t) = t

-- Into a pointer: `null` makes it nil, else the struct is made where it was nil.
abbrev read_error : Json → Option Text → Option (Option Text)
read_error null old = some none
read_error j old = elim (read_struct (text_member (codes "message")) j (old_message old)) [
  | none ↦ none
  | some t ↦ some (some t)
]

unfoldable pub reply_member : Text → Json → RpcReply → Option RpcReply
unfolding result_member text_member
reply_member k v r =
    if names (codes "result") k
    then (elim (read_struct result_member v r.result) [
      | none ↦ none
      | some x ↦ some (record r { result = x })
    ])
    else if names (codes "error") k
    then (elim (read_error v r.error) [ none ↦ none | some e ↦ some (record r { error = e }) ])
    else some r

abbrev zero_reply : RpcReply
zero_reply = record { result = record { content = []; is_error = false }; error = none }

unfoldable pub decode_reply : Json → Option RpcReply
unfolding reply_member
decode_reply j = read_struct reply_member j zero_reply

-- What is marshalled for a tool's name.
abbrev pub call_body : Text → Json
call_body name = obj (
    field (codes "id") (int (pos 1)) (
      field (codes "jsonrpc") (str (codes "2.0")) (
        field (codes "method") (str (codes "tools/call")) (
          field (codes "params")
            (obj (field (codes "arguments") (obj end) (field (codes "name") (str name) end)))
            end))))

unfoldable pub joined : List Text → Text
joined [] = []
joined (t ∷ ts) = t ++ joined ts

-- Behind the decoder.
unfoldable pub reply_outcome : RpcReply → Outcome Text
unfolding joined
reply_outcome r = elim r.error [
  | some message ↦ failed (codes "mcp-server: " ++ message)
  | none ↦
      if r.result.is_error
      then failed (codes "mcp-server tool error: " ++ joined r.result.content)
      else done (joined r.result.content)
]

module _ (decode_error : Json → Text) where
  of_reply : Json → Option RpcReply → Outcome Text
  of_reply j none = failed (codes "decoding mcp-server response: " ++ decode_error j)
  of_reply j (some r) = reply_outcome r

  unfoldable pub of_answer : Outcome Json → Outcome Text
  unfolding of_reply decode_reply reply_outcome
  of_answer (failed e) = failed (codes "decoding mcp-server response: " ++ e)
  of_answer (done j) = of_reply j (decode_reply j)

  unfoldable pub exchanged : {S : Type 0} → Outcome Answer × S → Outcome Text × S
  unfolding of_answer
  exchanged (failed e, s) = (failed (codes "calling mcp-server: " ++ e), s)
  exchanged (done r, s) = (of_answer r.document, s)

  unfoldable pub call_tool :
      {S : Type 0} → Option Text → (Json → S → Outcome Answer × S) → Text → S → Outcome Text × S
  unfolding exchanged
  call_tool (some e) post name s = (failed e, s)
  call_tool none post name s = exchanged (post (call_body name) s)

-- The list as json.RawMessage, which wsjson.Write refuses where it is not JSON.
unfoldable pub fetched : (Text → Option Json) → Outcome Text → Option Json
fetched parse (failed e) = none
fetched parse (done text) = parse text
