-- ===== src/Backend/Records.antt =====
-- Session, Message and SessionDetail of agent/backend/store.go with their JSON documents: what
-- json.Marshal writes and json.Unmarshal reads under the struct tags.
use take.Prelude.{Text, codes, Option, none, some, List, [], ◌∷◌, ℤ, pos, if◌then◌else◌}
use take.Json.{
  Json, str, int, obj, arr, Items, nil, cons, Fields, end, field, names, read_text, read_int,
  read_struct,
}

pub record Session : Type 0 where
  pub id : Text
  pub created : Text
  pub updated : Text
  pub title : Text

pub record Message : Type 0 where
  pub session : Text
  pub seq : ℤ
  pub role : Text
  pub content : Text
  pub created : Text

-- SessionDetail embeds its session.
pub record SessionDetail : Type 0 where
  pub base : Session
  pub messages : List Message

abbrev pub zero_session : Session
zero_session = record { id = []; created = []; updated = []; title = [] }

abbrev pub zero_message : Message
zero_message = record { session = []; seq = pos 0; role = []; content = []; created = [] }

abbrev with_session : Session → Fields → Fields
with_session s rest = field (codes "id") (str s.id) (
    field (codes "created") (str s.created)
      (field (codes "updated") (str s.updated) (field (codes "title") (str s.title) rest)))

unfoldable pub encode_session : Session → Json
encode_session s = obj (with_session s end)

unfoldable pub encode_message : Message → Json
encode_message m = obj (
    field (codes "session") (str m.session) (
      field (codes "seq") (int m.seq) (
        field (codes "role") (str m.role)
          (field (codes "content") (str m.content) (field (codes "created") (str m.created) end)))))

unfoldable pub encode_messages : List Message → Items
unfolding encode_message
encode_messages [] = nil
encode_messages (m ∷ ms) = cons (encode_message m) (encode_messages ms)

unfoldable pub encode_sessions : List Session → Items
unfolding encode_session
encode_sessions [] = nil
encode_sessions (s ∷ ss) = cons (encode_session s) (encode_sessions ss)

unfoldable pub encode_detail : SessionDetail → Json
unfolding encode_messages
encode_detail d =
    obj (with_session d.base (field (codes "messages") (arr (encode_messages d.messages)) end))

infixl 5 ◌>>=◌
abbrev ◌>>=◌ : {A B : Type 0} → Option A → (A → Option B) → Option B
none >>= f = none
some a >>= f = f a

session_member : Text → Json → Session → Option Session
session_member k v s =
    if names (codes "id") k
    then (do t ← read_text v s.id; some (record s { id = t }))
    else if names (codes "created") k
    then (do t ← read_text v s.created; some (record s { created = t }))
    else if names (codes "updated") k
    then (do t ← read_text v s.updated; some (record s { updated = t }))
    else if names (codes "title") k
    then (do t ← read_text v s.title; some (record s { title = t }))
    else some s

unfoldable pub decode_session : Json → Option Session
unfolding read_struct session_member read_text names
decode_session j = read_struct session_member j zero_session

message_member : Text → Json → Message → Option Message
message_member k v m =
    if names (codes "session") k
    then (do t ← read_text v m.session; some (record m { session = t }))
    else if names (codes "seq") k
    then (do n ← read_int v m.seq; some (record m { seq = n }))
    else if names (codes "role") k
    then (do t ← read_text v m.role; some (record m { role = t }))
    else if names (codes "content") k
    then (do t ← read_text v m.content; some (record m { content = t }))
    else if names (codes "created") k
    then (do t ← read_text v m.created; some (record m { created = t }))
    else some m

unfoldable pub decode_message : Json → Option Message
unfolding read_struct message_member read_text read_int names
decode_message j = read_struct message_member j zero_message
