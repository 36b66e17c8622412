-- ===== src/Backend/Tests.antt =====
-- Runs of the store over the list database, and the theorems at inputs that meet their hypotheses.
mod Stored
mod Handled
use take.Prelude.{
  ℕ, ◌≡◌, refl, none, some, List, [], ◌∷◌, ◌++◌, arith, Text, codes, text_eq, text_lt, pos, ltb,
  decimal, insert, lookup, remove, seek, while_prefix, has_prefix,
}
use take.Backend.Clock.{Time, now_rfc3339, new_id}
use take.Backend.Keys.{session_key, message_key, message_prefix}
use take.Backend.Keys.Order.{message_key_order}
use take.Backend.Records.{
  Session, Message, encode_session, encode_message, decode_session, decode_message,
}
use take.Backend.Bolt.{same_bucket}
use take.Backend.Memory.{Memory, memory, empty_memory, memory-IsBolt}
use take.Backend.Store.{
  ok, err, not_found, create_session, get_session, list_sessions, list_messages, append_message,
  delete_session, ◌>>=◌, or_err,
}
use take.Backend.Store.Invariant.{IsSound, IsNumbered}
use take.Backend.Store.History.{append_message-list, append_message-ne, append_message-session}
use take.Backend.Store.Delete.{delete_session-gone, delete_session-ne}
use take.Backend.Store.Runs.{Call, create, append, run, run-IsSound, run-IsNumbered}

abbrev pub noon : Time
noon = record { seconds = 1753272000; nanos = 120000000 }

stamp : now_rfc3339 noon ≡ codes "2025-07-23T12:00:00.12Z"
unfolding now_rfc3339 decimal
stamp = refl

abbrev pub bytes : List ℕ
bytes = 0 ∷ 171 ∷ 16 ∷ []

ids : (new_id (some bytes) noon ≡ codes "00ab10") × (new_id none noon ≡ codes "1753272000120000000")
unfolding new_id
ids = (refl, refl)

key : message_key (codes "00ab10") 42 ≡ codes "msg:00ab10:0000000042"
unfolding message_key decimal
key = refl

abbrev pub id : Text
id = codes "00ab10"

abbrev pub script : List Call
script =
    create noon (some bytes) noon []
    ∷ append noon id (codes "user") (codes "hi")
    ∷ append noon id (codes "assistant") (codes "hello")
    ∷ append noon (codes "missing") (codes "user") (codes "hi")
    ∷ []

unfoldable pub store : Unit {0}
unfolding run decimal create_session get_session list_sessions list_messages append_message
    delete_session ◌>>=◌ or_err same_bucket insert lookup remove seek while_prefix has_prefix
    text_eq text_lt encode_session encode_message decode_session decode_message now_rfc3339 new_id
    session_key message_key message_prefix
store = tt

script_titles :
    get_session memory id (run memory script empty_memory)
    ≡ ok (record {
      id = id;
      created = now_rfc3339 noon;
      updated = now_rfc3339 noon;
      title = codes "New session";
    })
unfolding store
script_titles = refl

abbrev pub filled : Memory
filled = run memory script empty_memory

pub filled-IsSound : IsSound memory filled
filled-IsSound = run-IsSound memory memory-IsBolt script empty_memory (λ b. refl) (omega arith)

abbrev said : ℕ → Text → Text → Message
said n role content = record {
  session = id;
  seq = pos n;
  role = role;
  content = content;
  created = codes "2025-07-23T12:00:00.12Z";
}

abbrev pub history : List Message
history = said 0 (codes "user") (codes "hi") ∷ said 1 (codes "assistant") (codes "hello") ∷ []

pub filled-history : list_messages memory id filled ≡ ok history
unfolding store
filled-history = refl

abbrev third : Message
third = said 2 (codes "user") (codes "bye")

abbrev longer : Memory
longer = (append_message memory noon id (codes "user") (codes "bye") filled).1

appends : append_message memory noon id (codes "user") (codes "bye") filled ≡ (ok third, longer)
unfolding store
appends = refl

append_message-list_example :
    (third ≡ record {
      session = id;
      seq = pos 2;
      role = codes "user";
      content = codes "bye";
      created = now_rfc3339 noon;
    })
    × (list_messages memory id longer ≡ ok (history ++ third ∷ []))
append_message-list_example =
    append_message-list memory memory-IsBolt noon id (codes "user") (codes "bye") third history
      filled longer filled-IsSound filled-history (omega arith) appends

abbrev pub other : Text
other = codes "00ab11"

append_message-ne_example :
    (list_messages memory other longer ≡ list_messages memory other filled)
    × (get_session memory other longer ≡ get_session memory other filled)
unfolding text_eq
append_message-ne_example =
    append_message-ne memory memory-IsBolt noon id (codes "user") (codes "bye") third other filled
      longer filled-IsSound (refl, (refl, (refl, (refl, (refl, (refl, tt)))))) refl appends

append_message-session_example :
    (s : Session) × (get_session memory id filled ≡ ok s)
    × (get_session memory id longer ≡ ok (record s { updated = now_rfc3339 noon }))
append_message-session_example =
    append_message-session memory memory-IsBolt noon id (codes "user") (codes "bye") third filled
      longer appends

abbrev emptied : Memory
emptied = (delete_session memory id filled).1

deletes : delete_session memory id filled ≡ (ok tt, emptied)
unfolding store
deletes = refl

delete_session-gone_example :
    (get_session memory id emptied ≡ err not_found) × (list_messages memory id emptied ≡ ok [])
delete_session-gone_example = delete_session-gone memory memory-IsBolt id filled emptied deletes

delete_session-ne_example :
    (get_session memory other emptied ≡ get_session memory other filled)
    × (list_messages memory other emptied ≡ list_messages memory other filled)
unfolding text_eq
delete_session-ne_example =
    delete_session-ne memory memory-IsBolt id other filled emptied filled-IsSound
      (refl, (refl, (refl, (refl, (refl, (refl, tt)))))) refl deletes

run-IsNumbered_example :
    (ms : List Message) × (list_messages memory id filled ≡ ok ms) × IsNumbered id 0 ms
run-IsNumbered_example =
    run-IsNumbered memory memory-IsBolt script empty_memory id (λ b. refl) (omega arith)
      (refl, (refl, (refl, (refl, (refl, (refl, tt))))))

message_key_order_example : text_lt (message_key id 9) (message_key id 10) ≡ ltb 9 10
message_key_order_example = message_key_order id 9 10 (omega arith) (omega arith)
