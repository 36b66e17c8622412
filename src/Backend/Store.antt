-- ===== src/Backend/Store.antt =====
-- The methods of Store in agent/backend/store.go, over a bbolt database.
pub mod Effects
pub mod Invariant
pub mod Reads
pub mod Append
pub mod History
pub mod Delete
pub mod Listing
pub mod Sound
pub mod Runs
use take.Prelude.{
  ℕ, suc, ◌+◌, Bool, true, false, Option, none, some, List, [], ◌∷◌, ◌++◌, map, length, Text, codes,
  text_eq, text_lt, sort_slice, if◌then◌else◌, pos, Entries, lookup, seek, while_prefix,
}
use take.Json.{Json}
use take.Backend.Clock.{Time, now_rfc3339, new_id}
use take.Backend.Keys.{session_key, message_prefix, message_key}
use take.Backend.Records.{
  Session, Message, encode_session, encode_message, decode_session, decode_message,
}
use take.Backend.Bolt.{Bolt, Bucket, sessions, messages}

-- `not_found` is ErrNotFound; the handlers tell it from every other error.
pub data Error : Type 0 where
  not_found malformed storage : Error

pub data Result (A : Type 0) : Type 0 where
  ok : A → Result A
  err : Error → Result A

unfoldable pub or_err : {A : Type 0} → Error → Option A → Result A
or_err e none = err e
or_err e (some a) = ok a

infixl 5 ◌>>=◌
unfoldable pub ◌>>=◌ : {A B : Type 0} → Result A → (A → Result B) → Result B
err e >>= f = err e
ok a >>= f = f a

abbrev pub default_session_title : Text
default_session_title = codes "New session"

-- Every value of a cursor's walk through `decode`; the first that does not decode is an error.
unfoldable pub decode_all : {A : Type 0} → (Json → Option A) → Entries Json → Result (List A)
decode_all decode [] = ok []
decode_all decode ((k, v) ∷ l) = do
  a ← or_err malformed (decode v)
  rest ← decode_all decode l
  ok (a ∷ rest)

-- The record that CreateSession makes.
unfoldable pub new_session : Time → Option (List ℕ) → Time → Text → Session
new_session now random later title =
    let stamp = now_rfc3339 now in
    record {
      id = new_id random later;
      created = stamp;
      updated = stamp;
      title = if text_eq title [] then default_session_title else title;
    }

module _ (bolt : Bolt) where
  open bolt use {Db, entries, put, delete, commit}

  -- db.Update: an error of the function rolls the transaction back; so does a failed commit.
  unfoldable pub update : {A : Type 0} → (Db → Result (A × Db)) → Db → Result A × Db
  update f db = elim (f db) [
    | err e ↦ (err e, db)
    | ok (a, tx) ↦ elim (commit tx) [ none ↦ (err storage, db) | some db' ↦ (ok a, db') ]
  ]

  -- The entries that the cursor loops of this file visit.
  unfoldable pub scan : Db → Text → Entries Json
  scan db prefix = while_prefix prefix (seek prefix (entries db messages))

  -- The body of the transaction of CreateSession.
  unfoldable pub create_tx : Session → Db → Result (Session × Db)
  create_tx sess tx = do
    tx' ← or_err storage (put sessions (session_key sess.id) (encode_session sess) tx)
    ok (sess, tx')

  unfoldable pub create_session : Time → Option (List ℕ) → Time → Text → Db → Result Session × Db
  unfolding update new_session create_tx
  create_session now random later title = update (create_tx (new_session now random later title))

  -- sessions[i].Updated > sessions[j].Updated
  unfoldable pub more_recent : Session → Session → Bool
  more_recent s t = text_lt t.updated s.updated

  unfoldable pub list_sessions : Db → Result (List Session)
  unfolding more_recent decode_all
  list_sessions db = do
    all ← decode_all decode_session (entries db sessions)
    ok (sort_slice more_recent all)

  unfoldable pub get_session : Text → Db → Result Session
  get_session id db = do
    v ← or_err not_found (lookup (session_key id) (entries db sessions))
    or_err malformed (decode_session v)

  unfoldable pub list_messages : Text → Db → Result (List Message)
  unfolding scan decode_all
  list_messages id db = decode_all decode_message (scan db (message_prefix id))

  -- The message that AppendMessage adds: its number is the count of those that the loop visits.
  unfoldable pub next_message : Time → Text → Text → Text → Db → Message
  unfolding scan
  next_message clock id role content tx = record {
    session = id;
    seq = pos (length (scan tx (message_prefix id)));
    role = role;
    content = content;
    created = now_rfc3339 clock;
  }

  -- The body of the transaction of AppendMessage.
  unfoldable pub append_tx : Time → Text → Text → Text → Db → Result (Message × Db)
  unfolding scan next_message
  append_tx clock id role content tx = do
    sv ← or_err not_found (lookup (session_key id) (entries tx sessions))
    sess ← or_err malformed (decode_session sv)
    let seq = length (scan tx (message_prefix id))
    let now = now_rfc3339 clock
    let msg = next_message clock id role content tx
    tx₁ ← or_err storage (put messages (message_key id seq) (encode_message msg) tx)
    tx₂ ←
        or_err storage
          (put sessions (session_key id) (encode_session (record sess { updated = now })) tx₁)
    ok (msg, tx₂)

  unfoldable pub append_message : Time → Text → Text → Text → Db → Result Message × Db
  unfolding update append_tx
  append_message clock id role content = update (append_tx clock id role content)

  unfoldable pub delete_keys : List Text → Db → Result Db
  delete_keys [] tx = ok tx
  delete_keys (k ∷ ks) tx = do tx' ← or_err storage (delete messages k tx); delete_keys ks tx'

  -- The body of the transaction of DeleteSession.
  unfoldable pub delete_tx : Text → Db → Result (Unit {0} × Db)
  unfolding scan delete_keys
  delete_tx id tx = do
    _ ← or_err not_found (lookup (session_key id) (entries tx sessions))
    tx₁ ← or_err storage (delete sessions (session_key id) tx)
    tx₂ ← delete_keys (map (λ e. e.0) (scan tx₁ (message_prefix id))) tx₁
    ok (tt, tx₂)

  unfoldable pub delete_session : Text → Db → Result (Unit {0}) × Db
  unfolding update delete_tx
  delete_session id = update (delete_tx id)
