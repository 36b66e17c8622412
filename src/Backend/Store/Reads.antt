-- ===== src/Backend/Store/Reads.antt =====
-- GetSession and ListMessages as functions of what the buckets hold.
use take.Prelude.{
  ◌≡◌, sym, ap, ◌∙◌, false, none, some, Text, text_eq, text_eq_refl, with_prefix, lookup, insert,
  lookup-insert,
}
use take.Backend.Keys.{session_key, message_prefix}
use take.Backend.Keys.Order.{session_key-eq}
use take.Backend.Records.{Session, decode_message, encode_session}
use take.Backend.Codec.{decode-encode_session}
use take.Backend.Bolt.{Bolt, IsBolt, sessions, messages}
use take.Backend.Store.{ok, err, not_found, ◌>>=◌, or_err, decode_all, list_messages, get_session}
use take.Backend.Store.Effects.{scan-eq}

module _ (bolt : Bolt) (laws : IsBolt bolt) where
  open bolt use {Db, entries}

  pub list_messages-eq :
      (id : Text) (db : Db)
      → list_messages bolt id db
        ≡ decode_all decode_message (with_prefix (message_prefix id) (entries db messages))
  unfolding list_messages
  list_messages-eq id db = ap (decode_all decode_message) (scan-eq bolt laws db (message_prefix id))

  pub same_messages :
      (id : Text) (db db' : Db)
      → with_prefix (message_prefix id) (entries db' messages)
        ≡ with_prefix (message_prefix id) (entries db messages)
      → list_messages bolt id db' ≡ list_messages bolt id db
  same_messages id db db' e =
      list_messages-eq id db' ∙ ap (decode_all decode_message) e ∙ sym (list_messages-eq id db)

module _ (bolt : Bolt) where
  open bolt use {Db, entries}

  pub same_session :
      (id : Text) (db db' : Db)
      → lookup (session_key id) (entries db' sessions)
        ≡ lookup (session_key id) (entries db sessions)
      → get_session bolt id db' ≡ get_session bolt id db
  unfolding get_session
  same_session id db db' e = rw e

  pub get_session-stored :
      (id : Text) (s : Session) (db : Db)
      → lookup (session_key id) (entries db sessions) ≡ some (encode_session s)
      → get_session bolt id db ≡ ok s
  unfolding get_session or_err ◌>>=◌
  get_session-stored id s db e = rw e (rw decode-encode_session)

  pub get_session-missing :
      (id : Text) (db : Db)
      → lookup (session_key id) (entries db sessions) ≡ none
      → get_session bolt id db ≡ err not_found
  unfolding get_session or_err ◌>>=◌
  get_session-missing id db e = rw e

  -- One session written: it is read back, and another is as it was.
  module _ (id : Text) (s : Session) (db db' : Db)
      (wrote : entries db' sessions
        ≡ insert (session_key id) (encode_session s) (entries db sessions)) where
    pub get_session-written : get_session bolt id db' ≡ ok s
    get_session-written =
        get_session-stored id s db'
          (rw wrote (rw lookup-insert (rw (session_key-eq id id) (rw text_eq_refl))))

    pub get_session-ne :
        (a : Text) → text_eq id a ≡ false → get_session bolt a db' ≡ get_session bolt a db
    get_session-ne a ne =
        same_session a db db' (rw wrote (rw lookup-insert (rw (session_key-eq id a) (rw ne))))
