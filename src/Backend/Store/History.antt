-- ===== src/Backend/Store/History.antt =====
-- What a client reads after an AppendMessage: the theorems.
use take.Prelude.{
  ◌^◌, ◌<◌, ◌≡◌, sym, ap, ◌∙◌, false, List, [], ◌∷◌, ◌++◌, length, arith, Text, text_eq, pos,
}
use take.Backend.Clock.{Time, now_rfc3339}
use take.Backend.Keys.{message_prefix}
use take.Backend.Keys.Order.{IsPlain}
use take.Backend.Records.{Session, Message, decode_message}
use take.Backend.Codec.{decode-encode_message}
use take.Backend.Bolt.{Bolt, IsBolt}
use take.Backend.Store.{
  ok, ◌>>=◌, or_err, scan, list_messages, get_session, append_message, next_message,
}
use take.Backend.Store.Reads.{same_messages, get_session-written, get_session-ne}
use take.Backend.Store.Effects.{append_message-Appended, scan-eq}
use take.Backend.Store.Invariant.{IsSound, IsNumbered, IsLog-IsRead}
use take.Backend.Store.Append.{length-decode_all, decode_all-append, scan_longer, scan_other}

module _ (bolt : Bolt) (laws : IsBolt bolt) where
  open bolt use {Db, entries}

  module _ (id : Text) (ms : List Message) (db : Db)
      (listed : list_messages bolt id db ≡ ok ms) where
    length-scan : length (scan bolt db (message_prefix id)) ≡ length ms
    unfolding list_messages
    length-scan = sym (length-decode_all decode_message _ ms listed)

  -- In a sound store whose session lists fewer than 10^10 messages, a successful AppendMessage
  -- returns the message with that count as its number and the arguments and the time as given,
  -- and the session then lists its earlier messages followed by it.
  pub append_message-list :
      (clock : Time) (id role content : Text) (m : Message) (ms : List Message) (db db' : Db)
      → IsSound bolt db
      → list_messages bolt id db ≡ ok ms
      → length ms < 10 ^ 10
      → append_message bolt clock id role content db ≡ (ok m, db')
      → (m ≡ record {
        session = id;
        seq = pos (length ms);
        role = role;
        content = content;
        created = now_rfc3339 clock;
      })
        × (list_messages bolt id db' ≡ ok (ms ++ m ∷ []))
  unfolding list_messages next_message
  append_message-list clock id role content m ms db db' sound listed short h =
      let done = append_message-Appended bolt laws clock id role content m db db' h in
      let count = length-scan id ms db listed in
      let made =
        done.sent
        ∙ ap
            (λ n. record {
              session = id;
              seq = pos n;
              role = role;
              content = content;
              created = now_rfc3339 clock;
            })
            count in
      let grown =
        scan_longer bolt laws clock id role content m db db' sound done (omega (arith, count)) in
      (
        made,
        rw (scan-eq bolt laws db' (message_prefix id)) (
            rw grown (
              decode_all-append decode_message _ ms _ _ m
                (rw (scan-eq bolt laws db (message_prefix id)) at listed)
                (decode-encode_message m (length ms) (ap (λ (x : Message). x.seq) made)
                  (omega arith)))),
      )

  -- In a sound store, a successful AppendMessage leaves the record and the messages of every
  -- other id without a colon as they were.
  pub append_message-ne :
      (clock : Time) (id role content : Text) (m : Message) (a : Text) (db db' : Db)
      → IsSound bolt db
      → IsPlain a
      → text_eq id a ≡ false
      → append_message bolt clock id role content db ≡ (ok m, db')
      → (list_messages bolt a db' ≡ list_messages bolt a db)
        × (get_session bolt a db' ≡ get_session bolt a db)
  append_message-ne clock id role content m a db db' sound p ne h =
      let done = append_message-Appended bolt laws clock id role content m db db' h in
      (
        same_messages bolt laws a db db'
            (scan_other bolt laws clock id role content m db db' sound done a p ne),
        get_session-ne bolt id _ db db' done.new_sessions a ne,
      )

  -- A successful AppendMessage finds the session and changes in its record the time of update
  -- alone.
  pub append_message-session :
      (clock : Time) (id role content : Text) (m : Message) (db db' : Db)
      → append_message bolt clock id role content db ≡ (ok m, db')
      → (s : Session) × (get_session bolt id db ≡ ok s)
        × (get_session bolt id db' ≡ ok (record s { updated = now_rfc3339 clock }))
  unfolding get_session or_err ◌>>=◌
  append_message-session clock id role content m db db' h =
      let done = append_message-Appended bolt laws clock id role content m db db' h in
      (
        done.old,
        rw done.found (rw done.decoded),
        get_session-written bolt id _ db db' done.new_sessions,
      )

  -- A sound store lists the messages of a session numbered 0, 1, 2, … in the order of the numbers.
  pub list_messages-IsNumbered :
      (id : Text) (db : Db)
      → IsSound bolt db
      → IsPlain id
      → length (scan bolt db (message_prefix id)) < 2 ^ 63
      → (ms : List Message) × (list_messages bolt id db ≡ ok ms) × IsNumbered id 0 ms
  unfolding list_messages
  list_messages-IsNumbered id db sound p short =
      let all = scan-eq bolt laws db (message_prefix id) in
      let r = IsLog-IsRead id 0 _ (sound.logs id p) (omega (arith, ap length all)) in
      (r.read, rw all r.decodes, r.numbered)
