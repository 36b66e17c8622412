-- ===== src/Backend/Store/Append.antt =====
-- AppendMessage on a sound store.
use take.Prelude.{
  suc, ◌+◌, ◌^◌, ◌<◌, ◌≡◌, refl, ap, subst, ◌∙◌, false, Option, some, List, [], ◌∷◌, ◌++◌, length,
  arith, Text, text_eq, text_eq_sym, text_eq_refl, Entries, with_prefix, with_prefix-insert_last,
  with_prefix-insert_ne,
}
use take.Json.{Json}
use take.Backend.Clock.{Time}
use take.Backend.Keys.{message_prefix, message_key}
use take.Backend.Keys.Order.{IsPlain, has_prefix-message_key}
use take.Backend.Records.{Message, encode_message}
use take.Backend.Bolt.{Bolt, IsBolt, sessions, messages}
use take.Backend.Store.{ok, malformed, ◌>>=◌, or_err, decode_all, scan, next_message}
use take.Backend.Store.Effects.{Appended, scan-eq, >>=-eq-ok, step-eq-ok}
use take.Backend.Store.Invariant.{
  IsSound, IsLog, IsMessageEntry, IsLog-below, IsLog-append, lookup-IsStored,
}

module _ {A : Type 0} (decode : Json → Option A) where
  decode_all-eq-ok :
      (k : Text) (v : Json) (es : Entries Json) {xs : List A}
      → decode_all decode ((k, v) ∷ es) ≡ ok xs
      → (x : A) × (rest : List A) × (decode v ≡ some x)
        × (decode_all decode es ≡ ok rest)
        × (xs ≡ x ∷ rest)
  unfolding decode_all
  decode_all-eq-ok k v es h =
      let (x, read, more) = step-eq-ok malformed _ _ h in
      let (rest, others, same) = >>=-eq-ok _ _ more in (x, rest, read, others, cc)

pub length-decode_all :
    {A : Type 0} (decode : Json → Option A) (es : Entries Json) (xs : List A)
    → decode_all decode es ≡ ok xs
    → length xs ≡ length es
unfolding decode_all or_err ◌>>=◌
length-decode_all decode [] xs h = ground arith
length-decode_all decode ((k, v) ∷ es) xs h =
    let (x, rest, _, others, same) = decode_all-eq-ok decode k v es h in
    ap length same ∙ ap suc (length-decode_all decode es rest others)

pub decode_all-append :
    {A : Type 0} (decode : Json → Option A) (es : Entries Json) (xs : List A) (k : Text) (v : Json)
    (x : A)
    → decode_all decode es ≡ ok xs
    → decode v ≡ some x
    → decode_all decode (es ++ (k, v) ∷ []) ≡ ok (xs ++ x ∷ [])
unfolding decode_all or_err ◌>>=◌
decode_all-append decode [] xs k v x h d = rw d (ground arith)
decode_all-append decode ((j, w) ∷ es) xs k v x h d =
    let (y, rest, first, others, same) = decode_all-eq-ok decode j w es h in
    rw first (rw (decode_all-append decode es rest k v x others d) (rw same))

module _ (bolt : Bolt) (laws : IsBolt bolt) where
  open bolt use {Db, entries}

  module _ (clock : Time) (id role content : Text) (m : Message) (db db' : Db)
      (sound : IsSound bolt db) (done : Appended bolt laws clock id role content m db db') where
    pub id-IsPlain : IsPlain id
    id-IsPlain = (lookup-IsStored id done.doc (entries db sessions) sound.listed done.found).plain

    sent_entry :
        IsMessageEntry id
          (length (scan bolt db (message_prefix id)))
          (message_key id (length (scan bolt db (message_prefix id))), encode_message m)
    unfolding next_message
    sent_entry = record {
      message = m;
      key = refl;
      value = refl;
      session = ap (λ (x : Message). x.session) done.sent;
      seq = ap (λ (x : Message). x.seq) done.sent;
    }

    pub scan_longer :
        length (scan bolt db (message_prefix id)) < 10 ^ 10
        → with_prefix (message_prefix id) (entries db' messages)
          ≡ with_prefix (message_prefix id) (entries db messages)
            ++ (message_key id (length (scan bolt db (message_prefix id))), encode_message m) ∷ []
    scan_longer short =
        let log = sound.logs id id-IsPlain in
        let all = scan-eq bolt laws db (message_prefix id) in
        ap (with_prefix (message_prefix id)) done.new_messages
        ∙ with_prefix-insert_last (message_prefix id) _ (encode_message m) (entries db messages)
            (laws.ordered db messages)
            (has_prefix-message_key id id _ id-IsPlain id-IsPlain ∙ text_eq_refl id)
            (IsLog-below id 0 _ _ log (omega (arith, ap length all)) short)

    pub scan_other :
        (a : Text)
        → IsPlain a
        → text_eq id a ≡ false
        → with_prefix (message_prefix a) (entries db' messages)
          ≡ with_prefix (message_prefix a) (entries db messages)
    scan_other a p ne =
        ap (with_prefix (message_prefix a)) done.new_messages
        ∙ with_prefix-insert_ne (message_prefix a) _ (encode_message m) (entries db messages)
            (has_prefix-message_key a id _ p id-IsPlain ∙ text_eq_sym id a ∙ ne)

    -- The log of the session with the new message at its end.
    pub IsLog-longer :
        length (scan bolt db (message_prefix id)) < 10 ^ 10
        → IsLog id 0 (with_prefix (message_prefix id) (entries db' messages))
    IsLog-longer short =
        let all = scan-eq bolt laws db (message_prefix id) in
        rw (scan_longer short) (
          IsLog-append id 0 _ _ (sound.logs id id-IsPlain) (
            let z : length (scan bolt db (message_prefix id))
                ≡ 0 + length (with_prefix (message_prefix id) (entries db messages)) =
              omega (arith, ap length all) in
            subst
              (λ n.
                IsMessageEntry id n
                  (message_key id (length (scan bolt db (message_prefix id))), encode_message m))
              z sent_entry))
