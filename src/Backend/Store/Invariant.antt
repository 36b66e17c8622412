-- ===== src/Backend/Store/Invariant.antt =====
-- The invariant of the two buckets: every session is stored under its own key, and the messages of
-- a session are numbered 0, 1, 2, … with no gap. No message is left of a session that is gone.
use take.Prelude.{
  ℕ, suc, ◌+◌, ◌^◌, ◌≤◌, ◌<◌, ◌≡◌, refl, ◌∙◌, true, none, some, List, [], ◌∷◌, ◌++◌, length, arith,
  Text, text_lt, text_eq, text_eq_iff, pos, Entries, lookup, with_prefix, All, Bool-cases, inl, inr,
  lt→ltb,
}
use take.Json.{Json}
use take.Backend.Keys.{session_key, message_prefix, message_key}
use take.Backend.Keys.Order.{IsPlain, message_key_order, session_key-eq}
use take.Backend.Records.{Session, Message, encode_session, encode_message, decode_message}
use take.Backend.Codec.{decode-encode_message}
use take.Backend.Bolt.{Bolt, sessions, messages}
use take.Backend.Store.{ok, ◌>>=◌, or_err, decode_all}

pub record IsMessageEntry (id : Text) (n : ℕ) (e : Text × Json) : Type 0 where
  pub message : Message
  pub key : e.0 ≡ message_key id n
  pub value : e.1 ≡ encode_message message
  pub session : message.session ≡ id
  pub seq : message.seq ≡ pos n

abbrev pub IsLog : Text → ℕ → Entries Json → Type 0
IsLog id n [] = Unit
IsLog id n (e ∷ es) = IsMessageEntry id n e × IsLog id (suc n) es

pub record IsSessionEntry (e : Text × Json) : Type 0 where
  pub session : Session
  pub key : e.0 ≡ session_key session.id
  pub value : e.1 ≡ encode_session session
  pub plain : IsPlain session.id

-- The messages of a list belong to the session and are numbered from `n` on.
abbrev pub IsNumbered : Text → ℕ → List Message → Type 0
IsNumbered id n [] = Unit
IsNumbered id n (m ∷ ms) = ((m.session ≡ id) × (m.seq ≡ pos n)) × IsNumbered id (suc n) ms

pub record IsSound (bolt : Bolt) (db : bolt.Db) : Type 0 where
  pub listed : All IsSessionEntry (bolt.entries db sessions)
  pub logs :
      (id : Text)
      → IsPlain id
      → IsLog id 0 (with_prefix (message_prefix id) (bolt.entries db messages))
  pub no_orphans :
      (id : Text)
      → IsPlain id
      → lookup (session_key id) (bolt.entries db sessions) ≡ none
      → with_prefix (message_prefix id) (bolt.entries db messages) ≡ []

-- The session that a lookup finds.
pub record IsStored (id : Text) (doc : Json) : Type 0 where
  pub session : Session
  pub value : doc ≡ encode_session session
  pub same_id : session.id ≡ id
  pub plain : IsPlain id

pub lookup-IsStored :
    (id : Text) (doc : Json) (l : Entries Json)
    → All IsSessionEntry l
    → lookup (session_key id) l ≡ some doc
    → IsStored id doc
unfolding lookup
lookup-IsStored id doc [] a h = cc
lookup-IsStored id doc ((k, v) ∷ l) (e, es) h = elim (Bool-cases (text_eq k (session_key id))) [
  | inl same ↦
      let own : e.session.id ≡ id =
        ground (arith, session_key-eq e.session.id id, text_eq_iff e.session.id id) in
      record {
        session = e.session;
        value = ground arith;
        same_id = own;
        plain = rw (← own) e.plain;
      }
  | inr other ↦ lookup-IsStored id doc l es (ground arith)
]

-- The keys of a log come before the key of the number that follows.
pub IsLog-below :
    (id : Text) (n top : ℕ) (es : Entries Json)
    → IsLog id n es
    → n + length es ≤ top
    → top < 10 ^ 10
    → All (λ e. text_lt e.0 (message_key id top) ≡ true) es
IsLog-below id n top [] l h k = tt
IsLog-below id n top (e ∷ es) (here, more) h k = (
  rw here.key (message_key_order id n top (omega arith) k ∙ lt→ltb n top (omega arith)),
  IsLog-below id (suc n) top es more (omega arith) k,
)

pub IsLog-append :
    (id : Text) (n : ℕ) (es : Entries Json) (e : Text × Json)
    → IsLog id n es
    → IsMessageEntry id (n + length es) e
    → IsLog id n (es ++ e ∷ [])
IsLog-append id n [] e l m = (let z : n + 0 ≡ n = omega arith in rw z at m, tt)
IsLog-append id n (d ∷ es) e (here, more) m = (
  here,
  IsLog-append id (suc n) es e more
      (let z : n + suc (length es) ≡ suc n + length es = omega arith in rw z at m),
)

-- A log is read back as its messages.
pub record IsRead (id : Text) (n : ℕ) (es : Entries Json) : Type 0 where
  pub read : List Message
  pub decodes : decode_all decode_message es ≡ ok read
  pub numbered : IsNumbered id n read
  pub count : length read ≡ length es

pub IsLog-IsRead :
    (id : Text) (n : ℕ) (es : Entries Json)
    → IsLog id n es
    → n + length es < 2 ^ 63
    → IsRead id n es
unfolding decode_all or_err ◌>>=◌
IsLog-IsRead id n [] l h = record { read = []; decodes = refl; numbered = tt; count = refl }
IsLog-IsRead id n ((k, v) ∷ es) (here, more) h =
    let rest = IsLog-IsRead id (suc n) es more (omega arith) in
    record {
      read = here.message ∷ rest.read;
      decodes =
          rw here.value
            (rw (decode-encode_message here.message n here.seq (omega arith)) (rw rest.decodes));
      numbered = ((here.session, here.seq), rest.numbered);
      count = omega (arith, rest.count);
    }
