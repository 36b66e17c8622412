-- ===== src/Backend/Store/Effects.antt =====
-- What a successful method has done to the two buckets, and that a failed one has done nothing.
use take.Prelude.{
  ℕ, ◌≡◌, refl, ap, ◌∙◌, Option, none, some, List, [], ◌∷◌, map, length, arith, Text, Option-cases,
  ◌⊎◌, inl, inr, lookup, insert, remove, with_prefix, while_prefix-seek, remove_all,
}
use take.Json.{Json}
use take.Backend.Clock.{Time, now_rfc3339}
use take.Backend.Keys.{session_key, message_prefix, message_key}
use take.Backend.Records.{Session, Message, encode_session, encode_message, decode_session}
use take.Backend.Bolt.{Bolt, IsBolt, sessions, messages, same_bucket}
use take.Backend.Store.{
  Error, not_found, malformed, storage, Result, ok, err, ◌>>=◌, or_err, update, scan, next_message,
  new_session, create_tx, create_session, append_tx, append_message, delete_keys, delete_tx,
  delete_session,
}

pub >>=-eq-ok :
    {A B : Type 0} {b : B} (m : Result A) (f : A → Result B)
    → (m >>= f) ≡ ok b
    → (a : A) × (m ≡ ok a) × (f a ≡ ok b)
unfolding ◌>>=◌
>>=-eq-ok (ok a) f h = (a, refl, h)
>>=-eq-ok (err e) f h = cc

pub or_err-eq-ok : {A : Type 0} (e : Error) (o : Option A) {a : A} → or_err e o ≡ ok a → o ≡ some a
unfolding or_err
or_err-eq-ok e none h = cc
or_err-eq-ok e (some a) h = cc

Result-cases : {A : Type 0} (r : Result A) → ((a : A) × (r ≡ ok a)) ⊎ ((e : Error) × (r ≡ err e))
Result-cases (ok a) = inl (a, refl)
Result-cases (err e) = inr (e, refl)

-- One step of a do block that is a fallible call.
pub step-eq-ok :
    {A B : Type 0} (e : Error) (o : Option A) (f : A → Result B) {b : B}
    → (or_err e o >>= f) ≡ ok b
    → (a : A) × (o ≡ some a) × (f a ≡ ok b)
unfolding or_err ◌>>=◌
step-eq-ok e none f h = cc
step-eq-ok e (some a) f h = (a, refl, h)

module _ (bolt : Bolt) where
  open bolt use {Db, entries, put, delete, commit}

  pub update-eq-ok :
      {A : Type 0} (f : Db → Result (A × Db)) (db : Db) {a : A} {db' : Db}
      → update bolt f db ≡ (ok a, db')
      → (tx : Db) × (f db ≡ ok (a, tx)) × (commit tx ≡ some db')
  unfolding update
  update-eq-ok f db h = elim (Result-cases (f db)) [
    | inl ((a, tx), e) ↦ elim (Option-cases (commit tx)) [
      | inl failed ↦ absurd (ground arith)
      | inr (db₁, done) ↦ (tx, ground arith, ground arith)
    ]
    | inr (e, failed) ↦ absurd (ground arith)
  ]

  pub update_failed :
      {A : Type 0} (f : Db → Result (A × Db)) (db : Db) {e : Error}
      → (update bolt f db).0 ≡ err e
      → (update bolt f db).1 ≡ db
  unfolding update
  update_failed f db h = ground arith

  -- A method that returns an error leaves the database as it was.
  pub update-eq-err :
      {A : Type 0} (f : Db → Result (A × Db)) (db : Db) {e : Error} {db' : Db}
      → update bolt f db ≡ (err e, db')
      → db' ≡ db
  unfolding update
  update-eq-err f db h = ground arith

module _ (bolt : Bolt) (laws : IsBolt bolt) where
  open bolt use {Db, entries, put, delete, commit}
  open laws use {ordered, put-entries, delete-entries, commit-entries}

  -- The loops visit the messages whose key begins with the prefix.
  pub scan-eq : (db : Db) (p : Text) → scan bolt db p ≡ with_prefix p (entries db messages)
  unfolding scan
  scan-eq db p = while_prefix-seek p (entries db messages) (ordered db messages)

  -- What AppendMessage did: one message more, and the session's time.
  pub record Appended (clock : Time) (id role content : Text) (m : Message) (db db' : Db)
      : Type 0 where
    pub old : Session
    pub doc : Json
    pub found : lookup (session_key id) (entries db sessions) ≡ some doc
    pub decoded : decode_session doc ≡ some old
    pub sent : m ≡ next_message bolt clock id role content db
    pub new_messages :
        entries db' messages
        ≡ insert
            (message_key id (length (scan bolt db (message_prefix id))))
            (encode_message m)
            (entries db messages)
    pub new_sessions :
        entries db' sessions
        ≡ insert
            (session_key id)
            (encode_session (record old { updated = now_rfc3339 clock }))
            (entries db sessions)

  module _ (clock : Time) (id role content : Text) (m : Message) (db db' : Db) where
    appended :
        (doc : Json) (old : Session) (tx₁ tx₂ tx : Db)
        → lookup (session_key id) (entries db sessions) ≡ some doc
        → decode_session doc ≡ some old
        → put messages
            (message_key id (length (scan bolt db (message_prefix id))))
            (encode_message (next_message bolt clock id role content db))
            db
          ≡ some tx₁
        → put sessions
            (session_key id)
            (encode_session (record old { updated = now_rfc3339 clock }))
            tx₁
          ≡ some tx₂
        → ◌≡◌ {A = Result (Message × Db)}
            (ok (next_message bolt clock id role content db, tx₂))
            (ok (m, tx))
        → commit tx ≡ some db'
        → Appended clock id role content m db db'
    unfolding same_bucket
    appended doc old tx₁ tx₂ tx found decoded wrote updated same committed = record {
      old = old;
      doc = doc;
      found = found;
      decoded = decoded;
      sent = cc;
      new_messages = cc (
        commit-entries tx db' messages committed,
        put-entries sessions _ _ tx₁ tx₂ messages updated,
        put-entries messages _ _ db tx₁ messages wrote,
      );
      new_sessions = cc (
        commit-entries tx db' sessions committed,
        put-entries sessions _ _ tx₁ tx₂ sessions updated,
        put-entries messages _ _ db tx₁ sessions wrote,
      );
    }

    pub append_message-Appended :
        append_message bolt clock id role content db ≡ (ok m, db')
        → Appended clock id role content m db db'
    unfolding append_message
    append_message-Appended h =
        let (tx, ran, committed) = update-eq-ok bolt (append_tx bolt clock id role content) db h in
        let (doc, found, ran₁) = step-eq-ok not_found _ _ ran in
        let (old, decoded, ran₂) = step-eq-ok malformed _ _ ran₁ in
        let (tx₁, wrote, ran₃) = step-eq-ok storage _ _ ran₂ in
        let (tx₂, updated, ran₄) = step-eq-ok storage _ _ ran₃ in
        appended doc old tx₁ tx₂ tx found decoded wrote updated ran₄ committed

  -- What CreateSession did.
  pub record Created (now : Time) (random : Option (List ℕ)) (later : Time) (title : Text)
      (s : Session) (db db' : Db) : Type 0 where
    pub made : s ≡ new_session now random later title
    pub new_sessions :
        entries db' sessions ≡ insert (session_key s.id) (encode_session s) (entries db sessions)
    pub same_messages : entries db' messages ≡ entries db messages

  pub create_session-Created :
      (now : Time) (random : Option (List ℕ)) (later : Time) (title : Text) (s : Session)
      (db db' : Db)
      → create_session bolt now random later title db ≡ (ok s, db')
      → Created now random later title s db db'
  unfolding create_session same_bucket
  create_session-Created now random later title s db db' h =
      let made = new_session now random later title in
      let (tx, ran, committed) = update-eq-ok bolt (create_tx bolt made) db h in
      let (tx₁, wrote, ran₁) = step-eq-ok storage _ _ ran in
      record {
        made = cc;
        new_sessions = cc (
          commit-entries tx db' sessions committed,
          put-entries sessions (session_key made.id) (encode_session made) db tx₁ sessions wrote,
        );
        same_messages = cc (
          commit-entries tx db' messages committed,
          put-entries sessions (session_key made.id) (encode_session made) db tx₁ messages wrote,
        );
      }

  -- What DeleteSession did: the session and the messages that its loop collected are gone.
  pub record Deleted (id : Text) (db db' : Db) : Type 0 where
    pub doc : Json
    pub found : lookup (session_key id) (entries db sessions) ≡ some doc
    pub new_sessions : entries db' sessions ≡ remove (session_key id) (entries db sessions)
    pub new_messages :
        entries db' messages
        ≡ remove_all
            (map (λ e. e.0) (with_prefix (message_prefix id) (entries db messages)))
            (entries db messages)

  delete_keys-entries :
      (ks : List Text) (tx tx' : Db)
      → delete_keys bolt ks tx ≡ ok tx'
      → (entries tx' messages ≡ remove_all ks (entries tx messages))
        × (entries tx' sessions ≡ entries tx sessions)
  unfolding delete_keys remove_all same_bucket
  delete_keys-entries [] tx tx' h = (cc, cc)
  delete_keys-entries (k ∷ ks) tx tx' h =
      let (tx₁, gone, rest) = step-eq-ok storage _ _ h in
      let (ms, ss) = delete_keys-entries ks tx₁ tx' rest in
      (
        ms ∙ ap (remove_all ks) (delete-entries messages k tx tx₁ messages gone),
        ss ∙ delete-entries messages k tx tx₁ sessions gone,
      )

  collected :
      (id : Text) (db tx₁ : Db)
      → delete sessions (session_key id) db ≡ some tx₁
      → scan bolt tx₁ (message_prefix id) ≡ with_prefix (message_prefix id) (entries db messages)
  unfolding same_bucket
  collected id db tx₁ gone =
      scan-eq tx₁ (message_prefix id)
      ∙ ap (with_prefix (message_prefix id))
          (delete-entries sessions (session_key id) db tx₁ messages gone)

  deleted :
      (id : Text) (db db' : Db) (doc : Json) (tx₁ tx₂ tx : Db)
      → lookup (session_key id) (entries db sessions) ≡ some doc
      → delete sessions (session_key id) db ≡ some tx₁
      → delete_keys bolt (map (λ e. e.0) (scan bolt tx₁ (message_prefix id))) tx₁ ≡ ok tx₂
      → ◌≡◌ {A = Result (Unit {0} × Db)} (ok (tt, tx₂)) (ok (tt, tx))
      → commit tx ≡ some db'
      → Deleted id db db'
  unfolding same_bucket
  deleted id db db' doc tx₁ tx₂ tx found gone cleared same committed =
      let (ms, ss) = delete_keys-entries _ tx₁ tx₂ cleared in
      record {
        doc = doc;
        found = found;
        new_sessions = cc (
          commit-entries tx db' sessions committed,
          ss,
          delete-entries sessions (session_key id) db tx₁ sessions gone,
        );
        new_messages = cc (
          commit-entries tx db' messages committed,
          ms,
          collected id db tx₁ gone,
          delete-entries sessions (session_key id) db tx₁ messages gone,
        );
      }

  pub delete_session-Deleted :
      (id : Text) (db db' : Db) → delete_session bolt id db ≡ (ok tt, db') → Deleted id db db'
  unfolding delete_session
  delete_session-Deleted id db db' h =
      let (tx, ran, committed) = update-eq-ok bolt (delete_tx bolt id) db h in
      let (doc, found, ran₁) = step-eq-ok not_found _ _ ran in
      let (tx₁, gone, ran₂) = step-eq-ok storage _ _ ran₁ in
      let (tx₂, cleared, ran₃) = >>=-eq-ok _ _ ran₂ in
      deleted id db db' doc tx₁ tx₂ tx found gone cleared ran₃ committed
