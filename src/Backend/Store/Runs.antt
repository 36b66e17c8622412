-- ===== src/Backend/Store/Runs.antt =====
-- Sequences of calls of the writing methods, from an empty database.
use take.Prelude.{
  ℕ, suc, ◌+◌, ◌^◌, ◌≤◌, ◌<◌, ◌≡◌, refl, ap, Option, List, [], ◌∷◌, length, arith, Text, text_eq,
  text_eq_iff, Bool-cases, ◌⊎◌, inl, inr, with_prefix, length-append, keep,
}
use take.Backend.Clock.{Time}
use take.Backend.Keys.{message_prefix}
use take.Backend.Keys.Order.{IsPlain}
use take.Backend.Records.{Message}
use take.Backend.Bolt.{Bolt, IsBolt, Bucket, sessions, messages}
use take.Backend.Store.{
  Error, Result, ok, err, scan, list_messages, create_session, append_message, delete_session,
  new_session, create_tx, append_tx, delete_tx,
}
use take.Backend.Store.Effects.{
  update_failed, create_session-Created, append_message-Appended, delete_session-Deleted, scan-eq,
}
use take.Backend.Store.Invariant.{IsSound, IsNumbered, lookup-IsStored}
use take.Backend.Store.Append.{scan_longer, scan_other, id-IsPlain}
use take.Backend.Store.Delete.{scan_gone, scan_kept}
use take.Backend.Store.Sound.{create_session-IsSound, appended-IsSound, deleted-IsSound}
use take.Backend.Store.History.{list_messages-IsNumbered}

-- A call of a method that writes, with the clock and the random bytes that it reads.
pub data Call : Type 0 where
  create : Time → Option (List ℕ) → Time → Text → Call
  append : Time → Text → Text → Text → Call
  delete : Text → Call

module _ (bolt : Bolt) where
  open bolt use {Db, entries}

  -- The database after the call, whether it succeeded or not.
  unfoldable pub perform : Call → Db → Db
  perform (create now random later title) db = (create_session bolt now random later title db).1
  perform (append clock id role content) db = (append_message bolt clock id role content db).1
  perform (delete id) db = (delete_session bolt id db).1

  unfoldable pub run : List Call → Db → Db
  unfolding perform
  run [] db = db
  run (c ∷ cs) db = run cs (perform c db)

  pub record IsWithin (n : ℕ) (db : Db) : Type 0 where
    pub sound : IsSound bolt db
    pub sizes :
        (id : Text)
        → IsPlain id
        → length (with_prefix (message_prefix id) (entries db messages)) ≤ n

  outcome :
      {A : Type 0} (p : Result A × Db)
      → ((a : A) × (p ≡ (ok a, p.1))) ⊎ ((e : Error) × (p ≡ (err e, p.1)))
  outcome (ok a, db) = inl (a, refl)
  outcome (err e, db) = inr (e, refl)

  -- CreateSession, AppendMessage and DeleteSession leave the database as it was when they fail.
  pub failed_call :
      (now later clock : Time) (random : Option (List ℕ)) (title id role content : Text) (e : Error)
      (db : Db)
      → ((create_session bolt now random later title db).0 ≡ err e
          → (create_session bolt now random later title db).1 ≡ db)
        × ((append_message bolt clock id role content db).0 ≡ err e
            → (append_message bolt clock id role content db).1 ≡ db)
        × ((delete_session bolt id db).0 ≡ err e → (delete_session bolt id db).1 ≡ db)
  unfolding create_session append_message delete_session
  failed_call now later clock random title id role content e db = (
    update_failed bolt (create_tx bolt (new_session now random later title)) db,
    update_failed bolt (append_tx bolt clock id role content) db,
    update_failed bolt (delete_tx bolt id) db,
  )

module _ (bolt : Bolt) (laws : IsBolt bolt) where
  open bolt use {Db, entries}

  weaken : (n : ℕ) (db db' : Db) → db' ≡ db → IsWithin bolt n db → IsWithin bolt (suc n) db'
  weaken n db db' e w =
      rw e (record { sound = w.sound; sizes = λ id p. let k = w.sizes id p in omega arith })

  after_append :
      (clock : Time) (id role content : Text) (m : Message) (n : ℕ) (db db' : Db)
      → n < 10 ^ 10
      → IsWithin bolt n db
      → append_message bolt clock id role content db ≡ (ok m, db')
      → IsWithin bolt (suc n) db'
  after_append clock id role content m n db db' small w h =
      let done = append_message-Appended bolt laws clock id role content m db db' h in
      let plain = id-IsPlain bolt laws clock id role content m db db' w.sound done in
      let all = scan-eq bolt laws db (message_prefix id) in
      let size = w.sizes id plain in
      let short : length (scan bolt db (message_prefix id)) < 10 ^ 10 =
        omega (arith, ap length all) in
      record {
        sound = appended-IsSound bolt laws clock id role content m db db' w.sound done short;
        sizes = λ a p. elim (Bool-cases (text_eq id a)) [
          | inl same ↦ rw (← (text_eq_iff id a).0 same) (
              rw (scan_longer bolt laws clock id role content m db db' w.sound done short)
                (omega (arith, length-append {0})))
          | inr ne ↦
              let k = w.sizes a p in
              rw (scan_other bolt laws clock id role content m db db' w.sound done a p ne)
                (omega arith)
        ];
      }

  after_delete :
      (id : Text) (n : ℕ) (db db' : Db)
      → IsWithin bolt n db
      → delete_session bolt id db ≡ (ok tt, db')
      → IsWithin bolt (suc n) db'
  after_delete id n db db' w h =
      let done = delete_session-Deleted bolt laws id db db' h in
      let stored = lookup-IsStored id done.doc (entries db sessions) w.sound.listed done.found in
      record {
        sound = deleted-IsSound bolt laws id db db' w.sound done;
        sizes = λ a p. elim (Bool-cases (text_eq id a)) [
          | inl same ↦
              rw (← (text_eq_iff id a).0 same)
                (rw (scan_gone bolt laws id db db' done) (omega arith))
          | inr ne ↦
              let k = w.sizes a p in
              rw (scan_kept bolt laws id db db' done a stored.plain p ne) (omega arith)
        ];
      }

  perform-IsWithin :
      (n : ℕ) (c : Call) (db : Db)
      → n < 10 ^ 10
      → IsWithin bolt n db
      → IsWithin bolt (suc n) (perform bolt c db)
  unfolding perform create_session append_message delete_session
  perform-IsWithin n (create now random later title) db small w =
      elim (outcome bolt (create_session bolt now random later title db)) [
        | inr (e, failed) ↦
            weaken n db _
              (update_failed bolt (create_tx bolt (new_session now random later title)) db
                (ap (λ p. p.0) failed))
              w
        | inl (s, h) ↦
            let done = create_session-Created bolt laws now random later title s db _ h in
            record {
              sound = create_session-IsSound bolt laws now random later title s db _ w.sound h;
              sizes = λ id p. let k = w.sizes id p in rw done.same_messages (omega arith);
            }
      ]
  perform-IsWithin n (append clock id role content) db small w =
      elim (outcome bolt (append_message bolt clock id role content db)) [
        | inr (e, failed) ↦
            weaken n db _
              (update_failed bolt (append_tx bolt clock id role content) db (ap (λ p. p.0) failed))
              w
        | inl (m, h) ↦ after_append clock id role content m n db _ small w h
      ]
  perform-IsWithin n (delete id) db small w = elim (outcome bolt (delete_session bolt id db)) [
    | inr (e, failed) ↦
        weaken n db _ (update_failed bolt (delete_tx bolt id) db (ap (λ p. p.0) failed)) w
    | inl (u, h) ↦ after_delete id n db _ w h
  ]

  run-IsWithin :
      (cs : List Call) (n : ℕ) (db : Db)
      → n + length cs ≤ 10 ^ 10
      → IsWithin bolt n db
      → IsWithin bolt (n + length cs) (run bolt cs db)
  unfolding run
  run-IsWithin [] n db h w = let z : n + 0 ≡ n = omega arith in rw z w
  run-IsWithin (c ∷ cs) n db h w =
      let z : n + suc (length cs) ≡ suc n + length cs = omega arith in
      rw z (
        run-IsWithin cs (suc n) (perform bolt c db) (omega arith)
          (perform-IsWithin n c db (omega arith) w))

  empty-IsWithin : (db : Db) → ((b : Bucket) → entries db b ≡ []) → IsWithin bolt 0 db
  unfolding keep
  empty-IsWithin db none' = record {
    sound = record {
      listed = rw none' tt;
      logs = λ id p. rw none' tt;
      no_orphans = λ id p h. rw none' refl;
    };
    sizes = λ id p. rw none' (omega arith);
  }

  -- From an empty database, at most 10^10 calls, failing ones included, keep the store sound.
  pub run-IsSound :
      (cs : List Call) (db : Db)
      → ((b : Bucket) → entries db b ≡ [])
      → length cs ≤ 10 ^ 10
      → IsSound bolt (run bolt cs db)
  run-IsSound cs db none' short =
      (run-IsWithin cs 0 db (omega arith) (empty-IsWithin db none')).sound

  -- From an empty database, after at most 10^10 calls of CreateSession, AppendMessage and
  -- DeleteSession, failing ones included, ListMessages of an id without a colon succeeds with
  -- messages numbered 0, 1, 2 and on.
  pub run-IsNumbered :
      (cs : List Call) (db : Db) (id : Text)
      → ((b : Bucket) → entries db b ≡ [])
      → length cs ≤ 10 ^ 10
      → IsPlain id
      → (ms : List Message) × (list_messages bolt id (run bolt cs db) ≡ ok ms) × IsNumbered id 0 ms
  run-IsNumbered cs db id none' short p =
      let w = run-IsWithin cs 0 db (omega arith) (empty-IsWithin db none') in
      let size = w.sizes id p in
      list_messages-IsNumbered bolt laws id (run bolt cs db) w.sound p
        (omega (arith, ap length (scan-eq bolt laws (run bolt cs db) (message_prefix id))))
