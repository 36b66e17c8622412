-- ===== src/Backend/Store/Sound.antt =====
-- Every method keeps the invariant, so a store that the methods alone have written is sound.
use take.Prelude.{
  ℕ, ◌^◌, ◌<◌, ◌≡◌, refl, sym, ap, ◌∙◌, false, Option, none, List, length, arith, Text, text_eq,
  text_eq_iff, if◌then◌else◌, Bool-cases, inl, inr, lookup, insert, lookup-insert, All-insert,
  All-remove, Entries,
}
use take.Json.{Json}
use take.Backend.Clock.{Time, now_rfc3339}
use take.Backend.Keys.{session_key, message_prefix}
use take.Backend.Keys.Order.{session_key-eq}
use take.Backend.Keys.Ids.{new_id-IsPlain}
use take.Backend.Records.{Session, Message, encode_session}
use take.Backend.Codec.{decode-encode_session}
use take.Backend.Bolt.{Bolt, IsBolt, sessions}
use take.Backend.Store.{ok, scan, new_session, create_session}
use take.Backend.Store.Effects.{Appended, Deleted, create_session-Created}
use take.Backend.Store.Invariant.{IsSound, IsSessionEntry, lookup-IsStored}
use take.Backend.Store.Append.{scan_other, IsLog-longer}
use take.Backend.Store.Delete.{scan_gone, scan_kept, lookup-gone}

module _ (bolt : Bolt) (laws : IsBolt bolt) where
  open bolt use {Db, entries}

  -- A session that is missing after a write was missing before, and is not the one written.
  missing_before :
      (id a : Text) (v : Json) (l : Entries Json)
      → lookup (session_key a) (insert (session_key id) v l) ≡ none
      → (text_eq id a ≡ false) × (lookup (session_key a) l ≡ none)
  missing_before id a v l h = let h' = rw (lookup-insert, session_key-eq) at h in ground arith

  created_entry :
      (now : Time) (random : Option (List ℕ)) (later : Time) (title : Text)
      → IsSessionEntry (
        session_key (new_session now random later title).id,
        encode_session (new_session now random later title),
      )
  unfolding new_session
  created_entry now random later title = record {
    session = new_session now random later title;
    key = refl;
    value = refl;
    plain = new_id-IsPlain random later;
  }

  pub create_session-IsSound :
      (now : Time) (random : Option (List ℕ)) (later : Time) (title : Text) (s : Session)
      (db db' : Db)
      → IsSound bolt db
      → create_session bolt now random later title db ≡ (ok s, db')
      → IsSound bolt db'
  create_session-IsSound now random later title s db db' sound h =
      let done = create_session-Created bolt laws now random later title s db db' h in
      let wrote = rw done.made at done.new_sessions in
      record {
        listed = rw done.new_sessions (
            All-insert IsSessionEntry _ _ _ (rw done.made (created_entry now random later title))
              sound.listed);
        logs = λ a p. rw done.same_messages (sound.logs a p);
        no_orphans = λ a p missing.
            rw done.same_messages (
              sound.no_orphans a p (missing_before s.id a _ _ (rw done.new_sessions at missing)).1);
      }

  module _ (clock : Time) (id role content : Text) (m : Message) (db db' : Db)
      (sound : IsSound bolt db) (done : Appended bolt laws clock id role content m db db') where
    updated_entry :
        IsSessionEntry
          (session_key id, encode_session (record done.old { updated = now_rfc3339 clock }))
    updated_entry =
        let stored = lookup-IsStored id done.doc (entries db sessions) sound.listed done.found in
        let read : done.old ≡ stored.session =
          cc (stored.value, done.decoded, decode-encode_session stored.session) in
        let same = ap (λ (s : Session). s.id) read ∙ stored.same_id in
        record {
          session = record done.old { updated = now_rfc3339 clock };
          key = ap session_key (sym same);
          value = refl;
          plain = rw same stored.plain;
        }

    pub appended-IsSound : length (scan bolt db (message_prefix id)) < 10 ^ 10 → IsSound bolt db'
    appended-IsSound short = record {
      listed = rw done.new_sessions (All-insert IsSessionEntry _ _ _ updated_entry sound.listed);
      logs = λ a p. elim (Bool-cases (text_eq id a)) [
        | inl same ↦
            rw (← (text_eq_iff id a).0 same)
              (IsLog-longer bolt laws clock id role content m db db' sound done short)
        | inr ne ↦
            rw (scan_other bolt laws clock id role content m db db' sound done a p ne)
              (sound.logs a p)
      ];
      no_orphans = λ a p missing.
          let (ne, before) = missing_before id a _ _ (rw done.new_sessions at missing) in
          scan_other bolt laws clock id role content m db db' sound done a p ne
          ∙ sound.no_orphans a p before;
    }

  pub deleted-IsSound :
      (id : Text) (db db' : Db) → IsSound bolt db → Deleted bolt laws id db db' → IsSound bolt db'
  deleted-IsSound id db db' sound done =
      let stored = lookup-IsStored id done.doc (entries db sessions) sound.listed done.found in
      record {
        listed = rw done.new_sessions (All-remove IsSessionEntry _ _ sound.listed);
        logs = λ a p. elim (Bool-cases (text_eq id a)) [
          | inl same ↦ rw (← (text_eq_iff id a).0 same) (rw (scan_gone bolt laws id db db' done) tt)
          | inr ne ↦ rw (scan_kept bolt laws id db db' done a stored.plain p ne) (sound.logs a p)
        ];
        no_orphans = λ a p missing. elim (Bool-cases (text_eq id a)) [
          | inl same ↦ rw (← (text_eq_iff id a).0 same) (scan_gone bolt laws id db db' done)
          | inr ne ↦ rw (scan_kept bolt laws id db db' done a stored.plain p ne) (
              sound.no_orphans a p (
                sym (
                  lookup-gone bolt laws id db db' done a
                  ∙ ap (λ b. if b then none else lookup (session_key a) (entries db sessions)) ne)
                ∙ missing))
        ];
      }
