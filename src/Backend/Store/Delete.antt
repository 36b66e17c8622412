-- ===== src/Backend/Store/Delete.antt =====
-- DeleteSession: what is gone and what stays, and when a method says that there is no such session.
use take.Prelude.{
  ◌≡◌, ◌≢◌, ◌↔◌, ap, ◌∙◌, false, none, List, [], ◌∷◌, arith, Text, text_eq, text_eq_sym,
  text_eq_refl, has_prefix, if◌then◌else◌, Option-cases, inl, inr, lookup, lookup-remove,
  with_prefix, keep, not, keep-not-keep, keep-keep-not, remove_all-keep, map,
}
use take.Backend.Clock.{Time}
use take.Backend.Keys.{session_key, message_prefix}
use take.Backend.Keys.Order.{IsPlain, session_key-eq, message_prefix_unique}
use take.Backend.Bolt.{Bolt, IsBolt, sessions, messages}
use take.Backend.Store.{
  ok, err, not_found, ◌>>=◌, or_err, decode_all, scan, list_messages, get_session, append_message,
  delete_keys, delete_session,
}
use take.Backend.Store.Effects.{Deleted, delete_session-Deleted}
use take.Backend.Store.Invariant.{IsSound, lookup-IsStored}
use take.Backend.Store.Reads.{list_messages-eq, same_messages, same_session, get_session-missing}

module _ (bolt : Bolt) (laws : IsBolt bolt) where
  open bolt use {Db, entries}

  module _ (id : Text) (db db' : Db) (done : Deleted bolt laws id db db') where
    -- What is left of the messages are those that the loop did not visit.
    left_over :
        entries db' messages
        ≡ keep (λ e. not (has_prefix (message_prefix id) e.0)) (entries db messages)
    left_over =
        done.new_messages
        ∙ remove_all-keep (λ e. has_prefix (message_prefix id) e.0) (entries db messages)
            (laws.ordered db messages)

    pub scan_gone : with_prefix (message_prefix id) (entries db' messages) ≡ []
    scan_gone =
        ap (with_prefix (message_prefix id)) left_over ∙ keep-not-keep _ (entries db messages)

    pub scan_kept :
        (a : Text)
        → IsPlain id
        → IsPlain a
        → text_eq id a ≡ false
        → with_prefix (message_prefix a) (entries db' messages)
          ≡ with_prefix (message_prefix a) (entries db messages)
    scan_kept a p q ne =
        ap (with_prefix (message_prefix a)) left_over
        ∙ keep-keep-not (λ e. has_prefix (message_prefix id) e.0)
            (λ e. has_prefix (message_prefix a) e.0) (entries db messages)
            (λ e h. message_prefix_unique a id e.0 q p (text_eq_sym id a ∙ ne) h)

    pub lookup-gone :
        (a : Text)
        → lookup (session_key a) (entries db' sessions)
          ≡ (if text_eq id a then none else lookup (session_key a) (entries db sessions))
    lookup-gone a = rw done.new_sessions (
        rw
          (lookup-remove (session_key id) (session_key a) (entries db sessions)
            (laws.ordered db sessions))
          (rw (session_key-eq id a)))

  -- After a successful DeleteSession, GetSession reports not found and ListMessages is empty for
  -- that id.
  pub delete_session-gone :
      (id : Text) (db db' : Db)
      → delete_session bolt id db ≡ (ok tt, db')
      → (get_session bolt id db' ≡ err not_found) × (list_messages bolt id db' ≡ ok [])
  unfolding decode_all
  delete_session-gone id db db' h =
      let done = delete_session-Deleted bolt laws id db db' h in
      (
        get_session-missing bolt id db' (
            lookup-gone id db db' done id
            ∙ ap (λ b. if b then none else lookup (session_key id) (entries db sessions))
                (text_eq_refl id)),
        list_messages-eq bolt laws id db' ∙ ap (decode_all _) (scan_gone id db db' done),
      )

  -- In a sound store, a successful DeleteSession leaves the record and the messages of every
  -- other id without a colon as they were.
  pub delete_session-ne :
      (id a : Text) (db db' : Db)
      → IsSound bolt db
      → IsPlain a
      → text_eq id a ≡ false
      → delete_session bolt id db ≡ (ok tt, db')
      → (get_session bolt a db' ≡ get_session bolt a db)
        × (list_messages bolt a db' ≡ list_messages bolt a db)
  delete_session-ne id a db db' sound q ne h =
      let done = delete_session-Deleted bolt laws id db db' h in
      let stored = lookup-IsStored id done.doc (entries db sessions) sound.listed done.found in
      (
        same_session bolt a db db' (
            lookup-gone id db db' done a
            ∙ ap (λ b. if b then none else lookup (session_key a) (entries db sessions)) ne),
        same_messages bolt laws a db db' (scan_kept id db db' done a stored.plain q ne),
      )

module _ (bolt : Bolt) where
  open bolt use {Db, entries}

  delete_keys-ne-not_found : (ks : List Text) (tx : Db) → delete_keys bolt ks tx ≢ err not_found
  unfolding delete_keys or_err ◌>>=◌
  delete_keys-ne-not_found [] tx = cc
  delete_keys-ne-not_found (k ∷ ks) tx = elim (Option-cases (bolt.delete messages k tx)) [
    | inl failed ↦ rw failed (cc)
    | inr (tx', done) ↦ rw done (delete_keys-ne-not_found ks tx')
  ]

  module _ (id : Text) (db : Db) where
    get_not_found :
        (get_session bolt id db ≡ err not_found)
        ↔ (lookup (session_key id) (entries db sessions) ≡ none)
    unfolding get_session or_err ◌>>=◌
    get_not_found = (ground arith, ground arith)

    append_not_found :
        (clock : Time) (role content : Text)
        → ((append_message bolt clock id role content db).0 ≡ err not_found)
          ↔ (lookup (session_key id) (entries db sessions) ≡ none)
    unfolding append_message or_err ◌>>=◌
    append_not_found clock role content = (ground arith, ground arith)

    delete_not_found :
        ((delete_session bolt id db).0 ≡ err not_found)
        ↔ (lookup (session_key id) (entries db sessions) ≡ none)
    unfolding delete_session or_err ◌>>=◌
    delete_not_found = elim (Option-cases (bolt.delete sessions (session_key id) db)) [
      | inl failed ↦ (ground arith, ground arith)
      | inr (tx, done) ↦
          let passes =
            delete_keys-ne-not_found (map (λ e. e.0) (scan bolt tx (message_prefix id))) tx in
          (ground arith, ground arith)
    ]

  -- GetSession, AppendMessage and DeleteSession return ErrNotFound exactly when the sessions
  -- bucket has nothing under the id's key.
  pub not_found_iff :
      (id : Text) (db : Db) (clock : Time) (role content : Text)
      → ((get_session bolt id db ≡ err not_found)
          ↔ (lookup (session_key id) (entries db sessions) ≡ none))
        × (((append_message bolt clock id role content db).0 ≡ err not_found)
            ↔ (lookup (session_key id) (entries db sessions) ≡ none))
        × (((delete_session bolt id db).0 ≡ err not_found)
            ↔ (lookup (session_key id) (entries db sessions) ≡ none))
  not_found_iff id db clock role content =
      (get_not_found id db, append_not_found id db clock role content, delete_not_found id db)
