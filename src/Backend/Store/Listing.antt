-- ===== src/Backend/Store/Listing.antt =====
-- ListSessions.
use mathlib.Core.List.{Perm}
use take.Prelude.{
  ◌≡◌, refl, List, [], ◌∷◌, text_lt, text_lt_asym, text_lt_cotrans, All, sort_slice, IsSortedBy,
  sort_slice-perm, sort_slice-IsSortedBy, Entries, Pairwise, Text,
}
use take.Json.{Json}
use take.Backend.Keys.{session_key}
use take.Backend.Records.{Session, encode_session, decode_session}
use take.Backend.Codec.{decode-encode_session}
use take.Backend.Bolt.{Bolt, sessions}
use take.Backend.Store.{ok, ◌>>=◌, or_err, decode_all, list_sessions}
use take.Backend.Store.Invariant.{IsSound, IsSessionEntry}

-- An entry of the bucket holds a session under its key.
pub record Holds (e : Text × Json) (s : Session) : Type 0 where
  pub key : e.0 ≡ session_key s.id
  pub value : e.1 ≡ encode_session s

module _ (bolt : Bolt) where
  open bolt use {Db, entries}

  decodes :
      (es : Entries Json)
      → All IsSessionEntry es
      → (all : List Session) × (decode_all decode_session es ≡ ok all) × Pairwise Holds es all
  unfolding decode_all or_err ◌>>=◌
  decodes [] h = ([], refl, tt)
  decodes ((k, v) ∷ es) (e, h) =
      let (rest, more, hold) = decodes es h in
      (
        e.session ∷ rest,
        rw e.value (rw decode-encode_session (rw more)),
        (record { key = e.key; value = e.value }, hold),
      )

  -- In a sound store ListSessions succeeds with a permutation of the sessions that the entries of
  -- the bucket hold, one for each entry, sorted by the text of the time of update, the greatest
  -- first.
  pub list_sessions-sorted :
      (db : Db)
      → IsSound bolt db
      → (all : List Session) × (ss : List Session) × Pairwise Holds (entries db sessions) all
        × (list_sessions bolt db ≡ ok ss)
        × Perm ss all
        × IsSortedBy (λ s t. text_lt t.updated s.updated) ss
  unfolding list_sessions ◌>>=◌
  list_sessions-sorted db sound =
      let (all, read, hold) = decodes (entries db sessions) sound.listed in
      (
        all,
        sort_slice (λ s t. text_lt t.updated s.updated) all,
        hold,
        rw read,
        sort_slice-perm _ all,
        sort_slice-IsSortedBy _ (λ s t h. text_lt_asym t.updated s.updated h)
            (λ s t u h k. text_lt_cotrans s.updated t.updated u.updated h k) all,
      )
