-- ===== src/Backend/Opening.antt =====
-- openStore of agent/backend/store.go, by the errors of bolt.Open at a path and of the transaction
-- that creates the buckets; the file is closed again where that fails.
use take.Prelude.{Option, none, some, Text, codes, ◌++◌}
use take.Backend.Bolt.{Bucket, sessions, messages}

-- The buckets of the transaction, in their order, up to the first that cannot be created.
unfoldable pub create_buckets : (Bucket → Option Text) → Option Text
create_buckets create = elim (create sessions) [ some e ↦ some e | none ↦ create messages ]

-- `none` is a store that is open.
unfoldable pub open_store : (Text → Option Text) → (Bucket → Option Text) → Text → Option Text
unfolding create_buckets
open_store open' create path = elim (open' path) [
  | some e ↦ some (codes "open bbolt file " ++ path ++ codes ": " ++ e)
  | none ↦ elim (create_buckets create) [
    | some e ↦ some (codes "create buckets: " ++ e)
    | none ↦ none
  ]
]
