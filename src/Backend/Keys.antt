-- ===== src/Backend/Keys.antt =====
-- The bucket keys of agent/backend/store.go.
pub mod Order
pub mod Ids
use take.Prelude.{ℕ, ◌++◌, Text, codes, padded}

unfoldable pub session_key : Text → Text
session_key id = codes "session:" ++ id

unfoldable pub message_prefix : Text → Text
message_prefix id = codes "msg:" ++ (id ++ codes ":")

unfoldable pub message_key : Text → ℕ → Text
unfolding padded
message_key id seq = codes "msg:" ++ (id ++ (codes ":" ++ padded 10 seq))
