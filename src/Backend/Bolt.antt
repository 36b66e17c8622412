-- ===== src/Backend/Bolt.antt =====
-- The interface of go.etcd.io/bbolt, a parameter of the store: the contents of the two buckets as a
-- cursor walks them, the writes of a transaction, and the commit. The laws are what bbolt documents:
-- keys are iterated in byte order, a write changes one key of one bucket, a commit keeps the data.
use take.Prelude.{
  ◌≡◌, Bool, true, false, Option, some, Text, if◌then◌else◌, Entries, insert, remove, IsOrdered,
}
use take.Json.{Json}

pub data Bucket : Type 0 where
  sessions messages : Bucket

unfoldable pub same_bucket : Bucket → Bucket → Bool
same_bucket sessions sessions = true
same_bucket messages messages = true
same_bucket _ _ = false

-- A `none` is an error that the operation returns.
pub record Bolt : Type 1 where
  pub Db : Type 0
  pub entries : Db → Bucket → Entries Json
  pub put : Bucket → Text → Json → Db → Option Db
  pub delete : Bucket → Text → Db → Option Db
  pub commit : Db → Option Db

pub record IsBolt (bolt : Bolt) : Type 0 where
  pub ordered : (db : bolt.Db) (b : Bucket) → IsOrdered (bolt.entries db b)
  pub put-entries :
      (b : Bucket) (k : Text) (v : Json) (db db' : bolt.Db) (c : Bucket)
      → bolt.put b k v db ≡ some db'
      → bolt.entries db' c
        ≡ (if same_bucket b c then insert k v (bolt.entries db c) else bolt.entries db c)
  pub delete-entries :
      (b : Bucket) (k : Text) (db db' : bolt.Db) (c : Bucket)
      → bolt.delete b k db ≡ some db'
      → bolt.entries db' c
        ≡ (if same_bucket b c then remove k (bolt.entries db c) else bolt.entries db c)
  pub commit-entries :
      (db db' : bolt.Db) (c : Bucket)
      → bolt.commit db ≡ some db'
      → bolt.entries db' c ≡ bolt.entries db c
