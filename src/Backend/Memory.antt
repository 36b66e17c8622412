-- ===== src/Backend/Memory.antt =====
-- A database of two sorted lists: bbolt's interface can be met.
use take.Prelude.{
  sym, ap, Bool, true, false, some, [], Text, if◌then◌else◌, Entries, insert, remove, IsOrdered,
  insert-IsOrdered, remove-IsOrdered,
}
use mathlib.Core.Option.{some-injective}
use take.Json.{Json}
use take.Backend.Bolt.{Bolt, IsBolt, Bucket, same_bucket}

pub record Memory : Type 0 where
  pub held : Bucket → Entries Json
  pub sorted : (b : Bucket) → IsOrdered (held b)

pub sorted_if :
    (b : Bool) (l m : Entries Json) → IsOrdered l → IsOrdered m → IsOrdered (if b then l else m)
sorted_if true l m p q = p
sorted_if false l m p q = q

abbrev pub memory_put : Bucket → Text → Json → Memory → Memory
memory_put b k v d = record {
  held = λ c. if same_bucket b c then insert k v (d.held c) else d.held c;
  sorted = λ c.
      sorted_if (same_bucket b c) _ _ (insert-IsOrdered k v (d.held c) (d.sorted c)) (d.sorted c);
}

abbrev pub memory_delete : Bucket → Text → Memory → Memory
memory_delete b k d = record {
  held = λ c. if same_bucket b c then remove k (d.held c) else d.held c;
  sorted = λ c.
      sorted_if (same_bucket b c) _ _ (remove-IsOrdered k (d.held c) (d.sorted c)) (d.sorted c);
}

abbrev pub memory : Bolt
memory = record {
  Db = Memory;
  entries = λ d b. d.held b;
  put = λ b k v d. some (memory_put b k v d);
  delete = λ b k d. some (memory_delete b k d);
  commit = λ d. some d;
}

abbrev pub empty_memory : Memory
empty_memory = record { held = λ b. []; sorted = λ b. tt }

pub memory-IsBolt : IsBolt memory
memory-IsBolt = record {
  ordered = λ d b. d.sorted b;
  put-entries = λ b k v d d' c e. ap (λ (x : Memory). x.held c) (some-injective _ _ (sym e));
  delete-entries = λ b k d d' c e. ap (λ (x : Memory). x.held c) (some-injective _ _ (sym e));
  commit-entries = λ d d' c e. ap (λ (x : Memory). x.held c) (some-injective _ _ (sym e));
}
