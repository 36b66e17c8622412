-- ===== src/Keda/Hash.antt =====
-- A hash in memory for Redis, beside an API that answers every request: the laws can be met.
use take.Prelude.{
  refl, sym, ap, ◌∙◌, [], Text, codes, text_eq, Entries, lookup, insert, remove, IsOrdered,
  insert-IsOrdered, remove-IsOrdered, lookup-insert, lookup-remove, if◌then◌else◌,
}
use take.Keda.World.{Outcome, done, failed, Answer, World, IsRedis}

pub record Hash : Type 0 where
  pub held : Entries Text
  pub sorted : IsOrdered held

abbrev pub status_of : Text → Answer
status_of method = record {
  status = if text_eq method (codes "DELETE") then 204 else 200;
  text = [];
  document = failed (codes "EOF");
}

abbrev pub hash_world : World
hash_world = record {
  State = Hash;
  send = λ r s. (done (status_of r.method), s);
  hget_all = λ s. (done s.held, s);
  hset = λ f v s.
      (done tt, record { held = insert f v s.held; sorted = insert-IsOrdered f v s.held s.sorted });
  hdel = λ f s.
      (done tt, record { held = remove f s.held; sorted = remove-IsOrdered f s.held s.sorted });
  stored = λ s k. lookup k s.held;
}

abbrev held_of : Outcome (Entries Text) × Hash → Entries Text
held_of (done l, s) = l
held_of (failed e, s) = []

pub hash_world-IsRedis : IsRedis hash_world
hash_world-IsRedis = record {
  hget_all-stored = λ s s' h k e. ap (λ r. lookup k (held_of r)) (sym e);
  hget_all-keeps = λ s k. refl;
  hset-stored = λ f v s s' k e. ap (λ r. lookup k (r.1).held) (sym e) ∙ lookup-insert f k v s.held;
  hdel-stored =
      λ f s s' k e. ap (λ r. lookup k (r.1).held) (sym e) ∙ lookup-remove f k s.held s.sorted;
  send-stored = λ r s k. refl;
}
