-- ===== src/Keda/World.antt =====
-- What the tools of keda/mcp-server/tools.go reach outside the process, as a parameter: the todo
-- API by HTTP, and the hash `todo:priority` in Redis by the commands that go-redis sends. The laws
-- are what Redis documents of HGETALL, HSET and HDEL, and that the API does not write this hash.
use take.Prelude.{◌≡◌, ℕ, Option, none, some, Text, text_eq, if◌then◌else◌, Entries, lookup}
use take.Json.{Json}

-- A value, or the text of an error.
pub data Outcome (A : Type 0) : Type 0 where
  done : A → Outcome A
  failed : Text → Outcome A

-- The path is the one behind apiBaseURL, which is a valid URL.
pub record Request : Type 0 where
  pub method : Text
  pub path : Text
  pub body : Option Json

-- The text of the body, and the first document in it or the decoder's error.
pub record Answer : Type 0 where
  pub status : ℕ
  pub text : Text
  pub document : Outcome Json

pub record World : Type 1 where
  pub State : Type 0
  pub send : Request → State → Outcome Answer × State
  pub hget_all : State → Outcome (Entries Text) × State
  pub hset : Text → Text → State → Outcome (Unit {0}) × State
  pub hdel : Text → State → Outcome (Unit {0}) × State
  -- The hash as it is stored; the tools do not use it.
  pub stored : State → Text → Option Text

pub record IsRedis (w : World) : Type 0 where
  pub hget_all-stored :
      (s s' : w.State) (h : Entries Text) (k : Text)
      → w.hget_all s ≡ (done h, s')
      → lookup k h ≡ w.stored s k
  pub hget_all-keeps : (s : w.State) (k : Text) → w.stored (w.hget_all s).1 k ≡ w.stored s k
  pub hset-stored :
      (f v : Text) (s s' : w.State) (k : Text)
      → w.hset f v s ≡ (done tt, s')
      → w.stored s' k ≡ (if text_eq f k then some v else w.stored s k)
  pub hdel-stored :
      (f : Text) (s s' : w.State) (k : Text)
      → w.hdel f s ≡ (done tt, s')
      → w.stored s' k ≡ (if text_eq f k then none else w.stored s k)
  pub send-stored :
      (r : Request) (s : w.State) (k : Text) → w.stored (w.send r s).1 k ≡ w.stored s k
