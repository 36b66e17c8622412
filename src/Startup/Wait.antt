-- ===== src/Startup/Wait.antt =====
-- waitReady of api/store.go, keda/mcp-server/main.go and keda/websocket-gateway/main.go, which are
-- one loop over two clients. Times are in milliseconds. `ping` is the client's ping under a context
-- of 5 seconds and the deadline, by the time at which it begins; `retry_first` is which of the two
-- cases select takes where both are ready at one time, which Go leaves open.
use take.Prelude.{
  ℕ, zero, suc, ◌+◌, ◌/◌, Bool, ◌&&◌, ◌||◌, Option, none, some, List, [], ◌∷◌, ◌++◌, Text, codes,
  ltb, leb, ◌==◌, if◌then◌else◌, pos,
}
use take.Numbers.{format_int}

-- What a ping comes to: the time at which it returns, and its error.
pub record Pinged : Type 0 where
  pub finish : ℕ
  pub error : Option Text

-- What waitReady returns and when, with the lines that it logs.
pub record Waited : Type 0 where
  pub error : Option Text
  pub finish : ℕ
  pub lines : List Text

abbrev pub retry : ℕ
retry = 2000

abbrev pub ping_limit : ℕ
ping_limit = 5000

abbrev pub never_ready : Text → Text → Text
never_ready what err = what ++ codes " never became ready: " ++ err

abbrev pub not_ready : Text → ℕ → Text → Text
not_ready what attempt err =
    what ++ codes " not ready (attempt " ++ format_int (pos attempt) ++ codes "): " ++ err

unfoldable pub add_line : Text → Option Waited → Option Waited
add_line l none = none
add_line l (some w) = some (record w { lines = l ∷ w.lines })

module _ (what : Text) (ping : ℕ → Pinged) (retry_first : ℕ → Bool) (deadline : ℕ) where
  abbrev pub gave_up : Text → ℕ → Waited
  gave_up err now = record { error = some (never_ready what err); finish = now; lines = [] }

  -- Whether select takes the timer, which is ready at `t`, and not the context.
  unfoldable pub timer_first : ℕ → Bool
  timer_first t = ltb t deadline || t == deadline && retry_first t

  -- One turn after its ping; `rest` is what the turns after it come to.
  unfoldable pub answered : ℕ → ℕ → Option Text → Option Waited → Option Waited
  unfolding timer_first
  answered attempt now none rest = some (record { error = none; finish = now; lines = [] })
  answered attempt now (some err) rest =
      if leb deadline now
      then some (gave_up err now)
      else add_line (not_ready what attempt err)
          (if timer_first (now + retry) then rest else some (gave_up err deadline))

  -- `none` is no fuel left.
  unfoldable pub wait_ready : ℕ → ℕ → ℕ → Option Waited
  unfolding answered
  wait_ready zero attempt now = none
  wait_ready (suc fuel) attempt now =
      let p = ping now in
      answered attempt p.finish p.error (wait_ready fuel (attempt + 1) (p.finish + retry))

-- waitReady under a context that ends `limit` after the start.
unfoldable pub wait : Text → (ℕ → Pinged) → (ℕ → Bool) → ℕ → ℕ → Option Waited
unfolding wait_ready
wait what ping retry_first limit start =
    wait_ready what ping retry_first (start + limit) (limit / retry + 1) 1 start
