-- ===== src/Startup/Tests.antt =====
-- A database that is up after 9 seconds, and a service that is told to end with one request in its handler.
use take.Prelude.{
  ℕ, ◌+◌, ◌*◌, ◌≤◌, ◌≡◌, ◌⊎◌, Bool, true, false, Option, none, some, Text, codes, ltb,
  if◌then◌else◌, arith,
}
use take.Startup.Wait.{Pinged, Waited, ping_limit, wait}
use take.Startup.Patience.{IsPrompt, IsReturn, wait-IsReturn}
use take.Startup.Boot.{serving, port_addr, boot_api}
use take.Startup.Serves.{boot_api-serving}
use take.Startup.Shutdown.{
  exited, listening, draining, drained, Service, state, boot, Step, connected, accepted, hung_up,
  responded, signalled, emptied, serve_closed, left, Run, here, next,
}
use take.Startup.Draining.{Run-exited}
use take.Startup.Ending.{HasExited, Run-ends}

-- Each ping takes no time, and one that begins at the deadline of 180 seconds or later fails.
abbrev ping : ℕ → Pinged
ping t = record {
  finish = t;
  error =
      if ltb t 9000
      then some (codes "refused")
      else if ltb t 180000
      then none
      else some (codes "context deadline exceeded");
}

-- The schema applies as long as the boot context has not ended.
abbrev schema : ℕ → Option Text
schema t = if ltb t 180000 then none else some (codes "context deadline exceeded")

ping-IsPrompt : (deadline : ℕ) → IsPrompt ping deadline
ping-IsPrompt deadline = record {
  later = λ t. omega arith;
  limited = λ t. omega arith;
  ended = λ t h. h;
}

ping-up : (t : ℕ) → 9000 ≤ t → t + ping_limit ≤ 180000 → (ping t).error ≡ none
ping-up t h k = ground arith

schema-applies : (t : ℕ) → (ping t).error ≡ none → t + 10000 ≤ 180000 → schema t ≡ none
schema-applies t e h = ground arith

abbrev timer : ℕ → Bool
timer t = true

wait-IsReturn_example :
    (w : Waited) × (wait (codes "redis") ping timer 8000 0 ≡ some w)
    × IsReturn (codes "redis") ping 8000 w
wait-IsReturn_example = wait-IsReturn (codes "redis") ping timer 8000 0 (ping-IsPrompt 8000)

abbrev no_env : Text → Text
no_env key = codes ""

boot_api-serving_example :
    boot_api no_env none ping timer schema 0 ≡ serving (port_addr no_env (codes "8080"))
boot_api-serving_example =
    boot_api-serving no_env ping timer schema 0 9000 (ping-IsPrompt 180000) ping-up schema-applies
      (omega arith) (omega arith)

-- One request is in its handler and one connection is new when the signal comes; the second brings
-- its request behind the close of the listeners.
busy : Run boot 4 (state listening draining false 1 1 false)
busy = next (next (next (next here (connected tt)) (accepted tt)) (connected tt)) (signalled tt)

over : Run (state listening draining false 1 1 false) 6 (state exited drained false 0 0 false)
over =
    next
      (next
        (next (next (next (next here (accepted tt)) (responded tt)) serve_closed) (responded tt))
        (emptied tt))
      left

both : Run boot 9 (state exited drained false 0 0 false)
both =
    next (next (next (next (next busy (hung_up tt)) (responded tt)) serve_closed) (emptied tt)) left

Run-exited_example :
    (drained ≡ drained)
    × (false ≡ false)
    × (((◌≡◌ {A = ℕ} 0 0) × (◌≡◌ {A = ℕ} 0 0)) ⊎ (false ≡ true))
Run-exited_example = Run-exited 9 drained false 0 0 false both

Run-ends_example :
    (6 ≤ 2 * 1 + 1 + 4)
    × (HasExited (state exited drained false 0 0 false)
        ⊎ ((u : Service) × Step (state exited drained false 0 0 false) u))
Run-ends_example =
    Run-ends 4 6 1 1 listening false false (state exited drained false 0 0 false) busy over
