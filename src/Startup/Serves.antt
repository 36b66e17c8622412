-- ===== src/Startup/Serves.antt =====
-- When main of the API comes to serve.
use take.Prelude.{ℕ, ◌+◌, ◌≤◌, ◌≡◌, refl, Bool, Option, none, Text, codes, arith}
use take.Startup.Wait.{Pinged, Waited, ping_limit}
use take.Startup.Patience.{IsPrompt, Gives}
use take.Startup.Success.{IsReady, wait-IsReady}
use take.Startup.Boot.{Boot, serving, after_wait, wait_database, port_addr, boot_api}

after_wait-next :
    {A : Type 0} (ping : ℕ → Pinged) (bound : ℕ) (o : Option Waited) (next : ℕ → Boot A)
    (b : Boot A)
    → Gives (IsReady ping bound) o
    → ((t : ℕ) → (ping t).error ≡ none → (ping t).finish ≤ bound → next (ping t).finish ≡ b)
    → after_wait o next ≡ b
unfolding after_wait
after_wait-next ping bound o next b (w, e, r) h =
    rw (e, r.fine, r.returned) (h r.ping_time r.success (rw (← r.returned) r.soon))

-- When pings return within 5 seconds and by the deadline of 180 seconds, every ping that begins
-- from a time on that is 0 to 158 seconds after the start, and at least 5 seconds before the
-- deadline, succeeds, and the schema applies when it is sent after a ping that succeeded and at
-- least 10 seconds before the deadline, main of the API comes to serve at its address.
pub boot_api-serving :
    (getenv : Text → Text) (ping : ℕ → Pinged) (retry_first : ℕ → Bool)
    (apply_schema : ℕ → Option Text) (start up : ℕ)
    → IsPrompt ping (start + 180000)
    → ((t : ℕ) → up ≤ t → t + ping_limit ≤ start + 180000 → (ping t).error ≡ none)
    → ((t : ℕ)
        → (ping t).error ≡ none
        → (ping t).finish + 10000 ≤ start + 180000
        → apply_schema (ping t).finish ≡ none)
    → start ≤ up
    → up ≤ start + 158000
    → boot_api getenv none ping retry_first apply_schema start
      ≡ serving (port_addr getenv (codes "8080"))
unfolding boot_api wait_database
boot_api-serving getenv ping retry_first apply_schema start up prompt is_up applies s h =
    after_wait-next ping (up + 12000) _ _ _
      (wait-IsReady (codes "database") ping retry_first 180000 start up prompt is_up s
        (omega (arith, h)))
      (λ t success soon. rw (applies t success (omega (arith, soon, h))) refl)
