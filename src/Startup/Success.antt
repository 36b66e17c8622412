-- ===== src/Startup/Success.antt =====
-- waitReady where the database comes up early enough.
use take.Prelude.{
  ℕ, zero, suc, ◌+◌, ◌*◌, ◌/◌, ◌≤◌, ◌<◌, ◌≡◌, refl, ap, Bool, true, false, Option, none, some, Text,
  leb, arith,
}
use native.Mathlib.Decide.{dec_lt}
use take.Startup.Wait.{
  Pinged, Waited, retry, ping_limit, add_line, timer_first, answered, wait_ready, wait,
}
use take.Startup.Patience.{IsPrompt, Gives}

-- The wait has ended well by a time, with the return of a ping that succeeded.
pub record IsReady (ping : ℕ → Pinged) (bound : ℕ) (w : Waited) : Type 0 where
  pub fine : w.error ≡ none
  pub soon : w.finish ≤ bound
  pub ping_time : ℕ
  pub success : (ping ping_time).error ≡ none
  pub returned : w.finish ≡ (ping ping_time).finish

module _ (what : Text) (ping : ℕ → Pinged) (retry_first : ℕ → Bool) (deadline up : ℕ)
    (prompt : IsPrompt ping deadline)
    (is_up : (t : ℕ) → up ≤ t → t + ping_limit ≤ deadline → (ping t).error ≡ none)
    (soon : up + ping_limit + retry + ping_limit ≤ deadline) where
  add_line-IsReady :
      (l : Text) (t : ℕ) (o : Option Waited)
      → Gives (IsReady ping t) o
      → Gives (IsReady ping t) (add_line l o)
  unfolding add_line
  add_line-IsReady l t o (w, e, r) = (
    _,
    ap (add_line l) e,
    record {
      fine = r.fine;
      soon = r.soon;
      ping_time = r.ping_time;
      success = r.success;
      returned = r.returned;
    },
  )

  answered-IsReady :
      (attempt t bound : ℕ) (o : Option Text) (rest : Option Waited)
      → (ping t).error ≡ o
      → t + ping_limit ≤ bound
      → t + ping_limit ≤ deadline
      → (t < up → Gives (IsReady ping bound) rest)
      → Gives
          (IsReady ping bound)
          (answered what ping retry_first deadline attempt (ping t).finish o rest)
  unfolding answered timer_first
  answered-IsReady attempt t bound none rest e b l next = (
    _,
    refl,
    record {
      fine = refl;
      soon = omega (arith, b, prompt.limited t);
      ping_time = t;
      success = e;
      returned = refl;
    },
  )
  answered-IsReady attempt t bound (some err) rest e b l next = elim (dec_lt t up) [
    | yes early ↦ rw ((ahead early, takes early)) (add_line-IsReady _ bound rest (next early))
    | no late ↦ absurd (apart (is_up t (omega (arith, late)) l))
  ]
    where
      apart : (ping t).error ≡ none → ⊥
      apart k = cc

      ahead : t < up → leb deadline (ping t).finish ≡ false
      ahead early = let n = prompt.limited t in let s = soon in ground arith

      takes : t < up → timer_first what ping retry_first deadline ((ping t).finish + retry) ≡ true
      takes early = let n = prompt.limited t in let s = soon in ground arith

  wait_ready-IsReady :
      (fuel attempt now bound : ℕ)
      → now ≤ up + ping_limit + retry
      → up + ping_limit + retry + ping_limit ≤ bound
      → deadline < now + fuel * retry
      → Gives (IsReady ping bound) (wait_ready what ping retry_first deadline fuel attempt now)
  unfolding wait_ready
  wait_ready-IsReady zero attempt now bound h b f = absurd (omega (arith, soon, h, f))
  wait_ready-IsReady (suc fuel) attempt now bound h b f =
      answered-IsReady attempt now bound _ _ refl (omega (arith, h, b)) (omega (arith, h, soon))
        (λ early.
          wait_ready-IsReady fuel _ _ bound (omega (arith, early, prompt.limited now)) b
            (omega (arith, f, prompt.later now)))

-- When the database answers from a time on that is early enough, waitReady returns nil within 12
-- seconds of that time.
pub wait-IsReady :
    (what : Text) (ping : ℕ → Pinged) (retry_first : ℕ → Bool) (limit start up : ℕ)
    → IsPrompt ping (start + limit)
    → ((t : ℕ) → up ≤ t → t + ping_limit ≤ start + limit → (ping t).error ≡ none)
    → start ≤ up
    → up + 12000 ≤ start + limit
    → Gives (IsReady ping (up + 12000)) (wait what ping retry_first limit start)
unfolding wait
wait-IsReady what ping retry_first limit start up prompt is_up s h =
    wait_ready-IsReady what ping retry_first _ up prompt is_up (omega (arith, h))
      (limit / retry + 1) 1 start (up + 12000) (omega (arith, s)) (omega arith) (omega arith)
