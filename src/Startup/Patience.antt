-- ===== src/Startup/Patience.antt =====
-- waitReady returns by its deadline, and returns nil when the database comes up in time.
use take.Prelude.{
  ℕ, zero, suc, ◌+◌, ◌*◌, ◌≤◌, ◌<◌, ◌≡◌, refl, ap, Bool, true, false, Option, none, some, List, [],
  ◌∷◌, Text, leb, if◌then◌else◌, arith,
}
use take.Startup.Wait.{
  Pinged, Waited, retry, ping_limit, never_ready, not_ready, add_line, timer_first, answered,
  wait_ready, wait,
}

-- A client that returns when its context ends, at the latest.
pub record IsPrompt (ping : ℕ → Pinged) (deadline : ℕ) : Type 0 where
  pub later : (t : ℕ) → t ≤ (ping t).finish
  pub limited : (t : ℕ) → (ping t).finish ≤ t + ping_limit
  pub ended : (t : ℕ) → t ≤ deadline → (ping t).finish ≤ deadline

-- The return of waitReady: nil from a ping that succeeded, by the deadline, or at the deadline the
-- error with the last ping's.
pub data IsReturn (what : Text) (ping : ℕ → Pinged) (deadline : ℕ) : Waited → Type 0 where
  succeeded :
      (t : ℕ) (lines : List Text)
      → (ping t).error ≡ none
      → (ping t).finish ≤ deadline
      → IsReturn what ping deadline
          (record { error = none; finish = (ping t).finish; lines = lines })
  timed_out :
      (t : ℕ) (err : Text) (now : ℕ) (lines : List Text)
      → (ping t).error ≡ some err
      → now ≡ deadline
      → IsReturn what ping deadline
          (record { error = some (never_ready what err); finish = now; lines = lines })

-- A result that is there and has a property.
abbrev pub Gives {ℓ} : (Waited → Type ℓ) → Option Waited → Type ℓ
Gives P o = (w : Waited) × (o ≡ some w) × P w

timer_first-leq :
    (what : Text) (ping : ℕ → Pinged) (retry_first : ℕ → Bool) (deadline t : ℕ)
    → timer_first what ping retry_first deadline t ≡ true
    → t ≤ deadline
unfolding timer_first
timer_first-leq what ping retry_first deadline t h = ground arith

module _ (what : Text) (ping : ℕ → Pinged) (retry_first : ℕ → Bool) (deadline : ℕ)
    (prompt : IsPrompt ping deadline) where
  add_line-IsReturn :
      (l : Text) (o : Option Waited)
      → Gives (IsReturn what ping deadline) o
      → Gives (IsReturn what ping deadline) (add_line l o)
  unfolding add_line
  add_line-IsReturn l o (w, e, succeeded t ls f h) =
      (_, ap (add_line l) e, succeeded t (l ∷ ls) f h)
  add_line-IsReturn l o (w, e, timed_out t err now ls f h) =
      (_, ap (add_line l) e, timed_out t err now (l ∷ ls) f h)

  answered-IsReturn :
      (attempt t : ℕ) (o : Option Text) (rest : Option Waited)
      → (ping t).error ≡ o
      → t ≤ deadline
      → ((ping t).finish + retry ≤ deadline → Gives (IsReturn what ping deadline) rest)
      → Gives
          (IsReturn what ping deadline)
          (answered what ping retry_first deadline attempt (ping t).finish o rest)
  unfolding answered
  answered-IsReturn attempt t none rest e h next = (_, refl, succeeded t [] e (prompt.ended t h))
  answered-IsReturn attempt t (some err) rest e h next = at (leb deadline (ping t).finish) refl
    where
      now : ℕ
      now = (ping t).finish

      late : ℕ → List Text → Waited
      late x ls = record { error = some (never_ready what err); finish = x; lines = ls }

      chosen :
          (b : Bool)
          → timer_first what ping retry_first deadline (now + retry) ≡ b
          → Gives (IsReturn what ping deadline) (if b then rest else some (late deadline []))
      chosen true k = next (timer_first-leq what ping retry_first deadline _ k)
      chosen false k = (_, refl, timed_out t err deadline [] e refl)

      at :
          (b : Bool)
          → leb deadline now ≡ b
          → Gives (IsReturn what ping deadline) (
              if b
              then some (late now [])
              else add_line (not_ready what attempt err) (
                  if timer_first what ping retry_first deadline (now + retry)
                  then rest
                  else some (late deadline [])))
      at true k = (_, refl, timed_out t err now [] e (let n = prompt.ended t h in ground arith))
      at false k = add_line-IsReturn _ _ (chosen _ refl)

  wait_ready-IsReturn :
      (fuel attempt now : ℕ)
      → now ≤ deadline
      → deadline < now + fuel * retry
      → Gives
          (IsReturn what ping deadline)
          (wait_ready what ping retry_first deadline fuel attempt now)
  unfolding wait_ready
  wait_ready-IsReturn zero attempt now h f = absurd (omega (arith, h, f))
  wait_ready-IsReturn (suc fuel) attempt now h f =
      answered-IsReturn attempt now _ _ refl h
        (λ k. wait_ready-IsReturn fuel _ _ k (omega (arith, k, f, prompt.later now)))

-- When each ping returns within 5 seconds and by the deadline, waitReady returns: by the deadline
-- nil from a ping that succeeded, or at the deadline an error with the text of a ping that
-- failed.
pub wait-IsReturn :
    (what : Text) (ping : ℕ → Pinged) (retry_first : ℕ → Bool) (limit start : ℕ)
    → IsPrompt ping (start + limit)
    → (w : Waited) × (wait what ping retry_first limit start ≡ some w)
      × IsReturn what ping (start + limit) w
unfolding wait
wait-IsReturn what ping retry_first limit start prompt =
    wait_ready-IsReturn what ping retry_first _ prompt _ _ _ (omega arith) (omega arith)
