-- ===== src/Startup/Ending.antt =====
-- A service ends after a signal: the runs of Startup/Shutdown from then on are short, and end with
-- the return of main.
use take.Prelude.{ℕ, ◌+◌, ◌*◌, ◌≤◌, Bool, true, false, ◌≡◌, inl, inr, ◌⊎◌, refl, sym, subst, arith}
use take.Startup.Shutdown.{
  Main, listening, waiting, exited, dead, Drainer, watching, draining, drained, Service, state,
  boot, Step, connected, accepted, hung_up, responded, kept_alive, signalled, expired, emptied,
  overran, serve_closed, serve_failed, left, Run, here, next,
}
use take.Startup.Draining.{IsSound, Run-IsSound, boot-IsSound}

-- What is left to do once the listeners are closed.
abbrev main_left : Main → ℕ
main_left listening = 2
main_left waiting = 1
main_left exited = 0
main_left dead = 0

abbrev drain_left : Drainer → Bool → ℕ
drain_left watching e = 0
drain_left draining true = 1
drain_left draining false = 2
drain_left drained e = 0

abbrev left_in : Service → ℕ
left_in (state m d a c n e) = 2 * c + n + (drain_left d e + main_left m)

abbrev IsClosing : Service → Type 0
IsClosing (state m watching a c n e) = ⊥
IsClosing (state m draining a c n e) = a ≡ false
IsClosing (state m drained a c n e) = a ≡ false

drain_left-pos : (e : Bool) → 1 ≤ drain_left draining e
drain_left-pos true = omega arith
drain_left-pos false = omega arith

-- A step brings the end nearer, and the listeners stay closed.
Step-IsClosing :
    {s t : Service} → Step s t → IsClosing s → IsClosing t × (left_in t + 1 ≤ left_in s)
Step-IsClosing (connected {m} {d = watching} r) c = absurd c
Step-IsClosing (connected {m} {d = draining} r) c = cc
Step-IsClosing (connected {m} {d = drained} r) c = cc
Step-IsClosing (accepted {m} {d = watching} r) c = absurd c
Step-IsClosing (accepted {m} {d = draining} r) c = (c, omega arith)
Step-IsClosing (accepted {m} {d = drained} r) c = (c, omega arith)
Step-IsClosing (hung_up {m} {d = watching} r) c = absurd c
Step-IsClosing (hung_up {m} {d = draining} r) c = (c, omega arith)
Step-IsClosing (hung_up {m} {d = drained} r) c = (c, omega arith)
Step-IsClosing (responded {m} {d = watching} r) c = absurd c
Step-IsClosing (responded {m} {d = draining} r) c = (c, omega arith)
Step-IsClosing (responded {m} {d = drained} r) c = (c, omega arith)
Step-IsClosing (kept_alive r) c = absurd c
Step-IsClosing (signalled r) c = absurd c
Step-IsClosing (expired {m} r) c = (c, omega arith)
Step-IsClosing (emptied {m} {e = e} r) c = (c, omega (arith, drain_left-pos e))
Step-IsClosing (overran {m} r) c = (c, omega arith)
Step-IsClosing (serve_closed {d = watching}) c = absurd c
Step-IsClosing (serve_closed {d = draining}) c = (c, omega arith)
Step-IsClosing (serve_closed {d = drained}) c = (c, omega arith)
Step-IsClosing (serve_failed {d = watching}) c = absurd c
Step-IsClosing (serve_failed {d = draining}) c = cc
Step-IsClosing (serve_failed {d = drained}) c = cc
Step-IsClosing left c = (c, omega arith)

Run-IsClosing :
    {s : Service} {k : ℕ} {t : Service}
    → Run s k t
    → IsClosing s
    → IsClosing t × (left_in t + k ≤ left_in s)
Run-IsClosing here c = (c, omega arith)
Run-IsClosing {s} (next {k} {t} {u} r st) c =
    let before = Run-IsClosing r c in
    let after = Step-IsClosing st (before.0) in (after.0, omega (arith, before.1, after.1))

abbrev pub HasExited : Service → Type 0
HasExited (state m d a c n e) = m ≡ exited

-- What runs on, or has ended.
goes_on : (t : Service) → IsSound t → IsClosing t → HasExited t ⊎ ((u : Service) × Step t u)
goes_on (state listening watching a c n e) i k = absurd k
goes_on (state listening draining a c n e) i k = inr (
  _,
  subst (λ b. Step (state listening draining b c n e) (state waiting draining false c n e)) (sym k)
      serve_closed,
)
goes_on (state listening drained a c n e) i k = inr (
  _,
  subst (λ b. Step (state listening drained b c n e) (state waiting drained false c n e)) (sym k)
      serve_closed,
)
goes_on (state waiting watching a c n e) i k = absurd k
goes_on (state waiting draining a c n true) i k = inr (_, overran tt)
goes_on (state waiting draining a c n false) i k = inr (_, expired tt)
goes_on (state waiting drained a c n e) i k = inr (_, left)
goes_on (state exited d a c n e) i k = inl refl
goes_on (state dead watching a c n e) i k = absurd k
goes_on (state dead draining a c n e) i k = absurd (i.0)
goes_on (state dead drained a c n e) i k = absurd (i.0)

-- Once Shutdown has begun with c connections that wait for a request and n requests in their
-- handlers, a run of the service has at most 2 * c + n + 4 more steps, and a run that cannot go
-- on has returned from main.
pub Run-ends :
    (j k c n : ℕ) (m : Main) (a e : Bool) (t : Service)
    → Run boot j (state m draining a c n e)
    → Run (state m draining a c n e) k t
    → (k ≤ 2 * c + n + 4) × (HasExited t ⊎ ((u : Service) × Step t u))
Run-ends j k c n m a e t r q =
    let i = Run-IsSound r boot-IsSound in
    let l = closing m a i in
    let p = Run-IsClosing q l in (omega (arith, p.1, total m e), goes_on t (Run-IsSound q i) (p.0))
  where
    closing : (m' : Main) (a' : Bool) → IsSound (state m' draining a' c n e) → a' ≡ false
    closing listening a' i = i.0
    closing waiting a' i = i.0
    closing exited a' i = absurd (i.0)
    closing dead a' i = absurd (i.0)

    total : (m' : Main) (e' : Bool) → drain_left draining e' + main_left m' ≤ 4
    total m' e' = grind arith
