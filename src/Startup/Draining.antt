-- ===== src/Startup/Draining.antt =====
-- What holds along the runs of Startup/Shutdown, and how they end.
use take.Prelude.{ℕ, suc, ◌+◌, ◌≤◌, Bool, true, false, ◌≡◌, inl, inr, ◌⊎◌, refl, arith}
use take.Startup.Shutdown.{
  Main, listening, waiting, exited, dead, Drainer, watching, draining, drained, Service, state,
  IsRunning, boot, Step, connected, accepted, hung_up, responded, kept_alive, signalled, expired,
  emptied, overran, serve_closed, serve_failed, left, Run, here, next,
}

-- The listeners are closed from Shutdown on, and main goes with them.
abbrev pub Fits : Main → Drainer → Bool → Type 0
Fits listening watching a = a ≡ true
Fits listening draining a = a ≡ false
Fits listening drained a = a ≡ false
Fits waiting watching a = ⊥
Fits waiting draining a = a ≡ false
Fits waiting drained a = a ≡ false
Fits exited watching a = ⊥
Fits exited draining a = ⊥
Fits exited drained a = a ≡ false
Fits dead watching a = a ≡ true
Fits dead draining a = ⊥
Fits dead drained a = ⊥

-- Shutdown has returned with no connection left, or late.
abbrev pub Settles : Drainer → ℕ → ℕ → Bool → Type 0
Settles watching c n e = Unit
Settles draining c n e = Unit
Settles drained c n e = ((c ≡ 0) × (n ≡ 0)) ⊎ (e ≡ true)

abbrev pub IsSound : Service → Type 0
IsSound (state m d a c n e) = Fits m d a × Settles d c n e

-- With open listeners Shutdown has not returned.
open-Settles : (m : Main) (d : Drainer) (c n : ℕ) (e : Bool) → Fits m d true → Settles d c n e
open-Settles m watching c n e f = tt
open-Settles m draining c n e f = tt
open-Settles listening drained c n e f = cc
open-Settles waiting drained c n e f = cc
open-Settles exited drained c n e f = cc
open-Settles dead drained c n e f = absurd f

-- Where a connection or a request was left, Shutdown has returned late if at all.
busy-Settles :
    (d : Drainer) (c n c' n' : ℕ) (e : Bool) → 1 ≤ c + n → Settles d c n e → Settles d c' n' e
busy-Settles watching c n c' n' e k h = tt
busy-Settles draining c n c' n' e k h = tt
busy-Settles drained c n c' n' e k (inl h) = absurd (omega (arith, k, h.0, h.1))
busy-Settles drained c n c' n' e k (inr h) = inr h

begin-Fits : (m : Main) (a : Bool) → IsRunning m → Fits m watching a → Fits m draining false
begin-Fits listening a r f = refl
begin-Fits waiting a r f = absurd f
begin-Fits exited a r f = absurd r
begin-Fits dead a r f = absurd r

return-Fits : (m : Main) (a : Bool) → IsRunning m → Fits m draining a → Fits m drained a
return-Fits listening a r f = f
return-Fits waiting a r f = f
return-Fits exited a r f = absurd r
return-Fits dead a r f = absurd r

closed-Fits : (d : Drainer) → Fits listening d false → Fits waiting d false
closed-Fits watching f = cc
closed-Fits draining f = f
closed-Fits drained f = f

failed-Fits : (d : Drainer) → Fits listening d true → Fits dead d true
failed-Fits watching f = f
failed-Fits draining f = cc
failed-Fits drained f = cc

Step-IsSound : {s t : Service} → Step s t → IsSound s → IsSound t
Step-IsSound (connected {m} {d} r) (f, h) = (f, open-Settles m d _ _ _ f)
Step-IsSound (accepted {d} {c} {n} r) (f, h) = (f, busy-Settles d (suc c) n _ _ _ (omega arith) h)
Step-IsSound (hung_up {d} {c} {n} r) (f, h) = (f, busy-Settles d (suc c) n _ _ _ (omega arith) h)
Step-IsSound (responded {d} {c} {n} r) (f, h) = (f, busy-Settles d c (suc n) _ _ _ (omega arith) h)
Step-IsSound (kept_alive r) (f, h) = (f, tt)
Step-IsSound (signalled {m} r) (f, h) = (begin-Fits m _ r f, tt)
Step-IsSound (expired r) (f, h) = (f, tt)
Step-IsSound (emptied {m} r) (f, h) = (return-Fits m _ r f, inl (refl, refl))
Step-IsSound (overran {m} r) (f, h) = (return-Fits m _ r f, inr refl)
Step-IsSound (serve_closed {d}) (f, h) = (closed-Fits d f, h)
Step-IsSound (serve_failed {d}) (f, h) = (failed-Fits d f, h)
Step-IsSound left (f, h) = (f, h)

pub Run-IsSound : {s : Service} {k : ℕ} {t : Service} → Run s k t → IsSound s → IsSound t
Run-IsSound here i = i
Run-IsSound (next r st) i = Step-IsSound st (Run-IsSound r i)

pub boot-IsSound : IsSound boot
boot-IsSound = (refl, tt)

exited-safe :
    (d : Drainer) (a : Bool) (c n : ℕ) (e : Bool)
    → IsSound (state exited d a c n e)
    → (d ≡ drained) × (a ≡ false) × (((c ≡ 0) × (n ≡ 0)) ⊎ (e ≡ true))
exited-safe watching a c n e (f, h) = absurd f
exited-safe draining a c n e (f, h) = absurd f
exited-safe drained a c n e (f, h) = (refl, f, h)

-- When main of a service has returned, Shutdown has returned before, the listeners are closed,
-- and no connection is left and no request is in its handler, or the 10 seconds are over.
pub Run-exited :
    (k : ℕ) (d : Drainer) (a : Bool) (c n : ℕ) (e : Bool)
    → Run boot k (state exited d a c n e)
    → (d ≡ drained) × (a ≡ false) × (((c ≡ 0) × (n ≡ 0)) ⊎ (e ≡ true))
Run-exited k d a c n e r = exited-safe d a c n e (Run-IsSound r boot-IsSound)
