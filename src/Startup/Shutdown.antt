-- ===== src/Startup/Shutdown.antt =====
-- The shutdown of a service: main and the goroutine it starts for SIGINT and SIGTERM, which the mains
-- of api, keda/mcp-server, keda/websocket-gateway and agent/backend share, with the http.Server as
-- its documentation describes Shutdown and ListenAndServe. Requests are counted, not told apart.
use take.Prelude.{ℕ, zero, suc, Bool, true, false}

-- main: in ListenAndServe, at `<-drained`, returned, or ended by log.Fatalf.
pub data Main : Type 0 where
  listening waiting exited dead : Main

-- The goroutine: at `<-sig`, in Shutdown, or behind close(drained).
pub data Drainer : Type 0 where
  watching draining drained : Drainer

-- main, the goroutine, whether the listeners are open, the number of connections that wait for a
-- request, new or idle ones, the number of requests in their handlers, and whether the 10 seconds of
-- Shutdown's context are over.
pub data Service : Type 0 where
  state : Main → Drainer → Bool → ℕ → ℕ → Bool → Service

-- The end of main ends the process.
abbrev pub IsRunning : Main → Type 0
IsRunning listening = Unit
IsRunning waiting = Unit
IsRunning exited = ⊥
IsRunning dead = ⊥

abbrev pub boot : Service
boot = state listening watching true 0 0 false

pub data Step : Service → Service → Type 0 where
  connected :
      {m : Main} {d : Drainer} {c n : ℕ} {e : Bool}
      → IsRunning m
      → Step (state m d true c n e) (state m d true (suc c) n e)
  -- A request comes on a connection, which Shutdown may not have closed yet.
  accepted :
      {m : Main} {d : Drainer} {a : Bool} {c n : ℕ} {e : Bool}
      → IsRunning m
      → Step (state m d a (suc c) n e) (state m d a c (suc n) e)
  -- A connection without a request is closed, by the client, a timeout or Shutdown.
  hung_up :
      {m : Main} {d : Drainer} {a : Bool} {c n : ℕ} {e : Bool}
      → IsRunning m
      → Step (state m d a (suc c) n e) (state m d a c n e)
  -- A handler returns, and its connection is closed.
  responded :
      {m : Main} {d : Drainer} {a : Bool} {c n : ℕ} {e : Bool}
      → IsRunning m
      → Step (state m d a c (suc n) e) (state m d a c n e)
  -- A handler returns, and its connection is kept, as it is until Shutdown begins.
  kept_alive :
      {m : Main} {a : Bool} {c n : ℕ} {e : Bool}
      → IsRunning m
      → Step (state m watching a c (suc n) e) (state m watching a (suc c) n e)
  -- A signal: Shutdown begins, and closes the listeners.
  signalled :
      {m : Main} {a : Bool} {c n : ℕ} {e : Bool}
      → IsRunning m
      → Step (state m watching a c n e) (state m draining false c n e)
  expired :
      {m : Main} {a : Bool} {c n : ℕ}
      → IsRunning m
      → Step (state m draining a c n false) (state m draining a c n true)
  -- Shutdown returns nil, when no connection is left.
  emptied :
      {m : Main} {a : Bool} {e : Bool}
      → IsRunning m
      → Step (state m draining a zero zero e) (state m drained a zero zero e)
  -- Shutdown returns the error of its context.
  overran :
      {m : Main} {a : Bool} {c n : ℕ}
      → IsRunning m
      → Step (state m draining a c n true) (state m drained a c n true)
  -- ListenAndServe returns http.ErrServerClosed.
  serve_closed :
      {d : Drainer} {c n : ℕ} {e : Bool}
      → Step (state listening d false c n e) (state waiting d false c n e)
  -- ListenAndServe returns another error.
  serve_failed :
      {d : Drainer} {c n : ℕ} {e : Bool}
      → Step (state listening d true c n e) (state dead d true c n e)
  left :
      {a : Bool} {c n : ℕ} {e : Bool}
      → Step (state waiting drained a c n e) (state exited drained a c n e)

-- So many steps from one state to another.
pub data Run (s : Service) : ℕ → Service → Type 0 where
  here : Run s 0 s
  next : {k : ℕ} {t u : Service} → Run s k t → Step t u → Run s (suc k) u
