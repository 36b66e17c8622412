-- ===== src/Keda/Mux.antt =====
-- NewMux of keda/mcp-server/server.go: the paths and the probes. `ping` is the error of Redis'
-- PING, if there is one. Each pattern is a whole path, for every method.
use take.Prelude.{Option, none, some, Text, codes, ◌++◌, text_eq, if◌then◌else◌, ℤ}
use take.Json.{Json}
use take.Http.{Response, plain, http_error}
use take.Keda.World.{World}
use take.Keda.Server.{handle_todo_mcp}

abbrev pub healthy : Response
healthy = record { status = 200; body = plain (codes "ok") }

unfoldable pub handle_readyz : Option Text → Response
handle_readyz (some e) = http_error (codes "redis unreachable: " ++ e) 503
handle_readyz none = healthy

module _ (w : World) (float_int : Json → ℤ) (decode_error : Json → Text) (marshal : Json → Text)
    (params_error : Option Json → Text) (parse : Text → Option Json)
    (ping : w.State → Option Text) where
  unfoldable pub serve_todo_mcp : Text → Option Text → w.State → Response × w.State
  unfolding handle_readyz
  serve_todo_mcp path body s =
      if text_eq path (codes "/healthz")
      then (healthy, s)
      else if text_eq path (codes "/readyz")
      then (handle_readyz (ping s), s)
      else if text_eq path (codes "/mcp")
      then handle_todo_mcp w float_int decode_error marshal params_error parse body s
      else (http_error (codes "404 page not found") 404, s)
