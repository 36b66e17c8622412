-- ===== src/Kube/Mux.antt =====
-- NewMuxWithClient of agent/mcp-server/server.go: the paths and the probes. Each pattern is a whole
-- path, for every method.
use take.Prelude.{Option, List, [], Text, codes, text_eq, if◌then◌else◌}
use take.Json.{Json}
use take.Http.{Response, plain, http_error}
use take.Kube.Fetch.{Call, Client}
use take.Kube.Server.{handle_mcp}
use take.Kube.Access.{Reads, if-Reads, none-Reads, handle_mcp-Reads}

abbrev pub handle_healthz : Response
handle_healthz = record { status = 200; body = plain (codes "ok") }

module _ (quote : Text → Text) (decode_error : Option Json → Text)
    (parse : Text → Option Json) where
  unfoldable pub serve_mcp : Option Client → Text → Option Text → List Call × Response
  serve_mcp client path body =
      if text_eq path (codes "/healthz")
      then ([], handle_healthz)
      else if text_eq path (codes "/readyz")
      then ([], handle_healthz)
      else if text_eq path (codes "/mcp")
      then handle_mcp quote decode_error parse client body
      else ([], http_error (codes "404 page not found") 404)

  -- Any request to agent/mcp-server causes at most two calls to the Kubernetes API, each of a
  -- resource of the ClusterRole, so none of Secrets.
  pub serve_mcp-Reads :
      (client : Option Client) (path : Text) (body : Option Text)
      → Reads 2 (serve_mcp client path body)
  unfolding serve_mcp
  serve_mcp-Reads client path body =
      if-Reads 2 (text_eq path (codes "/healthz")) _ _ (none-Reads 2 handle_healthz) (
        if-Reads 2 (text_eq path (codes "/readyz")) _ _ (none-Reads 2 handle_healthz) (
          if-Reads 2 (text_eq path (codes "/mcp")) _ _
            (handle_mcp-Reads quote decode_error parse client body) (none-Reads 2 _)))
