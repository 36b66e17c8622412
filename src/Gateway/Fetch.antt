-- ===== src/Gateway/Fetch.antt =====
-- callTool of the gateway against keda/mcp-server: what the tool says is what callTool returns.
use take.Prelude.{
  ◌≡◌, refl, sym, subst, ap, ◌∙◌, Option, none, some, ◌++◌, Text, codes, text_eq, ℤ, pos,
  append-nil,
}
use take.Json.{Json, int, str, obj, field, end, names, read_text, read_struct}
use take.Http.{write_json}
use take.Keda.World.{Outcome, done, failed, Answer, World}
use take.Kube.Server.{CallToolParams, write_rpc, encode_result, decode_request, decode_params}
use take.Keda.Server.{tool_outcome, run_tool, handle_todo_mcp}
use take.Exchange.{encoded, carried}
use take.Gateway.Client.{
  call_body, call_tool, joined, of_answer, decode_reply, reply_outcome, exchanged,
}

-- What the gateway makes of a tool's outcome.
abbrev pub relayed : Outcome Text → Outcome Text
relayed (done text) = done text
relayed (failed e) = failed (codes "mcp-server tool error: " ++ e)

-- The document that answers a call.
abbrev pub reply_document : Outcome Text → Json
reply_document o = obj (
    field (codes "jsonrpc") (str (codes "2.0")) (
      field (codes "id") (int (pos 1))
        (field (codes "result") (encode_result (tool_outcome o)) end)))

of_answer-reply_document :
    (decode_error : Json → Text) (o : Outcome Text)
    → of_answer decode_error (done (reply_document o)) ≡ relayed o
unfolding of_answer decode_reply reply_outcome joined read_struct text_eq names encode_result
    read_text
of_answer-reply_document decode_error (done text) = ap done (append-nil text)
of_answer-reply_document decode_error (failed e) =
    ap (λ t. failed (codes "mcp-server tool error: " ++ t)) (append-nil e)

abbrev pub call_params : Text → CallToolParams
call_params name = record { name = name; arguments = end }

decode_request-call_body :
    (parse : Text → Option Json) (marshal : Json → Text) (name : Text)
    → parse (marshal (call_body name)) ≡ some (call_body name)
    → decode_request parse (marshal (call_body name))
      ≡ some (record {
        jsonrpc = codes "2.0";
        id = some (int (pos 1));
        method = codes "tools/call";
        params =
            some (obj (field (codes "arguments") (obj end) (field (codes "name") (str name) end)));
      })
unfolding decode_request read_struct names read_text
decode_request-call_body parse marshal name h = rw (h, decode_request) refl

module _ (w : World) (float_int : Json → ℤ) (decode_error : Json → Text) (marshal : Json → Text)
    (params_error : Option Json → Text) (parse : Text → Option Json)
    (first_document : Text → Outcome Json) where
  open w use {State}

  -- One request to /mcp.
  abbrev pub post_mcp : Json → State → Outcome Answer × State
  post_mcp body s =
      carried marshal first_document (
        handle_todo_mcp w float_int decode_error marshal params_error parse (some (marshal body)) s)

  abbrev pub ran : Text → State → Outcome Text × State
  ran name s = run_tool w float_int decode_error marshal (call_params name) s

  -- The answer to a call.
  handle_todo_mcp-call_body :
      (name : Text) (s : State)
      → parse (marshal (call_body name)) ≡ some (call_body name)
      → handle_todo_mcp w float_int decode_error marshal params_error parse
          (some (marshal (call_body name)))
          s
        ≡ (write_json 200 (reply_document (ran name s).0), (ran name s).1)
  unfolding handle_todo_mcp text_eq write_rpc decode_params read_struct names read_text
  handle_todo_mcp-call_body name s p = rw (decode_request-call_body parse marshal name p) refl

  answered_lem :
      (o : Outcome Text) (s : State)
      → first_document (encoded marshal (reply_document o)) ≡ done (reply_document o)
      → exchanged decode_error
          (carried marshal first_document (write_json 200 (reply_document o), s))
        ≡ (relayed o, s)
  unfolding exchanged carried
  answered_lem o s d = rw d (ap (λ x. (x, s)) (of_answer-reply_document decode_error o))

  -- When the exchange arrives and the request and its answer are read as they were written,
  -- callTool of a name against keda/mcp-server returns what the tool of that name returns without
  -- arguments: its text, or its error behind "mcp-server tool error: ".
  pub call_tool-run_tool :
      (name : Text) (s : State)
      → parse (marshal (call_body name)) ≡ some (call_body name)
      → first_document (encoded marshal (reply_document (ran name s).0))
        ≡ done (reply_document (ran name s).0)
      → call_tool decode_error none post_mcp name s ≡ (relayed (ran name s).0, (ran name s).1)
  unfolding call_tool
  call_tool-run_tool name s p d = rw (handle_todo_mcp-call_body name s p) (answered_lem _ _ d)

  -- The same where the outcome is known.
  pub call_tool-of :
      (name : Text) (s s' : State) (o : Outcome Text)
      → ran name s ≡ (o, s')
      → parse (marshal (call_body name)) ≡ some (call_body name)
      → first_document (encoded marshal (reply_document o)) ≡ done (reply_document o)
      → call_tool decode_error none post_mcp name s ≡ (relayed o, s')
  call_tool-of name s s' o e p d =
      call_tool-run_tool name s p (
        subst
          (λ x.
            first_document (encoded marshal (reply_document (x.0))) ≡ done (reply_document (x.0)))
          (sym e) d)
      ∙ ap (λ x. (relayed (x.0), x.1)) e
