-- ===== src/Keda/Server.antt =====
-- keda/mcp-server/server.go: the JSON-RPC handler of /mcp over the todo tools. The envelopes are
-- those of agent/mcp-server, which the source copies, and so are their definitions.
use take.Prelude.{true, false, Option, none, some, ◌++◌, Text, codes, text_eq, if◌then◌else◌, ℤ}
use take.Json.{Json, str, obj, end, field}
use take.Http.{Response}
use take.Kube.Server.{
  RpcRequest, ToolCallResult, CallToolParams, encode_result, result, rpc_error, write_rpc,
  code_parse_error, code_method_not_found, decode_params, decode_request,
}
use take.Keda.World.{Outcome, done, failed, World}
use take.Keda.Tools.{
  run_list_todos, run_add_todo, run_set_priority, run_complete_todo, run_delete_todo,
}
use take.Keda.Catalog.{todo_tools}

unfoldable pub todo_initialized : Json
todo_initialized = obj (
    field (codes "capabilities") (obj (field (codes "tools") (obj end) end)) (
      field (codes "protocolVersion") (str (codes "2024-11-05")) (
        field (codes "serverInfo")
          (obj (
            field (codes "name") (str (codes "keda-todo-mcp-server"))
              (field (codes "version") (str (codes "0.1.0")) end)))
          end)))

-- The outcome of a tool as a tools/call result.
abbrev pub tool_outcome : Outcome Text → ToolCallResult
tool_outcome (done text) = record { text = text; is_error = false }
tool_outcome (failed e) = record { text = e; is_error = true }

module _ (w : World) (float_int : Json → ℤ) (decode_error : Json → Text)
    (marshal : Json → Text) where
  open w use {State}

  unfoldable pub run_tool : CallToolParams → State → Outcome Text × State
  run_tool p s =
      if text_eq p.name (codes "list_todos")
      then run_list_todos w decode_error marshal s
      else if text_eq p.name (codes "add_todo")
      then run_add_todo w decode_error marshal p.arguments s
      else if text_eq p.name (codes "set_priority")
      then run_set_priority w float_int p.arguments s
      else if text_eq p.name (codes "complete_todo")
      then run_complete_todo w float_int p.arguments s
      else if text_eq p.name (codes "delete_todo")
      then run_delete_todo w float_int p.arguments s
      else (failed (codes "unknown tool: " ++ p.name), s)

  module _ (params_error : Option Json → Text) where
    call_todo_tool : Option Json → Option CallToolParams → State → Outcome Text × State
    call_todo_tool raw none s =
        (failed (codes "invalid tools/call params: " ++ params_error raw), s)
    call_todo_tool raw (some p) s = run_tool p s

    answer_todo : RpcRequest → State → Response × State
    answer_todo req s =
        if text_eq req.method (codes "initialize")
        then (write_rpc req.id (result todo_initialized), s)
        else if text_eq req.method (codes "tools/list")
        then (write_rpc req.id (result (obj (field (codes "tools") todo_tools end))), s)
        else if text_eq req.method (codes "tools/call")
        then (let r = call_todo_tool req.params (decode_params req.params) s in
            (write_rpc req.id (result (encode_result (tool_outcome (r.0)))), r.1))
        else (
          write_rpc req.id
              (rpc_error code_method_not_found (codes "method not found: " ++ req.method)),
          s,
        )

    answer_todo_decoded : Option RpcRequest → State → Response × State
    answer_todo_decoded none s =
        (write_rpc none (rpc_error code_parse_error (codes "invalid JSON")), s)
    answer_todo_decoded (some req) s = answer_todo req s

    unfoldable pub handle_todo_mcp : (Text → Option Json) → Option Text → State → Response × State
    unfolding call_todo_tool answer_todo answer_todo_decoded
    handle_todo_mcp parse none s =
        (write_rpc none (rpc_error code_parse_error (codes "failed to read request body")), s)
    handle_todo_mcp parse (some body) s = answer_todo_decoded (decode_request parse body) s
