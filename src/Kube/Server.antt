-- ===== src/Kube/Server.antt =====
-- agent/mcp-server/server.go: the JSON-RPC handler of /mcp. The syntax of JSON is the parameter
-- `parse`, the text of a json.Unmarshal error `decode_error`, fmt's %q `quote`.
use take.Prelude.{
  Bool, true, false, Option, none, some, List, [], ◌++◌, Text, codes, text_eq, if◌then◌else◌, ℤ,
  negsuc,
}
use take.Json.{
  Json, null, bool, int, str, arr, obj, nil, cons, Fields, end, field, names, read_text,
  read_struct,
}
use take.Http.{Response, write_json}
use take.Kube.Fetch.{reply, failure, Call, Client, Traced}
use take.Kube.Tools.{run_k8s_get, run_k8s_describe, error_text}
use take.Kube.Catalog.{available_tools}

-- json.RawMessage is the document, `none` when the member is missing.
pub record RpcRequest : Type 0 where
  pub jsonrpc : Text
  pub id : Option Json
  pub method : Text
  pub params : Option Json

unfoldable pub rpc_member : Text → Json → RpcRequest → Option RpcRequest
rpc_member k v req =
    if names (codes "jsonrpc") k
    then (elim (read_text v req.jsonrpc) [
      | none ↦ none
      | some t ↦ some (record req { jsonrpc = t })
    ])
    else if names (codes "id") k
    then some (record req { id = some v })
    else if names (codes "method") k
    then (elim (read_text v req.method) [ none ↦ none | some t ↦ some (record req { method = t }) ])
    else if names (codes "params") k
    then some (record req { params = some v })
    else some req

-- The result of tools/call: the text of its one block, and isError.
pub record ToolCallResult : Type 0 where
  pub text : Text
  pub is_error : Bool

pub record CallToolParams : Type 0 where
  pub name : Text
  pub arguments : Fields

abbrev append_fields : Fields → Fields → Fields
append_fields end more = more
append_fields (field k v rest) more = field k v (append_fields rest more)

-- Into a map[string]any: `null` empties it, an object adds its members.
abbrev read_map : Json → Fields → Option Fields
read_map null old = some end
read_map (obj fs) old = some (append_fields old fs)
read_map _ old = none

unfoldable pub params_member : Text → Json → CallToolParams → Option CallToolParams
params_member k v p =
    if names (codes "name") k
    then (elim (read_text v p.name) [ none ↦ none | some t ↦ some (record p { name = t }) ])
    else if names (codes "arguments") k
    then (elim (read_map v p.arguments) [
      | none ↦ none
      | some fs ↦ some (record p { arguments = fs })
    ])
    else some p

-- What a member with omitempty adds.
abbrev optional : Text → Option Json → Fields → Fields
optional k none rest = rest
optional k (some v) rest = field k v rest

unfoldable pub encode_result : ToolCallResult → Json
encode_result r = obj (
    field (codes "content")
      (arr (
        cons
          (obj (field (codes "type") (str (codes "text")) (field (codes "text") (str r.text) end)))
          nil))
      (if r.is_error then field (codes "isError") (bool true) end else end))

-- The outcome of a request: `result` or `error` of the response.
pub data RpcOutcome : Type 0 where
  result : Json → RpcOutcome
  rpc_error : ℤ → Text → RpcOutcome

abbrev outcome_fields : RpcOutcome → Fields
outcome_fields (result j) = field (codes "result") j end
outcome_fields (rpc_error code message) =
    field (codes "error")
      (obj (field (codes "code") (int code) (field (codes "message") (str message) end))) end

unfoldable pub write_rpc : Option Json → RpcOutcome → Response
write_rpc id o = write_json 200 (
    obj (field (codes "jsonrpc") (str (codes "2.0")) (optional (codes "id") id (outcome_fields o))))

abbrev pub code_parse_error : ℤ
code_parse_error = negsuc 32699

abbrev pub code_method_not_found : ℤ
code_method_not_found = negsuc 32600

unfoldable pub initialized : Json
initialized = obj (
    field (codes "capabilities") (obj (field (codes "tools") (obj end) end)) (
      field (codes "protocolVersion") (str (codes "2024-11-05")) (
        field (codes "serverInfo")
          (obj (
            field (codes "name") (str (codes "klyde-mcp-server"))
              (field (codes "version") (str (codes "0.2.0-milestone2")) end)))
          end)))

abbrev zero_request : RpcRequest
zero_request = record { jsonrpc = []; id = none; method = []; params = none }

abbrev zero_params : CallToolParams
zero_params = record { name = []; arguments = end }

unfoldable pub decode_params : Option Json → Option CallToolParams
unfolding params_member
decode_params none = none
decode_params (some j) = read_struct params_member j zero_params

unfoldable pub decode_request : (Text → Option Json) → Text → Option RpcRequest
unfolding rpc_member
decode_request parse body = elim (parse body) [
  | none ↦ none
  | some j ↦ read_struct rpc_member j zero_request
]

module _ (quote : Text → Text) where
  unfoldable pub tool_result : Traced Text → List Call × ToolCallResult
  tool_result (calls, reply text) = (calls, record { text = text; is_error = false })
  tool_result (calls, failure e) = (calls, record { text = error_text quote e; is_error = true })

  unfoldable pub call_tool : Option Client → CallToolParams → List Call × ToolCallResult
  unfolding tool_result
  call_tool client p =
      if text_eq p.name (codes "k8s_get")
      then tool_result (run_k8s_get client p.arguments)
      else if text_eq p.name (codes "k8s_describe")
      then tool_result (run_k8s_describe quote client p.arguments)
      else ([], record { text = codes "unknown tool: " ++ p.name; is_error = true })

  module _ (decode_error : Option Json → Text) where
    unfoldable pub call_decoded :
        Option Client → Option Json → Option CallToolParams → List Call × ToolCallResult
    call_decoded client raw none = (
      [],
      record { text = codes "invalid tools/call params: " ++ decode_error raw; is_error = true },
    )
    call_decoded client raw (some p) = call_tool client p

    unfoldable pub handle_tools_call : Option Client → Option Json → List Call × ToolCallResult
    unfolding call_decoded decode_params
    handle_tools_call client raw = call_decoded client raw (decode_params raw)

    module _ (parse : Text → Option Json) where
      unfoldable pub answer : Option Client → RpcRequest → List Call × Response
      answer client req =
          if text_eq req.method (codes "initialize")
          then ([], write_rpc req.id (result initialized))
          else if text_eq req.method (codes "tools/list")
          then ([], write_rpc req.id (result (obj (field (codes "tools") available_tools end))))
          else if text_eq req.method (codes "tools/call")
          then (let r = handle_tools_call client req.params in
              (r.0, write_rpc req.id (result (encode_result r.1))))
          else (
            [],
            write_rpc req.id
                (rpc_error code_method_not_found (codes "method not found: " ++ req.method)),
          )

      -- After json.Unmarshal.
      unfoldable pub answer_decoded : Option Client → Option RpcRequest → List Call × Response
      answer_decoded client none =
          ([], write_rpc none (rpc_error code_parse_error (codes "invalid JSON")))
      answer_decoded client (some req) = answer client req

      -- A body of `none` is one that could not be read.
      unfoldable pub handle_mcp : Option Client → Option Text → List Call × Response
      unfolding answer_decoded answer decode_request
      handle_mcp client none =
          ([], write_rpc none (rpc_error code_parse_error (codes "failed to read request body")))
      handle_mcp client (some body) = answer_decoded client (decode_request parse body)
