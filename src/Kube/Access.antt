-- ===== src/Kube/Access.antt =====
-- Which calls agent/mcp-server makes to the Kubernetes API, against the resources that
-- agent/manifests/clusterrole-mcp-reader.yaml grants.
use take.Prelude.{
  ◌≡◌, refl, ◌≤◌, ◌+◌, ℕ, Bool, true, false, Option, none, some, Text, codes, text_eq, lookup, [],
  List, All, All-append, length, length-append, if◌then◌else◌, arith,
}
use take.Json.{Fields, Json}
use take.Kube.Kinds.{Resource, secrets}
use take.Kube.Tables.{lookup-all_rows, all_rows}
use take.Kube.Fetch.{
  Reply, reply, failure, Call, get, list, Client, Traced, Reader, readers, read_one, read_list,
  fetch_one, fetch_list, related_events,
}
use take.Kube.Tools.{
  arg, admit, and_then, get_admitted, describe_admitted, with_events, run_k8s_get, run_k8s_describe,
}
use take.Kube.Server.{
  CallToolParams, RpcRequest, tool_result, call_tool, call_decoded, handle_tools_call,
  decode_params, answer, answer_decoded, decode_request, handle_mcp,
}

-- The rule's resources, of which secrets is none.
abbrev pub granted : Resource → Bool
granted secrets = false
granted _ = true

abbrev pub call_resource : Call → Resource
call_resource (get r _ _) = r
call_resource (list r _) = r

-- A call that the role allows.
abbrev pub IsGranted : Call → Type 0
IsGranted c = granted (call_resource c) ≡ true

-- A result with at most `n` calls, each allowed.
unfoldable pub Reads : {A : Type 0} → ℕ → List Call × A → Type 0
Reads n r = (length (r.0) ≤ n) × All IsGranted (r.0)

readers-granted : all_rows (λ _ r. granted r.resource) readers ≡ true
readers-granted = refl

module _ (c : Client) where
  fetch_one-Reads :
      (canonical namespace name : Text) → Reads 1 (fetch_one c canonical namespace name)
  unfolding Reads fetch_one read_one
  fetch_one-Reads canonical namespace name = read (lookup canonical readers) refl
    where
      read :
          (o : Option Reader)
          → lookup canonical readers ≡ o
          → Reads 1 (read_one c o canonical namespace name)
      read none e = (omega arith, tt)
      read (some r) e = (
        omega arith,
        (lookup-all_rows (λ _ r. granted r.resource) canonical r readers readers-granted e, tt),
      )

  fetch_list-Reads : (canonical namespace : Text) → Reads 1 (fetch_list c canonical namespace)
  unfolding Reads fetch_list read_list
  fetch_list-Reads canonical namespace = read (lookup canonical readers) refl
    where
      read :
          (o : Option Reader)
          → lookup canonical readers ≡ o
          → Reads 1 (read_list c o canonical namespace)
      read none e = (omega arith, tt)
      read (some r) e = (
        omega arith,
        (lookup-all_rows (λ _ r. granted r.resource) canonical r readers readers-granted e, tt),
      )

and_then-Reads :
    {A B : Type 0} (n m : ℕ) (context : Text) (r : Traced A) (next : A → Traced B)
    → Reads n r
    → ((a : A) → Reads m (next a))
    → Reads (n + m) (and_then context r next)
unfolding Reads and_then
and_then-Reads n m context (calls, failure e) next (l, h) k = (omega arith, h)
and_then-Reads n m context (calls, reply a) next (l, h) k = (
  omega (arith, length-append calls (next a).0, (k a).0),
  All-append IsGranted calls (next a).0 h (k a).1,
)

pub if-Reads :
    {A : Type 0} (n : ℕ) (b : Bool) (x y : List Call × A)
    → Reads n x
    → Reads n y
    → Reads n (if b then x else y)
if-Reads n true x y h k = h
if-Reads n false x y h k = k

pub none-Reads : {A : Type 0} (n : ℕ) (a : A) → Reads n ([], a)
unfolding Reads
none-Reads n a = (omega arith, tt)

run_k8s_get-Reads : (client : Option Client) (args : Fields) → Reads 2 (run_k8s_get client args)
unfolding run_k8s_get get_admitted
run_k8s_get-Reads client args =
    if-Reads 2 _ _ _ (none-Reads 2 _) (admitted (admit client (arg (codes "kind") args)))
  where
    admitted :
        (r : Reply (Client × Text))
        → Reads 2 (get_admitted r (arg (codes "namespace") args) (arg (codes "name") args))
    admitted (failure e) = none-Reads 2 _
    admitted (reply (c, canonical)) =
        if-Reads 2 _ _ _ (and_then-Reads 1 1 _ _ _ (fetch_one-Reads c _ _ _) (λ s. none-Reads 1 _))
          (and_then-Reads 1 1 _ _ _ (fetch_list-Reads c _ _) (λ s. none-Reads 1 _))

with_events-Reads :
    (quote : Text → Text) (c : Client) (described namespace kube_kind name : Text)
    → Reads 1 (with_events quote described (related_events c namespace kube_kind name))
unfolding Reads with_events related_events
with_events-Reads quote c described namespace kube_kind name = (omega arith, (refl, tt))

run_k8s_describe-Reads :
    (quote : Text → Text) (client : Option Client) (args : Fields)
    → Reads 2 (run_k8s_describe quote client args)
unfolding run_k8s_describe describe_admitted
run_k8s_describe-Reads quote client args =
    if-Reads 2 _ _ _ (none-Reads 2 _) (admitted (admit client (arg (codes "kind") args)))
  where
    admitted :
        (r : Reply (Client × Text))
        → Reads 2
            (describe_admitted quote r (arg (codes "namespace") args) (arg (codes "name") args))
    admitted (failure e) = none-Reads 2 _
    admitted (reply (c, canonical)) = if-Reads 2 _ _ _ (none-Reads 2 _) (
        and_then-Reads 1 1 _ _ _ (fetch_one-Reads c _ _ _) (λ s. with_events-Reads quote c _ _ _ _))

module _ (quote : Text → Text) (decode_error : Option Json → Text)
    (parse : Text → Option Json) where
  tool_result-Reads : (r : Traced Text) → Reads 2 r → Reads 2 (tool_result quote r)
  unfolding Reads tool_result
  tool_result-Reads (calls, reply t) h = h
  tool_result-Reads (calls, failure e) h = h

  same-Reads : {A B : Type 0} (r : List Call × A) (b : B) → Reads 2 r → Reads 2 (r.0, b)
  unfolding Reads
  same-Reads r b h = h

  call_decoded-Reads :
      (client : Option Client) (raw : Option Json) (o : Option CallToolParams)
      → Reads 2 (call_decoded quote decode_error client raw o)
  unfolding call_decoded call_tool
  call_decoded-Reads client raw none = none-Reads 2 _
  call_decoded-Reads client raw (some p) =
      if-Reads 2 _ _ _ (tool_result-Reads _ (run_k8s_get-Reads client p.arguments)) (
        if-Reads 2 _ _ _ (tool_result-Reads _ (run_k8s_describe-Reads quote client p.arguments))
          (none-Reads 2 _))

  answer_decoded-Reads :
      (client : Option Client) (o : Option RpcRequest)
      → Reads 2 (answer_decoded quote decode_error parse client o)
  unfolding answer_decoded answer handle_tools_call
  answer_decoded-Reads client none = none-Reads 2 _
  answer_decoded-Reads client (some req) =
      if-Reads 2 (text_eq req.method (codes "initialize")) _ _ (none-Reads 2 _) (
        if-Reads 2 (text_eq req.method (codes "tools/list")) _ _ (none-Reads 2 _) (
          if-Reads 2 (text_eq req.method (codes "tools/call")) _ _
            (same-Reads _ _ (call_decoded-Reads client req.params (decode_params req.params)))
            (none-Reads 2 _)))

  -- Any body posted to /mcp causes at most two calls to the Kubernetes API, each of a resource of
  -- the ClusterRole, so none of Secrets.
  pub handle_mcp-Reads :
      (client : Option Client) (body : Option Text)
      → Reads 2 (handle_mcp quote decode_error parse client body)
  unfolding handle_mcp
  handle_mcp-Reads client none = none-Reads 2 _
  handle_mcp-Reads client (some body) = answer_decoded-Reads client (decode_request parse body)
