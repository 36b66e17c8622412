-- ===== src/Kube/Catalog.antt =====
-- availableTools of agent/mcp-server/server.go, as the JSON that it is sent as: json.Marshal writes
-- the members of a map in the order of their names.
use take.Prelude.{Text, codes}
use take.Json.{Json, str, arr, obj, Items, nil, cons, end, field}

-- {"description": …, "type": "string"}
abbrev text_property : Text → Json
text_property description = obj (
    field (codes "description") (str description) (field (codes "type") (str (codes "string")) end))

-- The schema of an object with the properties kind, name and namespace.
abbrev input_schema : Text → Text → Text → Items → Json
input_schema kind namespace name required = obj (
    field (codes "properties")
      (obj (
        field (codes "kind") (text_property kind) (
          field (codes "name") (text_property name)
            (field (codes "namespace") (text_property namespace) end))))
      (field (codes "required") (arr required) (field (codes "type") (str (codes "object")) end)))

abbrev tool : Text → Text → Json → Json
tool name description schema = obj (
    field (codes "name") (str name)
      (field (codes "description") (str description) (field (codes "inputSchema") schema end)))

unfoldable pub available_tools : Json
available_tools = arr (
    cons
      (tool (codes "k8s_get")
        (codes
          "Get or list a Kubernetes resource. Provide name to get a single resource, omit it to list. Never returns secrets.")
        (input_schema (codes "Resource kind, e.g. pods, deployments, services.")
          (codes "Namespace to query; omit to list across namespaces.")
          (codes "Specific resource name; omit to list.") (cons (str (codes "kind")) nil)))
      (cons
        (tool (codes "k8s_describe")
          (codes
            "Describe a Kubernetes resource, kubectl-describe style: object detail plus related Events. Never returns secrets.")
          (input_schema (codes "Resource kind, e.g. pod, deployment.")
            (codes "Namespace the resource lives in.") (codes "Resource name.")
            (cons (str (codes "kind"))
              (cons (str (codes "namespace")) (cons (str (codes "name")) nil)))))
        nil))
