-- ===== src/Keda/Catalog.antt =====
-- availableTools of keda/mcp-server/server.go, as the JSON that it is sent as: json.Marshal writes
-- the members of a map in the order of their names.
use take.Prelude.{Text, codes}
use take.Json.{Json, str, arr, obj, nil, cons, Fields, end, field}

-- A property of a schema, with its type.
abbrev property : Text → Text → Json
property type' description =
    obj (field (codes "description") (str description) (field (codes "type") (str type') end))

abbrev object_type : Fields
object_type = field (codes "type") (str (codes "object")) end

abbrev todo_tool : Text → Text → Json → Json
todo_tool name description schema = obj (
    field (codes "name") (str name)
      (field (codes "description") (str description) (field (codes "inputSchema") schema end)))

-- The schema of a todo's id alone.
abbrev id_schema : Json
id_schema = obj (
    field (codes "properties")
      (obj (field (codes "id") (property (codes "integer") (codes "The todo's id.")) end))
      (field (codes "required") (arr (cons (str (codes "id")) nil)) object_type))

unfoldable pub todo_tools : Json
todo_tools = arr (
    cons
      (todo_tool (codes "list_todos")
        (codes
          "List all todos, merged with their priority, sorted by priority (descending) then id. Priority defaults to 0 if never set.")
        (obj (field (codes "properties") (obj end) object_type)))
      (cons
        (todo_tool (codes "add_todo")
          (codes "Create a new todo. Starts at priority 0 until set_priority is called on it.")
          (obj (
            field (codes "properties")
              (obj
                (field (codes "text") (property (codes "string") (codes "The todo's text.")) end))
              (field (codes "required") (arr (cons (str (codes "text")) nil)) object_type))))
        (cons
          (todo_tool (codes "set_priority")
            (codes
              "Set a todo's priority, an integer from 0 (lowest) to 100 (highest/most urgent).")
            (obj (
              field (codes "properties")
                (obj (
                  field (codes "id") (property (codes "integer") (codes "The todo's id.")) (
                    field (codes "priority")
                      (property (codes "integer") (codes "0-100, higher is more urgent.")) end)))
                (field (codes "required")
                  (arr (cons (str (codes "id")) (cons (str (codes "priority")) nil)))
                  object_type))))
          (cons (todo_tool (codes "complete_todo") (codes "Mark a todo as done.") id_schema) (
            cons (todo_tool (codes "delete_todo") (codes "Permanently delete a todo.") id_schema)
              nil)))))
