-- ===== src/Tools/Policy.antt =====
-- src/tool_policy.c: which tools are refused, which run unasked, and which arguments are valid.
pub mod Laws
use star_bridge.Base.{
  ℕ, ◌-◌, Bool, true, false, not, ◌&&◌, ◌||◌, Option, none, some, List, [], ◌∷◌, ◌++◌,
  if◌then◌else◌, Bytes, take, str_eq, is_empty, codes, copy_bounded,
}
use star_bridge.Tools.Json.{object_field}

-- `ToolErrorKind`
pub data ToolErrorKind : Type 0 where
  denied malformed_args timeout unknown : ToolErrorKind

-- `tool_policy_is_denied`
unfoldable pub is_denied : Bytes → Bool
is_denied name = str_eq name (codes "shell")

-- `tool_policy_is_safe_tool`
unfoldable pub is_safe_tool : Bytes → Bool
is_safe_tool name =
    str_eq name (codes "google_search")
    || str_eq name (codes "browse_url")
    || str_eq name (codes "read")
    || str_eq name (codes "list")
    || str_eq name (codes "search")
    || str_eq name (codes "visit_page")

-- `tool_policy_requires_permission`
unfoldable pub requires_permission : Bytes → Bool
requires_permission name = not (is_safe_tool name) && not (is_denied name)

-- `tool_args_exact_object_field`: the value's buffer has 2048 bytes.
unfoldable pub exact_object_field : Bytes → Bytes → Bool
exact_object_field json field = elim (object_field 2048 json field) [ none ↦ false | some v ↦ true ]

-- `tool_policy_args_valid`
unfoldable pub args_valid : Bytes → Bytes → Bool
args_valid name args =
    if is_empty name || is_empty args
    then false
    else if str_eq name (codes "google_search")
    then exact_object_field args (codes "query")
    else if str_eq name (codes "browse_url")
    then exact_object_field args (codes "url")
    else if str_eq name (codes "shell_command")
    then exact_object_field args (codes "command")
    else true

-- `tool_policy_error_message`
pub error_message : ToolErrorKind → Bytes
error_message denied = codes "tool denied by bridge policy"
error_message malformed_args = codes "malformed tool arguments"
error_message timeout = codes "tool execution timeout"
error_message unknown = codes "tool execution failed"

-- `tool_policy_build_error_summary`, into a buffer of `max_len` bytes.
pub build_error_summary : Bytes → ToolErrorKind → Bytes → ℕ → Bytes
build_error_summary name kind detail max_len =
    let spaced = if is_empty detail then [] else codes " " ++ detail in
    copy_bounded max_len (
      codes "TOOL_ERROR "
      ++ (name ++ (codes " " ++ (error_message kind ++ (spaced ++ codes "\n")))))
