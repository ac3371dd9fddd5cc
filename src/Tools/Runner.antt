-- ===== src/Tools/Runner.antt =====
-- src/tool_runner.c: `tool_runner_run` up to the point where it starts a child, and what it does
-- with the child's output. The registered callback, pipe(2) and the child are parameters.
pub mod Gate
use star_bridge.Base.{
  ℕ, ◌-◌, Bool, true, false, not, ◌&&◌, ◌||◌, Option, none, some, List, [], ◌∷◌, ◌++◌,
  if◌then◌else◌, Bytes, take, str_eq, is_empty, codes, copy_bounded, contains,
}
use star_bridge.Tools.Json.{object_field}
use star_bridge.Tools.Policy.{is_denied, args_valid}

-- `ToolRunResult`; the exit code -1 is `none`.
pub record ToolRunResult : Type 0 where
  pub tool_name : Bytes
  pub result_json : Bytes
  pub stderr_text : Bytes
  pub exit_code : Option ℕ
  pub timed_out : Bool
  pub denied : Bool
  pub truncated : Bool
  pub ok : Bool

-- The result after `memset`.
abbrev pub cleared : ToolRunResult
cleared = record {
  tool_name = [];
  result_json = [];
  stderr_text = [];
  exit_code = some 0;
  timed_out = false;
  denied = false;
  truncated = false;
  ok = false;
}

-- A `ToolAppCallback`: what it returns, and what it leaves in the two buffers.
abbrev pub AppCallback : Type 0
AppCallback = Bytes → Bytes → Bool × Bytes × Bytes

-- How a run goes on: it returns at once, or it starts `sh -c command` with the result so far.
pub data RunPlan : Type 0 where
  finished : ToolRunResult → Bool → RunPlan
  spawn : Bytes → ToolRunResult → RunPlan

-- `build_command_args`: the payload, in a buffer of 4096 bytes.
unfoldable pub build_command_args : Bytes → Bytes → Bytes
build_command_args name args =
    let command : Bytes = elim (object_field 4096 args (codes "command")) [
      | none ↦ []
      | some v ↦ v
    ] in
    if str_eq name (codes "shell_command") then command else copy_bounded 4096 args

-- From the creation of the pipes to the start of the child. `pipes` says whether both exist;
-- `reason` is the message if they do not.
unfoldable pub start_child : Bool → Bytes → Bytes → Bytes → Bool → ToolRunResult → RunPlan
start_child pipes reason name args shell_enabled out =
    if not pipes
    then finished (record out { stderr_text = copy_bounded 8192 (codes "pipe failed: " ++ reason) })
        false
    else if str_eq name (codes "shell_command") && shell_enabled
    then spawn (build_command_args name args) out
    else finished
        (record out {
          ok = false;
          exit_code = some 1;
          stderr_text =
              copy_bounded 8192 (codes "tool '" ++ (name ++ codes "' not supported by bridge"));
        })
        false

-- The registered callback, if there is one and the tool is its business.
unfoldable pub ask_callback :
    Option AppCallback → Bytes → Bytes → ToolRunResult → ToolRunResult × Bool
ask_callback none name args out = (out, false)
ask_callback (some callback) name args out =
    let answer = callback name args in
    let out' = record out { result_json = answer.1; stderr_text = answer.2 } in
    if str_eq name (codes "shell_command")
    then (out, false)
    else if answer.0
    then (record out' { ok = true; exit_code = some 0 }, true)
    else (out', false)

-- `tool_runner_run`, to the start of the child.
unfoldable pub tool_runner_run : Option AppCallback → Bool → Bytes → Bytes → Bytes → Bool → RunPlan
tool_runner_run callback pipes reason name args shell_enabled =
    let out = record cleared { tool_name = copy_bounded 64 name } in
    let asked = ask_callback callback name args out in
    if is_empty name
    then finished cleared false
    else if is_denied name
    then finished (record out { denied = true }) false
    else if str_eq name (codes "shell_command") && not shell_enabled
    then finished
        (record out { denied = true; stderr_text = codes "shell_command disabled by policy" }) false
    else if not (args_valid name args)
    then finished out false
    else if str_eq name (codes "google_search") || str_eq name (codes "browse_url")
    then finished
        (record out {
          exit_code = some 1;
          stderr_text = copy_bounded 8192 (
              codes "tool '"
              ++ (name ++ codes "' not supported by bridge; agent handles browsing natively"));
        })
        false
    else if asked.1
    then finished asked.0 true
    else start_child pipes reason name args shell_enabled asked.0
