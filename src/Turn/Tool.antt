-- ===== src/Turn/Tool.antt =====
-- The tool intents of `turn_process_events`: policy, arguments, run, history and answer.
pub mod Commands
use star_bridge.Base.{
  ℕ, ◌+◌, Bool, true, false, not, ◌||◌, Option, none, some, List, [], ◌∷◌, ◌++◌, if◌then◌else◌,
  Bytes, take, codes, is_empty, copy_bounded,
}
use star_bridge.Frame.Build.{Buffer, frame_build_tool_error, frame_build_tool_result}
use star_bridge.History.{tool_history_append}
use star_bridge.Tools.Policy.{
  ToolErrorKind, is_denied, args_valid, error_message, build_error_summary,
}
use star_bridge.Tools.Runner.{ToolRunResult, cleared, RunPlan, finished, spawn, tool_runner_run}
use star_bridge.Turn.State.{Env, Turn, sent, started, log}

-- `tool_history_append`, on the turn's history.
abbrev pub remember : Env → Bytes → Turn → Turn
remember env line t = record t { history = tool_history_append env.tool_history_max line t.history }

-- `engine_write_frame` with a frame that was built in a buffer.
abbrev pub send_built : Buffer → Turn → Turn
send_built frame t = log (sent frame.text) (record t { overrun = t.overrun || frame.overrun })

-- The end of a run: what its plan gives, and the child that it starts. `env.child` is what the loop of
-- tool_runner_run makes of a child that ends or is ended; one that goes on writing never is, since only
-- a silent round is charged to its timeout.
unfoldable pub finish_run : Env → RunPlan → Turn → ToolRunResult × Bool × Turn
finish_run env (finished result ok) t = (result, ok, t)
finish_run env (spawn command result) t =
    let ran = env.child command result in (ran.0, ran.1, log (started command) t)

-- A tool that the policy refuses, or whose arguments are not valid: the frame to send, and the turn.
unfoldable pub refuse_tool :
    Env → ToolErrorKind → Bytes → Bytes → ToolRunResult → Turn → Buffer × Turn
refuse_tool env kind name detail run t = (
  frame_build_tool_error env.request_id name (error_message kind),
  remember env (build_error_summary name kind detail 512) (record t { last_tool_run = run }),
)

-- A tool that is run: the frame to send, and the turn.
unfoldable pub run_tool : Env → Bytes → Bytes → Turn → Buffer × Turn
run_tool env name args t =
    let (result, ok, t') =
      finish_run env
        (tool_runner_run env.callback env.pipes env.pipe_error name args env.shell_command_enabled)
        t in
    let body : Bytes = if ok then result.result_json else codes "{\"status\":\"error\"}" in
    let line = codes "TOOL_RESULT " ++ (name ++ (codes " " ++ (take 256 args ++ codes "\n"))) in
    (
      frame_build_tool_result env.request_id name body,
      remember env (copy_bounded 1024 line) (record t' { last_tool_run = result }),
    )

-- A tool intent below the limit of cycles.
unfoldable pub do_tool : Env → Bytes → Bytes → Turn → Buffer × Turn
do_tool env name args t =
    let saved = record t {
      last_tool_name = copy_bounded 64 name;
      last_tool_args = copy_bounded 2048 (if is_empty args then codes "{}" else args);
      last_tool_run = cleared;
    } in
    if is_denied name
    then refuse_tool env ToolErrorKind.denied name [] (record cleared { denied = true }) saved
    else if not (args_valid name args)
    then refuse_tool env ToolErrorKind.malformed_args name args
        (record cleared { exit_code = some 1 }) saved
    else run_tool env name args saved
