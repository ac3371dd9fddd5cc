-- ===== src/Turn/Tool/Commands.antt =====
-- A tool intent keeps what holds of a running turn: the child that it may start is a validated command.
use star_bridge.Base.{
  ℕ, ◌≡◌, refl, not, if◌then◌else◌, Bytes, codes, is_empty, copy_bounded, if-both,
}
use star_bridge.Frame.Build.{Buffer}
use star_bridge.Tools.Policy.{is_denied, args_valid}
use star_bridge.Tools.Runner.{ToolRunResult, cleared, RunPlan, finished, spawn, tool_runner_run}
use star_bridge.Tools.Runner.Gate.{tool_runner_run-spawn}
use star_bridge.Turn.State.{Env, Turn, sent, started}
use star_bridge.Turn.Sound.{Commanded, Sound, log-Sound}
use star_bridge.Turn.Tool.{finish_run, refuse_tool, run_tool, do_tool, send_built}

-- The child of a run is a command that was validated, and shell commands are enabled.
tool_runner_run-Commanded :
    (env : Env) (name args command : Bytes) (result : ToolRunResult)
    → tool_runner_run env.callback env.pipes env.pipe_error name args env.shell_command_enabled
      ≡ spawn command result
    → Commanded env command
tool_runner_run-Commanded env name args command result e =
    let (shell, enabled, piped, found) =
      tool_runner_run-spawn env.callback env.pipes env.pipe_error name args command
        env.shell_command_enabled result e in
    (enabled, (args, found))

module _ {env : Env} {limit : ℕ} where
  finish_run-Sound :
      (plan : RunPlan) (t : Turn)
      → ((command : Bytes) (result : ToolRunResult)
          → plan ≡ spawn command result
          → Commanded env command)
      → Sound env limit t
      → Sound env limit (finish_run env plan t).2
  unfolding finish_run
  finish_run-Sound (finished result ok) t commanded v = v
  finish_run-Sound (spawn command result) t commanded v =
      log-Sound (started command) t (commanded command result refl) v

  run_tool-Sound :
      (name args : Bytes) (t : Turn)
      → Sound env limit t
      → Sound env limit (run_tool env name args t).1
  unfolding run_tool
  run_tool-Sound name args t v =
      finish_run-Sound
        (tool_runner_run env.callback env.pipes env.pipe_error name args env.shell_command_enabled)
        t (tool_runner_run-Commanded env name args) v

  pub do_tool-Sound :
      (name args : Bytes) (t : Turn)
      → Sound env limit t
      → Sound env limit (do_tool env name args t).1
  unfolding do_tool refuse_tool
  do_tool-Sound name args t v =
      let P : Buffer × Turn → Type 0 = λ r. Sound env limit r.1 in
      let saved : Turn = record t {
        last_tool_name = copy_bounded 64 name;
        last_tool_args = copy_bounded 2048 (if is_empty args then codes "{}" else args);
        last_tool_run = cleared;
      } in
      if-both P (is_denied name) v
        (if-both P (not (args_valid name args)) v (run_tool-Sound name args saved v))

  pub send_built-Sound :
      (frame : Buffer) (t : Turn) → Sound env limit t → Sound env limit (send_built frame t)
  send_built-Sound frame t v = log-Sound (sent frame.text) t tt v
