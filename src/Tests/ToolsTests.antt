-- ===== src/Tests/ToolsTests.antt =====
-- The tool policy and the tool runner on concrete calls.
use star_bridge.Base.{◌≡◌, refl, ◌<◌, true, some, [], length, Bytes, codes, str_eq}
use star_bridge.Tools.Json.{
  object_field, read_key, read_value, read_end, skip_ws, expect, decode_string, decode_loop,
  unescape,
}
use star_bridge.Tools.Json.Grammar.{IsObject, object_field-IsObject}
use star_bridge.Tools.Policy.{args_valid, exact_object_field, is_denied}
use star_bridge.Tools.Policy.Laws.{shell_line, args_valid-IsObject}
use star_bridge.Tools.Runner.{
  tool_runner_run, ask_callback, start_child, build_command_args, AppCallback, spawn, cleared,
}
use star_bridge.Tools.Runner.Gate.{shell, tool_runner_run-spawn, tool_runner_run-shell}

-- A field with white space around its parts and an escape in its value.
abbrev list_files : Bytes
list_files = codes " { \"command\" : \"ls \\t.\" }"

abbrev ls : Bytes
ls = codes "ls \t."

-- A callback that takes every tool.
abbrev agent : AppCallback
agent name args = (true, codes "{}", [])

reads_command : object_field 2048 list_files (codes "command") ≡ some ls
unfolding object_field read_key read_value read_end skip_ws expect decode_string decode_loop
    unescape str_eq
reads_command = refl

object_field-IsObject_example :
    IsObject list_files (codes "command") ls × (0 < length ls) × (length ls < 2048)
object_field-IsObject_example =
    object_field-IsObject 2048 list_files (codes "command") ls reads_command

valid_command : args_valid shell list_files ≡ true
unfolding args_valid exact_object_field object_field read_key read_value read_end skip_ws expect
    decode_string decode_loop unescape str_eq
valid_command = refl

args_valid-IsObject_example :
    (value : Bytes) × IsObject list_files (codes "command") value
    × (0 < length value)
    × (length value < 2048)
args_valid-IsObject_example =
    args_valid-IsObject shell (codes "command") list_files
      (shell_line shell (codes "command") refl refl) valid_command

tool_runner_run-shell_example :
    tool_runner_run (some agent) true [] shell list_files true
    ≡ spawn ls (record cleared { tool_name = shell })
tool_runner_run-shell_example = tool_runner_run-shell (some agent) [] list_files ls reads_command

starts_shell :
    tool_runner_run (some agent) true [] shell list_files true
    ≡ spawn ls (record cleared { tool_name = shell })
unfolding tool_runner_run ask_callback start_child build_command_args is_denied args_valid
    exact_object_field object_field read_key read_value read_end skip_ws expect decode_string
    decode_loop unescape str_eq
starts_shell = refl

tool_runner_run-spawn_example :
    (shell ≡ shell)
    × (true ≡ true)
    × (true ≡ true)
    × (object_field 2048 list_files (codes "command") ≡ some ls)
tool_runner_run-spawn_example =
    tool_runner_run-spawn (some agent) true [] shell list_files ls true
      (record cleared { tool_name = shell }) starts_shell
