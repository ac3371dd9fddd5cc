-- ===== src/Tools/Runner/Gate.antt =====
-- The only child that a tool run starts is a validated, enabled shell command.
use star_bridge.Base.{
  ℕ, ◌≤◌, ◌≡◌, refl, ap₂, sym, ◌∙◌, ◌≢◌, inl, inr, Bool, true, false, ◌&&◌, Option, none, some, [],
  ◌∷◌, if◌then◌else◌, Bytes, str_eq, str_eq_iff, codes, copy_bounded, ◌++◌, arith, Bool-cases,
  Option-cases,
}
use star_bridge.Tools.Json.{
  decode_loop, decode_string, unescape, read_value, object_field, read_key, expect, skip_ws,
}
use star_bridge.Tools.Policy.{is_denied, exact_object_field}
use star_bridge.Tools.Policy.Laws.{Checked, shell_line, args_valid-Checked, exact_object_field-true}
use star_bridge.Tools.Runner.{
  AppCallback, finished, spawn, start_child, ask_callback, build_command_args, tool_runner_run,
  ToolRunResult, cleared,
}

-- A larger buffer decodes whatever a smaller one does.
decode_loop_mono :
    (m n : ℕ) (out s : Bytes) {r : Bytes × Bytes}
    → m ≤ n
    → decode_loop m out s ≡ some r
    → decode_loop n out s ≡ some r
unfolding decode_loop
decode_loop_mono m n out [] le h = h
decode_loop_mono m n out (c ∷ []) le h = h
decode_loop_mono m n out (c ∷ e ∷ p) {r} le h = elim (Option-cases (unescape e)) [
  | inl unknown ↦ ground (arith, decode_loop_mono m n (out ++ (c ∷ [])) (e ∷ p) {r = r} le)
  | inr (v, known) ↦ ground (
    arith,
    decode_loop_mono m n (out ++ (c ∷ [])) (e ∷ p) {r = r} le,
    decode_loop_mono m n (out ++ (v ∷ [])) p {r = r} le,
  )
]

decode_string_mono :
    (m n : ℕ) (s : Bytes) {r : Bytes × Bytes}
    → m ≤ n
    → decode_string m s ≡ some r
    → decode_string n s ≡ some r
unfolding decode_string
decode_string_mono m n [] le h = h
decode_string_mono m n (c ∷ s) {r} le h = ground (arith, decode_loop_mono m n [] s {r = r} le)

read_value_mono :
    (m n : ℕ) (s : Bytes) {r : Bytes × Bytes}
    → m ≤ n
    → read_value m s ≡ some r
    → read_value n s ≡ some r
unfolding read_value
read_value_mono m n s {r} le h = elim (Option-cases (expect b':' (skip_ws s))) [
  | inl missing ↦ ground arith
  | inr (p, found) ↦ ground (arith, decode_string_mono m n (skip_ws p) {r = r} le)
]

object_field_mono :
    (m n : ℕ) (json field : Bytes) {v : Bytes}
    → m ≤ n
    → object_field m json field ≡ some v
    → object_field n json field ≡ some v
unfolding object_field
object_field_mono m n json field {v} le h = elim (Option-cases (read_key json)) [
  | inl missing ↦ ground arith
  | inr ((key, p), found) ↦ elim (Option-cases (read_value m p)) [
    | inl bad ↦ ground arith
    | inr (w, read) ↦ ground (arith, read_value_mono m n p {r = w} le)
  ]
]

abbrev pub shell : Bytes
shell = codes "shell_command"

shell-Checked : Checked shell (codes "command")
shell-Checked = shell_line shell (codes "command") refl refl

-- What the arguments of an enabled shell command decide.
shell_run :
    (callback : Option AppCallback) (pipes : Bool) (reason args : Bytes)
    → tool_runner_run callback pipes reason shell args true ≡ (
        if exact_object_field args (codes "command")
        then start_child pipes reason shell args true (record cleared { tool_name = shell })
        else finished (record cleared { tool_name = shell }) false)
unfolding tool_runner_run ask_callback is_denied str_eq
shell_run none pipes reason args = elim (Bool-cases (exact_object_field args (codes "command"))) [
  | inl good ↦ rw (args_valid-Checked shell (codes "command") args shell-Checked, good)
  | inr bad ↦ rw (args_valid-Checked shell (codes "command") args shell-Checked, bad)
]
shell_run (some callback) pipes reason args =
    elim (Bool-cases (exact_object_field args (codes "command"))) [
      | inl good ↦ rw (args_valid-Checked shell (codes "command") args shell-Checked, good)
      | inr bad ↦ rw (args_valid-Checked shell (codes "command") args shell-Checked, bad)
    ]

shell_start :
    (pipes : Bool) (reason args command : Bytes) (out : ToolRunResult)
    → object_field 2048 args (codes "command") ≡ some command
    → start_child pipes reason shell args true out ≡ (
        if pipes
        then spawn command out
        else finished
            (record out { stderr_text = copy_bounded 8192 (codes "pipe failed: " ++ reason) })
            false)
unfolding start_child build_command_args str_eq
shell_start true reason args command out found =
    rw (object_field_mono 2048 4096 args (codes "command") (omega arith) found)
shell_start false reason args command out found = refl

-- Any other tool, and a shell command that is disabled, starts no child.
no_spawn :
    (callback : Option AppCallback) (pipes : Bool) (reason name args command : Bytes)
    (enabled : Bool) (out : ToolRunResult)
    → (str_eq name shell && enabled) ≡ false
    → tool_runner_run callback pipes reason name args enabled ≢ spawn command out
unfolding tool_runner_run ask_callback start_child
no_spawn none pipes reason name args command enabled out other h = ground arith
no_spawn (some callback) pipes reason name args command enabled out other h = ground arith

exact_object_field-eq :
    (args field value : Bytes)
    → object_field 2048 args field ≡ some value
    → exact_object_field args field ≡ true
unfolding exact_object_field
exact_object_field-eq args field value found = rw (found, exact_object_field)

spawned :
    (pipes : Bool) (reason args command : Bytes) (out : ToolRunResult)
    → (if exact_object_field args (codes "command")
        then start_child pipes reason shell args true (record cleared { tool_name = shell })
        else finished (record cleared { tool_name = shell }) false)
      ≡ spawn command out
    → (pipes ≡ true) × (object_field 2048 args (codes "command") ≡ some command)
spawned pipes reason args command out h =
    elim (Bool-cases (exact_object_field args (codes "command"))) [
      | inr bad ↦ absurd (cc (rw bad at h))
      | inl ok ↦
          let (value, found) = exact_object_field-true args (codes "command") ok in
          ground (
            arith,
            shell_start pipes reason args value (record cleared { tool_name = shell }) found,
          )
    ]

-- If `tool_runner_run` starts a child for `command`, then the tool is `shell_command`, shell commands
-- are enabled, both pipes exist, and `command` is the whole text that the validation of the
-- arguments decoded from the field "command".
pub tool_runner_run-spawn :
    (callback : Option AppCallback) (pipes : Bool) (reason name args command : Bytes)
    (enabled : Bool) (out : ToolRunResult)
    → tool_runner_run callback pipes reason name args enabled ≡ spawn command out
    → (name ≡ shell)
      × (enabled ≡ true)
      × (pipes ≡ true)
      × (object_field 2048 args (codes "command") ≡ some command)
tool_runner_run-spawn callback pipes reason name args command enabled out h =
    elim (Bool-cases (str_eq name shell && enabled)) [
      | inr other ↦ absurd (no_spawn callback pipes reason name args command enabled out other h)
      | inl both ↦
          let named : name ≡ shell = (str_eq_iff name shell).0 (ground arith) in
          let on : enabled ≡ true = ground arith in
          let run =
            sym (shell_run callback pipes reason args)
            ∙ ap₂ (λ n e. tool_runner_run callback pipes reason n args e) (sym named) (sym on)
            ∙ h in
          let (whole, found) = spawned pipes reason args command out run in
          (named, on, whole, found)
    ]

-- A valid command of an enabled `shell_command` is started, if both pipes exist.
pub tool_runner_run-shell :
    (callback : Option AppCallback) (reason args command : Bytes)
    → object_field 2048 args (codes "command") ≡ some command
    → tool_runner_run callback true reason shell args true
      ≡ spawn command (record cleared { tool_name = shell })
tool_runner_run-shell callback reason args command found =
    shell_run callback true reason args
    ∙ rw (exact_object_field-eq args (codes "command") command found)
        (shell_start true reason args command _ found)
