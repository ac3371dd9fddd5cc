-- ===== src/Turn/Begin.antt =====
-- `turn_begin` of src/turn_context.c: the session of a turn, and its request. With the session calls of
-- src/bridge_core.c.
pub mod Compatible
pub mod Loads
use star_bridge.Base.{
  ℕ, ◌+◌, ◌-◌, Bool, true, false, not, ◌&&◌, ◌||◌, Option, none, some, List, [], ◌∷◌, ◌++◌, ltb,
  leb, if◌then◌else◌, Bytes, length, codes, str_eq, is_empty, contains, copy_bounded,
}
use star_bridge.Escape.{json_escape}
use star_bridge.Sessions.{
  ℤ, pos, SessionIndex, session_key_for, compute_session_key, session_index_lookup,
  session_index_get_workspace, session_index_get_model_id, session_index_update,
}
use star_bridge.Frame.Build.{Request, show_int, frame_build_request}
use star_bridge.History.Render.{tool_history_build_json}
use star_bridge.Turn.Tool.{send_built}
use star_bridge.Turn.State.{
  Read, no_frame, Env, Turn, sent, log, engine_send_error, engine_read_frame_timeout,
}
use star_bridge.Turn.Fields.{find_after}
use star_bridge.Turn.States.{
  Begin, Opening, StateCall, call_size, call_text, complain, engine_create_session_state,
  engine_load_session_state, engine_switch_session_state, is_accepted, learn, new_state_id,
  or_complain, save_before_switch, state_call, until_quote, load_state, save_state, switch_state,
  create_state,
}

-- The configuration's session and its key.
abbrev pub enter_session : Opening → Bytes → Begin → Begin
enter_session o id b = record b {
  turn = record b.turn {
    session_id = copy_bounded 256 id;
    session_key = compute_session_key (some o.env.workspace) (some id);
  };
}

-- A stored text that is not the expected one refuses a state.
unfoldable pub refuse_other :
    Opening → Bytes → Option Bytes → Bytes → Option Bytes × Begin → Option Bytes × Begin
refuse_other o detail (some stored) expected (some state_id, b) =
    if str_eq stored expected
    then (some state_id, b)
    else (none, complain o (codes "session_incompatible_state") detail b)
refuse_other o detail _ expected state = state

-- The state of a key, unless it was stored for another workspace or another model.
unfoldable pub compatible_state : Opening → Bytes → Bytes → Bytes → Begin → Option Bytes × Begin
compatible_state o workspace_detail model_detail key b =
    refuse_other o model_detail (session_index_get_model_id (some key) b.index) o.env.codex_model (
      refuse_other o workspace_detail (session_index_get_workspace (some key) b.index)
        o.env.workspace (session_index_lookup (some key) b.index, b))

-- `can_load`, with the policy.
abbrev pub can_load : Opening → Bool
can_load o = o.auto_load_project_session && not (str_eq o.kv_cache_policy (codes "manual"))

-- The branch of a fresh session.
unfoldable pub begin_reset : Opening → Begin → Begin
begin_reset o b =
    let entered = enter_session o o.reset_name b in
    let (created, b') = engine_create_session_state o entered.turn.session_key entered in
    if is_empty entered.turn.session_key
    then entered
    else if created
    then record b' { last_session_id = copy_bounded 256 o.reset_name }
    else complain o (codes "session_create_failure") (codes "failed to create fresh session state")
        b'

-- What is done with the state of the default session.
unfoldable pub restore_default : Opening → Bytes → Option Bytes × Begin → Begin
restore_default o key (some state_id, b) =
    let (loaded, b') = engine_load_session_state o key state_id b in
    if loaded
    then record b' { last_session_id = codes "default" }
    else complain o (codes "session_corrupt_state")
        (codes "failed to load default session: native agent returned error") b'
restore_default o key (none, b) =
    let (created, b') = engine_create_session_state o key b in
    if created
    then record b' { last_session_id = copy_bounded 256 key }
    else complain o (codes "session_create_failure")
        (codes "failed to create default session state") b'

-- The branch of the default session.
unfoldable pub begin_default : Opening → Begin → Begin
begin_default o b =
    let entered = enter_session o (codes "default") b in
    let key = entered.turn.session_key in
    if is_empty key
    then entered
    else restore_default o key (
        compatible_state o (codes "workspace mismatch: cannot restore default session")
          (codes "model mismatch: cannot restore default session") key
          (record entered { index = o.loaded }))

-- A named session when another one was the last.
unfoldable pub switch_session : Opening → Bytes → Begin → Begin
switch_session o key b =
    let old_key = session_key_for (some o.env.workspace) (some b.last_session_id) 512 in
    let saved : Begin = elim (session_index_lookup (some old_key) b.index) [
      | none ↦ b
      | some old ↦
          if o.env.auto_save_kv_cache
          then or_complain o (codes "session_save_failure")
              (codes "failed to save previous session state") (save_before_switch o old_key old b)
          else b
    ] in
    elim (session_index_lookup (some key) b.index) [
      | some state_id ↦
          if can_load o
          then or_complain o (codes "session_switch_failure")
              (codes "native agent failed to switch session state")
              (engine_switch_session_state o old_key key state_id saved)
          else saved
      | none ↦
          if can_load o
          then complain o (codes "session_state_missing")
              (codes "target session state not found in index") saved
          else saved
    ]

-- The state of a named session is loaded.
unfoldable pub load_checked : Opening → Bytes → Option Bytes × Begin → Begin
load_checked o key (none, b) = b
load_checked o key (some state_id, b) =
    or_complain o (codes "session_corrupt_state")
      (codes "failed to load KV cache: native agent returned error")
      (engine_load_session_state o key state_id b)

-- A named session when there was none.
unfoldable pub first_session : Opening → Bytes → Begin → Begin
first_session o key b = elim (session_index_lookup (some key) b.index) [
  | none ↦
      if can_load o
      then complain o (codes "session_state_missing")
          (codes "no saved state found for this session") b
      else b
  | some state_id ↦
      if can_load o
      then load_checked o key (
          compatible_state o (codes "workspace mismatch: cannot load saved state")
            (codes "model mismatch: cannot load saved state") key b)
      else b
]

-- The branch of a named session.
unfoldable pub begin_named : Opening → Bytes → Begin → Begin
begin_named o id b =
    let entered = enter_session o id b in
    let key = entered.turn.session_key in
    let indexed = record entered { index = o.loaded } in
    let opened =
      if is_empty b.last_session_id
      then first_session o key indexed
      else if str_eq b.last_session_id id
      then indexed
      else switch_session o key indexed in
    if is_empty key then entered else record opened { last_session_id = copy_bounded 256 id }

-- The session management of `turn_begin`.
unfoldable pub begin_session : Opening → Begin → Begin
begin_session o b =
    if o.reset_session
    then begin_reset o b
    else if not (is_empty o.previous_response_id)
    then begin_named o o.previous_response_id b
    else if not (is_empty b.last_session_id)
    then begin_named o b.last_session_id b
    else if can_load o
    then begin_default o b
    else b

-- The request of a turn, with the tool history unless it is hidden or empty.
unfoldable pub turn_request : Opening → Turn → Request
turn_request o t = record {
  request_id = o.env.request_id;
  input = o.input_text;
  system_instructions = [];
  tools_json = [];
  reasoning_effort = o.reasoning_effort;
  previous_response_id = o.previous_response_id;
  auto_load_resume_session = o.auto_load_resume_session;
  context_tokens = o.context_tokens;
  reset_session = o.reset_session;
  tool_history_json =
      if o.hide_tool_transcripts then [] else (tool_history_build_json t.history).text;
}

-- `turn_begin`: whether it succeeds, and what it leaves.
unfoldable pub turn_begin : Opening → Begin → Bool × Begin
turn_begin o b =
    let opened = begin_session o (record b { turn = record b.turn { cancelled = false } }) in
    let frame = frame_build_request (turn_request o opened.turn) in
    if o.malloc_ok
    then (true, record opened { turn = send_built frame opened.turn })
    else (false, opened)
