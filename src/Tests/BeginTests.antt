-- ===== src/Tests/BeginTests.antt =====
-- The start of a turn in a workspace with a saved session.
use star_bridge.Base.{true, false, none, some, [], ◌∷◌, codes}
use star_bridge.Sessions.{pos, SessionIndexEntry, compute_session_key}
use star_bridge.History.{no_history}
use star_bridge.Tools.Runner.{cleared}
use star_bridge.Turn.State.{Env, frame}
use star_bridge.Turn.States.{Begin, Opening}

abbrev env : Env
env = record {
  framed_mode = true;
  stdin_open = true;
  live = false;
  server = false;
  auto_save_kv_cache = true;
  shell_command_enabled = false;
  max_turn_events = 10;
  response_timeout_ms = 1000;
  out_max = 64;
  tool_history_max = 20;
  codex_model = codes "m";
  workspace = codes "/w";
  request_id = codes "req-1";
  last_session_id = [];
  index = record { entries = []; dirty = false };
  callback = none;
  pipes = true;
  pipe_error = [];
  child = λ command result. (result, false);
  stale = [];
}

-- The state of the default session, saved for the workspace and the model.
abbrev entry : SessionIndexEntry
unfolding compute_session_key
entry = record {
  key = compute_session_key (some (codes "/w")) (some (codes "default"));
  state_id = codes "s1";
  workspace_root = codes "/w";
  model_id = codes "m";
  context_budget = pos 4096;
  updated_at = codes "t";
}

abbrev opening : Opening
opening = record {
  env = env;
  auto_load_project_session = true;
  kv_cache_policy = codes "auto";
  context_tokens = pos 4096;
  reset_session = false;
  previous_response_id = [];
  reset_name = [];
  metadata = codes "{}";
  now = codes "t";
  input_text = codes "hello";
  reasoning_effort = [];
  auto_load_resume_session = true;
  hide_tool_transcripts = false;
  malloc_ok = true;
  loaded = record { entries = entry ∷ []; dirty = false };
}

abbrev start : Begin
start = record {
  turn = record {
    out_buf = [];
    event_prefix = [];
    stream = none;
    delta_seq = 0;
    cancelled = true;
    turn_active = true;
    event_limit_exceeded = false;
    tool_calls = 0;
    last_tool_name = [];
    last_tool_args = [];
    last_tool_run = cleared;
    history = no_history;
    session_id = [];
    session_key = [];
    event_count = 0;
    tool_cycles = 0;
    remaining_timeout = 0;
    overrun = false;
    out = [];
  };
  last_session_id = [];
  index = record { entries = []; dirty = false };
  reads = frame (codes "{\"type\":\"ack\",\"status\":\"accepted\"}") ∷ [];
  calls = [];
}
