-- ===== src/Tests/TurnTests.antt =====
-- Turns on concrete frames. A table of two texts stands for cJSON.
use star_bridge.Base.{
  ℕ, ◌≡◌, refl, Bool, true, false, Option, none, some, List, [], ◌∷◌, ◌++◌, Bytes, take, codes,
  str_eq, starts_with, contains, if◌then◌else◌, arith, All,
}
use star_bridge.History.{no_history}
use star_bridge.Tools.Runner.{
  cleared, tool_runner_run, ask_callback, start_child, build_command_args,
}
use star_bridge.Native.{
  CJson, NativeEventType, native_parse_frame, json_get_string, json_get_int, json_get_object,
  text_of, parse_kind, extract_tool_from_obj, parse_response, native_event_type_from_string,
  native_event_is_lifecycle,
}
use star_bridge.Native.Laws.{Fits, native_parse_frame-Fits}
use star_bridge.Turn.State.{Read, frame, no_frame, Poll, Env, Turn, engine_read_frame_timeout}
use star_bridge.Turn.Tool.{do_tool, run_tool, finish_run}
use star_bridge.Tools.Policy.{is_denied, args_valid, exact_object_field}
use star_bridge.Tools.Json.{
  object_field, read_key, read_value, read_end, skip_ws, expect, decode_string, decode_loop,
  unescape,
}
use star_bridge.Turn.Events.{
  Next, more, done, turn_process_events, event_loop, turn_poll, after_read, on_frame, is_foreign,
  dispatch, on_response, on_tool_intent,
}
use star_bridge.Turn.Events.Ends.{Ended}
use star_bridge.Turn.Events.Outcome.{IsFresh, turn_process_events-Ended}
use star_bridge.Turn.Events.Advance.{is_idle}
use star_bridge.Turn.Events.Termination.{turn_process_events-ends}
use star_bridge.Turn.Ack.{turn_await_ack, ack_loop, verdict}
use star_bridge.Turn.Ack.Accepted.{Outcome}
use star_bridge.Turn.Control.{handle_midturn_control_plane}
use star_bridge.Turn.Control.Clients.{Clients}
use star_bridge.Turn.Control.Cancel.{Answered, handle_midturn_control_plane-cancels}
use star_bridge.Turn.Events.Final.{after_read-response}

abbrev answer_text : Bytes
answer_text = codes "{\"type\":\"response\",\"id\":\"req-1\",\"text\":\"hi\"}"

abbrev list_text : Bytes
list_text =
    codes
      "{\"type\":\"tool_intent\",\"id\":\"req-1\",\"tool\":{\"name\":\"shell_command\",\"args\":\"{\\\"command\\\":\\\"ls\\\"}\"}}"

abbrev ack_text : Bytes
ack_text = codes "{\"type\":\"ack\",\"id\":\"req-1\",\"status\":\"accepted\"}"

-- What cJSON makes of the three texts: their objects, the object of the tool, and strings.
data Item : Type 0 where
  answer listing tool acknowledgement : Item
  string : Bytes → Item

abbrev pick : Bytes → Bytes → Item → Option Item → Option Item
pick name key item rest = if str_eq name key then some item else rest

abbrev field_of : Item → Bytes → Option Item
field_of answer name = pick name (codes "type") (string (codes "response")) (
    pick name (codes "id") (string (codes "req-1"))
      (pick name (codes "text") (string (codes "hi")) none))
field_of listing name =
    pick name (codes "type") (string (codes "tool_intent"))
      (pick name (codes "id") (string (codes "req-1")) (pick name (codes "tool") tool none))
field_of tool name =
    pick name (codes "name") (string (codes "shell_command"))
      (pick name (codes "args") (string (codes "{\"command\":\"ls\"}")) none)
field_of acknowledgement name = pick name (codes "type") (string (codes "ack")) (
    pick name (codes "id") (string (codes "req-1"))
      (pick name (codes "status") (string (codes "accepted")) none))
field_of (string s) name = none

abbrev string_of : Item → Option Bytes
string_of (string s) = some s
string_of _ = none

abbrev object_test : Item → Bool
object_test (string s) = false
object_test _ = true

abbrev reader : CJson Item
reader = record {
  parse = λ s.
      if str_eq s answer_text
      then some answer
      else if str_eq s list_text
      then some listing
      else if str_eq s ack_text
      then some acknowledgement
      else none;
  get_object_item = field_of;
  string_value = string_of;
  number_value = λ item. none;
  is_object = object_test;
  print_unformatted = λ item. none;
}

abbrev env : Env
env = record {
  framed_mode = true;
  stdin_open = true;
  live = false;
  server = false;
  auto_save_kv_cache = false;
  shell_command_enabled = true;
  max_turn_events = 1;
  response_timeout_ms = 1;
  out_max = 64;
  tool_history_max = 20;
  codex_model = codes "m";
  workspace = codes "/w";
  request_id = codes "req-1";
  last_session_id = [];
  index = record { entries = []; dirty = false };
  callback = none;
  pipes = true;
  pipe_error = [];
  child = λ command result. (record result { result_json = command; ok = true }, true);
  stale = [];
}

abbrev start : Turn
start = record {
  out_buf = codes "earlier";
  event_prefix = [];
  stream = none;
  delta_seq = 0;
  cancelled = false;
  turn_active = true;
  event_limit_exceeded = false;
  tool_calls = 0;
  last_tool_name = [];
  last_tool_args = [];
  last_tool_run = cleared;
  history = no_history;
  session_id = [];
  session_key = [];
  event_count = 0;
  tool_cycles = 0;
  remaining_timeout = 0;
  overrun = false;
  out = [];
}

abbrev poll : Read → Poll
poll read = record { clients = []; read = read; malloc_ok = true }

abbrev turn_of : Next → Turn
turn_of (more t) = t
turn_of (done ok t) = t

start-IsFresh : IsFresh env start
start-IsFresh = record { room = omega arith; no_calls = refl; nothing = refl }

-- A shell command, and then the event limit.
abbrev script : List Poll
script = poll (frame list_text) ∷ poll (frame answer_text) ∷ []

abbrev ended : Turn
ended = turn_of (turn_process_events reader env script start)

script_ends : turn_process_events reader env script start ≡ done true ended
unfolding turn_process_events event_loop turn_poll after_read on_frame is_foreign dispatch
    on_response on_tool_intent engine_read_frame_timeout native_parse_frame json_get_string
    json_get_int json_get_object text_of parse_kind parse_response native_event_type_from_string
    native_event_is_lifecycle str_eq starts_with contains do_tool is_denied extract_tool_from_obj
    args_valid exact_object_field object_field read_key expect skip_ws decode_string decode_loop
    read_value read_end run_tool finish_run tool_runner_run ask_callback start_child
    build_command_args unescape
script_ends = refl

turn_process_events-Ended_example : Ended env true ended
turn_process_events-Ended_example =
    turn_process_events-Ended reader env script start start-IsFresh script_ends

script_counts : All (λ p. is_idle reader env p.read ≡ false) script
unfolding is_idle is_foreign native_parse_frame native_event_type_from_string
    native_event_is_lifecycle json_get_string parse_kind parse_response text_of json_get_int
    extract_tool_from_obj str_eq starts_with contains
script_counts = (refl, (refl, tt))

turn_process_events-ends_example :
    (ok : Bool) × ((t' : Turn) × (turn_process_events reader env script start ≡ done ok t'))
turn_process_events-ends_example =
    turn_process_events-ends reader env script start script_counts (omega arith)

answer_own : is_foreign env answer_text (native_parse_frame reader [] answer_text) ≡ false
unfolding is_foreign native_parse_frame native_event_type_from_string json_get_string parse_kind
    parse_response text_of json_get_int str_eq starts_with contains
answer_own = refl

answer_kind : (native_parse_frame reader [] answer_text).kind ≡ NativeEventType.response
unfolding native_parse_frame native_event_type_from_string json_get_string parse_kind parse_response
    text_of json_get_int str_eq starts_with
answer_kind = refl

-- The text "earlier" that the deltas had left is gone.
after_read-response_example :
    (t' : Turn) × ((after_read reader env (poll no_frame) [] (some answer_text) start
        ≡ done true t')
      × (t'.out_buf ≡ take 63 ([] ++ (native_parse_frame reader [] answer_text).text)))
after_read-response_example =
    after_read-response reader env (poll no_frame) [] answer_text start (omega arith) answer_own
      answer_kind

native_parse_frame-Fits_example : Fits (native_parse_frame reader [] list_text)
native_parse_frame-Fits_example = native_parse_frame-Fits reader [] list_text

-- A frame to pass over, and the acknowledgement.
abbrev ack_reads : List Read
ack_reads = frame (codes "{\"type\":\"event\"}") ∷ frame ack_text ∷ []

acknowledged : turn_await_ack reader env ack_reads start ≡ (true, start)
unfolding turn_await_ack ack_loop engine_read_frame_timeout verdict native_parse_frame
    json_get_string parse_kind native_event_type_from_string native_event_is_lifecycle str_eq
    starts_with contains
acknowledged = refl

-- A client that asks for the models, and one that cancels.
abbrev clients : List (Option Bytes)
clients =
    some (codes "GET /v1/models HTTP/1.1")
    ∷ some (codes "DELETE /v1/responses/r1 HTTP/1.1")
    ∷ none
    ∷ []

handle_midturn_control_plane-cancels_example :
    (n : ℕ) × ((asked : Bool) × (Clients clients n asked
        × Answered env start (handle_midturn_control_plane env clients start) n asked))
handle_midturn_control_plane-cancels_example =
    handle_midturn_control_plane-cancels env clients start
