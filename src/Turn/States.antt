-- ===== src/Turn/States.antt =====
-- The frames about the states of sessions, of src/bridge_core.c: loading, saving, switching, creating.
use star_bridge.Base.{
  ℕ, Bool, true, false, not, ◌&&◌, ◌||◌, Option, none, some, List, [], ◌∷◌, ◌++◌, leb,
  if◌then◌else◌, Bytes, length, codes, is_empty, contains,
}
use star_bridge.Escape.{json_escape}
use star_bridge.Sessions.{ℤ, pos, SessionIndex, session_index_update}
use star_bridge.Frame.Build.{show_int}
use star_bridge.Turn.State.{
  Read, no_frame, Env, Turn, sent, log, engine_send_error, engine_read_frame_timeout,
}
use star_bridge.Turn.Fields.{find_after}

-- What `turn_begin` reads besides: the rest of the configuration, the turn's arguments, the texts that
-- the clock and git decide, whether there is memory for the request, and the index as `load_session_index` leaves it.
pub record Opening : Type 0 where
  pub env : Env
  pub auto_load_project_session : Bool
  pub kv_cache_policy : Bytes
  pub context_tokens : ℤ
  pub reset_session : Bool
  pub previous_response_id : Bytes
  pub reset_name : Bytes
  pub metadata : Bytes
  pub now : Bytes
  pub input_text : Bytes
  pub reasoning_effort : Bytes
  pub auto_load_resume_session : Bool
  pub hide_tool_transcripts : Bool
  pub malloc_ok : Bool
  pub loaded : SessionIndex

-- The frames about the states of sessions.
pub data StateCall : Type 0 where
  load_state save_state : Bytes → Bytes → StateCall
  switch_state : Bytes → Bytes → Bytes → StateCall
  create_state : Bytes → Bytes → Bytes → ℤ → Bytes → StateCall

-- What changes: the turn, the engine's last session, the index in memory, the reads to come, and the
-- frames about states that are sent.
pub record Begin : Type 0 where
  pub turn : Turn
  pub last_session_id : Bytes
  pub index : SessionIndex
  pub reads : List Read
  pub calls : List StateCall

abbrev text_field : Bytes → ℕ → Bytes → Bytes → Bytes
text_field name size value rest = name ++ (json_escape size value ++ rest)

-- The text of a frame.
unfoldable pub call_text : StateCall → Bytes
call_text (load_state key state_id) =
    text_field (codes "{\"type\":\"load_state\",\"key\":\"") 256 key
      (text_field (codes "\",\"state_id\":\"") 256 state_id (codes "\"}"))
call_text (save_state key state_id) =
    text_field (codes "{\"type\":\"save_state\",\"key\":\"") 256 key
      (text_field (codes "\",\"state_id\":\"") 256 state_id (codes "\"}"))
call_text (switch_state from_key to_key state_id) =
    text_field (codes "{\"type\":\"switch_state\",\"from_key\":\"") 256 from_key (
      text_field (codes "\",\"to_key\":\"") 256 to_key
        (text_field (codes "\",\"state_id\":\"") 256 state_id (codes "\"}")))
call_text (create_state key root model budget metadata) =
    text_field (codes "{\"type\":\"create_state\",\"key\":\"") 256 key (
      text_field (codes "\",\"project_root\":\"") 512 root (
        text_field (codes "\",\"model_id\":\"") 256 model (
          codes "\",\"context_budget\":"
          ++ (show_int budget ++ (codes ",\"metadata\":" ++ (metadata ++ codes "}"))))))

-- The size of the buffer of a frame.
abbrev pub call_size : StateCall → ℕ
call_size (create_state key root model budget metadata) = 1536
call_size _ = 1024

abbrev first_read : List Read → Read
first_read [] = no_frame
first_read (r ∷ rs) = r

abbrev later_reads : List Read → List Read
later_reads [] = []
later_reads (r ∷ rs) = rs

-- The part that the four calls share: the frame, if it fits, and the read of its acknowledgement.
unfoldable pub state_call : Env → StateCall → Begin → Option Bytes × Begin
state_call env call b =
    let (ack, t) =
      engine_read_frame_timeout env (first_read b.reads) (log (sent (call_text call)) b.turn) in
    if not env.framed_mode || leb (call_size call) (length (call_text call))
    then (none, b)
    else (ack, record b { turn = t; reads = later_reads b.reads; calls = b.calls ++ (call ∷ []) })

-- Whether an acknowledgement accepts.
unfoldable pub is_accepted : Option Bytes → Bool
is_accepted none = false
is_accepted (some s) =
    contains s (codes "\"type\":\"ack\"") && contains s (codes "\"status\":\"accepted\"")

-- What stands before the next quote.
unfoldable pub until_quote : Bytes → Option Bytes
until_quote [] = none
until_quote (c ∷ s) =
    let rest : Option Bytes = elim (until_quote s) [ none ↦ none | some t ↦ some (c ∷ t) ] in
    if leb c b'"' && leb b'"' c then some [] else rest

-- The new state in an acknowledgement, if it has one of 1 to 255 bytes.
unfoldable pub new_state_id : Bytes → Option Bytes
new_state_id ack = elim (find_after ack (codes "\"state_id\":\"")) [
  | none ↦ none
  | some p ↦ elim (until_quote p) [
    | none ↦ none
    | some id ↦ if is_empty id || leb 256 (length id) then none else some id
  ]
]

-- The index after the acknowledgement of a load or a creation, whether it accepts or not.
unfoldable pub learn : Opening → Bytes → Bytes → Bytes → ℤ → Option Bytes → Begin → Begin
learn o key root model budget none b = b
learn o key root model budget (some ack) b = elim (new_state_id ack) [
  | none ↦ b
  | some id ↦ record b {
    index =
        (session_index_update key
          (record {
            state_id = id;
            workspace_root = some root;
            model_id = some model;
            context_budget = budget;
            now = o.now;
          })
          b.index).0;
  }
]

-- `engine_load_session_state`
unfoldable pub engine_load_session_state : Opening → Bytes → Bytes → Begin → Bool × Begin
engine_load_session_state o key state_id b =
    let (ack, b') = state_call o.env (load_state key state_id) b in
    (is_accepted ack, learn o key [] [] (pos 0) ack b')

-- `engine_create_session_state`, with the workspace, the model and the budget of the callers.
unfoldable pub engine_create_session_state : Opening → Bytes → Begin → Bool × Begin
engine_create_session_state o key b =
    let (ack, b') =
      state_call o.env
        (create_state key o.env.workspace o.env.codex_model o.context_tokens o.metadata) b in
    (is_accepted ack, learn o key o.env.workspace o.env.codex_model o.context_tokens ack b')

-- `engine_switch_session_state`
unfoldable pub engine_switch_session_state : Opening → Bytes → Bytes → Bytes → Begin → Bool × Begin
engine_switch_session_state o from_key to_key state_id b =
    let (ack, b') = state_call o.env (switch_state from_key to_key state_id) b in
    (is_accepted ack, b')

-- `engine_save_session_state`, before a switch.
unfoldable pub save_before_switch : Opening → Bytes → Bytes → Begin → Bool × Begin
save_before_switch o key state_id b =
    let (ack, b') = state_call o.env (save_state key state_id) b in (is_accepted ack, b')

abbrev pub complain : Opening → Bytes → Bytes → Begin → Begin
complain o error_type detail b = record b {
  turn = engine_send_error o.env error_type detail b.turn;
}

-- A result, with an error if it is false.
unfoldable pub or_complain : Opening → Bytes → Bytes → Bool × Begin → Begin
or_complain o error_type detail (true, b) = b
or_complain o error_type detail (false, b) = complain o error_type detail b
