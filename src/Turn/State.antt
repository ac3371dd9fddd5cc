-- ===== src/Turn/State.antt =====
-- The state of a turn (turn_context.h), what it reads and what it does, and the helpers of
-- src/server.c and src/bridge_core.c that it calls.
use star_bridge.Base.{
  ℕ, zero, suc, ◌-◌, ◌||◌, Bool, true, ◌&&◌, Option, none, some, List, [], ◌∷◌, ◌++◌, ltb, leb,
  ◌==◌, if◌then◌else◌, Bytes, length, take, drop, codes, is_empty, copy_bounded,
}
use star_bridge.Sessions.{ℤ, SessionIndex}
use star_bridge.Stream.State.{Stream}
use star_bridge.Stream.Ops.{emit_text_delta}
use star_bridge.History.{History}
use star_bridge.Tools.Runner.{ToolRunResult, AppCallback}

-- What a turn does outside its own state, in order. The analytics line `metrics` carries its status,
-- the tokens of the prompt and of the completion, the tool calls and the bytes of output.
pub data Effect : Type 0 where
  sent : Bytes → Effect
  started : Bytes → Effect
  replied : Bytes → Effect
  sse_heartbeat : Effect
  sse_delta : Bytes → ℕ → Effect
  metrics : Bytes → ℤ → ℤ → ℕ → ℕ → Effect

-- What a read of a frame gives: nothing in time, a frame above the limit, or a frame, which is its C
-- string.
pub data Read : Type 0 where
  no_frame too_large : Read
  frame : Bytes → Read

-- What one round of the loop finds: what the waiting clients of the control plane send, `none` for a
-- read that fails, the read of the engine's frame, and whether there is memory for an answer to it.
pub record Poll : Type 0 where
  pub clients : List (Option Bytes)
  pub read : Read
  pub malloc_ok : Bool

-- What a turn does not change: the configuration, the engine's and the turn's arguments, the index as
-- `load_session_index` leaves it, and the system's answers to `tool_runner_run`. A number is 0 for 0
-- and below; `child` is what the run of a child makes of the result so far; `stale` is what a buffer on
-- the stack holds before it is written.
pub record Env : Type 0 where
  pub framed_mode : Bool
  pub stdin_open : Bool
  pub live : Bool
  pub server : Bool
  pub auto_save_kv_cache : Bool
  pub shell_command_enabled : Bool
  pub max_turn_events : ℕ
  pub response_timeout_ms : ℕ
  pub out_max : ℕ
  pub tool_history_max : ℕ
  pub codex_model : Bytes
  pub workspace : Bytes
  pub request_id : Bytes
  pub last_session_id : Bytes
  pub index : SessionIndex
  pub callback : Option AppCallback
  pub pipes : Bool
  pub pipe_error : Bytes
  pub child : Bytes → ToolRunResult → ToolRunResult × Bool
  pub stale : Bytes

-- `TurnContext`, the flags of the engine, the tool history, the session of the configuration, and the
-- local variables of the loop. `overrun` says that a write went outside a buffer.
pub record Turn : Type 0 where
  pub out_buf : Bytes
  pub event_prefix : Bytes
  pub stream : Option Stream
  pub delta_seq : ℕ
  pub cancelled : Bool
  pub turn_active : Bool
  pub event_limit_exceeded : Bool
  pub tool_calls : ℕ
  pub last_tool_name : Bytes
  pub last_tool_args : Bytes
  pub last_tool_run : ToolRunResult
  pub history : History
  pub session_id : Bytes
  pub session_key : Bytes
  pub event_count : ℕ
  pub tool_cycles : ℕ
  pub remaining_timeout : ℕ
  pub overrun : Bool
  pub out : List Effect

abbrev pub log : Effect → Turn → Turn
log e t = record t { out = t.out ++ (e ∷ []) }

-- `snprintf(ctx->out_buf, ctx->out_max, "%s", text)`
abbrev pub say : Env → Bytes → Turn → Turn
say env text t = record t { out_buf = copy_bounded env.out_max text }

-- `append_text`, where `dest` is what the buffer of `max_len` bytes holds before the offset.
unfoldable pub append_text : ℕ → Bytes → Bytes → Bytes
append_text max_len dest text =
    if leb max_len (length dest) then dest else dest ++ take (max_len - length dest - 1) text

-- `append_compaction_notice`
unfoldable pub append_compaction_notice : ℕ → Bytes → Bytes → Bytes
append_compaction_notice max_len dest message =
    let shown = if is_empty message then codes "Native agent is compacting context." else message in
    append_text max_len (append_text max_len (append_text max_len dest (codes "[COMPACT] ")) shown)
      (codes "\n")

-- The loop of `engine_send_error` that escapes the detail, with what it has written.
unfoldable pub escape_detail : Bytes → Bytes → Bytes
escape_detail out [] = out
escape_detail out (c ∷ s) =
    let plain = c ∷ [] in
    let rest =
      escape_detail (out ++ (if c == b'"' || c == b'\\' then b'\\' ∷ plain else plain)) s in
    if ltb (length out) 508 then rest else out

-- `engine_send_error`
unfoldable pub engine_send_error : Env → Bytes → Bytes → Turn → Turn
engine_send_error env error_type detail t =
    let text =
      codes "{\"type\":\"error\",\"error_type\":\""
      ++ (error_type ++ (codes "\",\"detail\":\"" ++ (escape_detail [] detail ++ codes "\"}"))) in
    if env.framed_mode && env.stdin_open then log (sent (copy_bounded 1024 text)) t else t

-- `engine_cancel`
unfoldable pub engine_cancel : Env → Turn → Turn
engine_cancel env t =
    let id = if is_empty env.request_id then codes "cancel-1" else env.request_id in
    let text =
      codes "{\"type\":\"cancel\",\"id\":\""
      ++ (id ++ codes "\",\"reason\":\"client_disconnected\"}") in
    let flagged = record t { cancelled = true } in
    if t.cancelled
    then t
    else if env.framed_mode && env.stdin_open
    then log (sent (copy_bounded 512 text)) flagged
    else flagged

-- `engine_set_turn_active`
abbrev pub engine_set_turn_active : Bool → Turn → Turn
engine_set_turn_active active t = record t { turn_active = active }

-- `engine_read_frame_timeout`: the frame, if there is one.
unfoldable pub engine_read_frame_timeout : Env → Read → Turn → Option Bytes × Turn
engine_read_frame_timeout env no_frame t = (none, t)
engine_read_frame_timeout env too_large t =
    if env.framed_mode
    then (
      none,
      engine_send_error env (codes "payload_too_large") (codes "frame payload exceeds max") t,
    )
    else (none, t)
engine_read_frame_timeout env (frame s) t = if env.framed_mode then (some s, t) else (none, t)

-- `emit_turn_metrics`, without the request, the effort and the duration.
abbrev pub emit_turn_metrics : Bytes → ℤ → ℤ → Turn → Turn
emit_turn_metrics status prompt completion t =
    log (metrics status prompt completion t.tool_calls (length t.out_buf)) t

-- `send_sse_heartbeat`, if the client is live.
abbrev pub heartbeat_if_live : Env → Turn → Turn
heartbeat_if_live env t = if env.live then log sse_heartbeat t else t

-- `response_timeout_ms > 0 ? response_timeout_ms : 60000`
abbrev pub full_timeout : Env → ℕ
full_timeout env = if ltb 0 env.response_timeout_ms then env.response_timeout_ms else 60000

-- The loop that gives a text to the stream in pieces of 4096 bytes; the text's length is enough fuel.
unfoldable pub emit_chunks : ℕ → Bytes → Stream → Stream
emit_chunks zero text s = s
emit_chunks (suc fuel) text s =
    let piece = emit_text_delta (take 4096 text) s in
    let rest = emit_chunks fuel (drop 4096 text) piece.0 in
    if is_empty text then s else if piece.1 then rest else piece.0

-- `turn_context_init`, `turn_process_events`'s own start, and the flags as `turn_begin` leaves them.
-- The buffer is the caller's.
abbrev pub turn_started : Env → Turn → Turn
turn_started env t = record t {
  event_prefix = [];
  event_count = 0;
  tool_cycles = 0;
  remaining_timeout = full_timeout env;
}
