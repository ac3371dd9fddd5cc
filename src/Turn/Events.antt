-- ===== src/Turn/Events.antt =====
-- `turn_process_events`: the loop over the engine's frames.
pub mod Ends
pub mod Loop
pub mod Outcome
pub mod Advance
pub mod Termination
pub mod Final
use star_bridge.Base.{
  ℕ, zero, suc, ◌+◌, ◌-◌, min, Bool, true, false, not, ◌&&◌, ◌||◌, Option, none, some, List, [],
  ◌∷◌, ◌++◌, ltb, leb, if◌then◌else◌, Bytes, length, codes, contains, is_empty, copy_bounded,
}
use star_bridge.Sessions.{pos}
use star_bridge.Native.{
  CJson, NativeEventType, NativeEvent, native_event_is_lifecycle, native_parse_frame,
}
use star_bridge.Stream.Ops.{emit_text_delta}
use star_bridge.Turn.State.{
  Env, Turn, Poll, sse_delta, log, say, append_text, append_compaction_notice, engine_send_error,
  engine_read_frame_timeout, emit_turn_metrics, heartbeat_if_live, full_timeout, emit_chunks,
  turn_started,
}
use star_bridge.Turn.Control.{control_plane}
use star_bridge.Turn.Tool.{do_tool, send_built}
use star_bridge.Turn.Save.{save_after_turn}

-- How a round ends: the loop goes on, or the function returns.
pub data Next : Type 0 where
  more : Turn → Next
  done : Bool → Turn → Next

-- `event_count++; continue`
abbrev pub counted : Turn → Next
counted t = more (record t { event_count = t.event_count + 1 })

-- The client's copy of a text: the stream's event, or a plain one.
unfoldable pub show_text : Env → (Bytes → Turn → Turn) → Bytes → Turn → Turn
show_text env to_stream text t =
    let plain =
      sse_delta (copy_bounded 8192 (codes "{\"delta\":\"" ++ (text ++ codes "\"}"))) t.delta_seq in
    let shown : Turn = elim t.stream [
      | some s ↦ to_stream text t
      | none ↦ if env.live then log plain (record t { delta_seq = t.delta_seq + 1 }) else t
    ] in
    if is_empty text then t else shown

-- `responses_stream_emit_text_delta` on the turn's stream.
unfoldable pub stream_delta : Bytes → Turn → Turn
stream_delta text t = elim t.stream [
  | none ↦ t
  | some s ↦ record t { stream = some (emit_text_delta text s).0 }
]

-- The pieces of a response on the turn's stream.
unfoldable pub stream_chunks : Bytes → Turn → Turn
stream_chunks text t = elim t.stream [
  | none ↦ t
  | some s ↦ record t { stream = some (emit_chunks (length text) text s) }
]

-- A frame of no known use: its text after the notices becomes the output.
unfoldable pub on_other : Env → Bytes → Turn → Next
on_other env resp t = counted (record t {
  out_buf = append_text env.out_max (append_text env.out_max [] t.event_prefix) resp;
})

-- The frames that the loop only counts.
unfoldable pub is_noise : Bytes → Bool
is_noise resp = contains resp (codes "\"type\":\"event\"") || contains resp (codes "thinking")

-- A tool intent.
unfoldable pub on_tool_intent : Env → Bool → Bytes → Bytes → Turn → Next
on_tool_intent env malloc_ok name args t =
    let t' = record t { tool_cycles = t.tool_cycles + 1; tool_calls = t.tool_calls + 1 } in
    let (frame, ran) = do_tool env name args t' in
    if ltb 64 t'.tool_cycles
    then done false (say env (codes "native agent tool cycle limit exceeded") t')
    else if malloc_ok
    then counted (send_built frame ran)
    else done false (say env (codes "native agent tool result build failed") ran)

-- A response.
unfoldable pub on_response : Env → List Poll → NativeEvent → Turn → Next
on_response env script ev t =
    let text = append_text env.out_max (append_text env.out_max [] t.event_prefix) ev.text in
    let shown = show_text env stream_chunks ev.text (record t { out_buf = text }) in
    done true (
      emit_turn_metrics (codes "completed") ev.prompt_tokens ev.completion_tokens
        (save_after_turn env script shown))

-- The branches on the type of a frame. `script` is what the rounds after this one find.
unfoldable pub dispatch :
    Env → Poll → List Poll → Bytes → NativeEvent → NativeEventType → Turn → Next
dispatch env p script resp ev NativeEventType.text_delta t = counted (
    show_text env stream_delta ev.text
      (record t { out_buf = append_text env.out_max t.out_buf ev.text }))
dispatch env p script resp ev NativeEventType.unknown t =
    if is_noise resp then counted t else on_other env resp t
dispatch env p script resp ev NativeEventType.compaction t =
    counted (record t { event_prefix = append_compaction_notice 8192 t.event_prefix ev.message })
dispatch env p script resp ev NativeEventType.cancelled t = done false t
dispatch env p script resp ev NativeEventType.error t =
    let message = if is_empty ev.message then codes "native agent error" else ev.message in
    done false (emit_turn_metrics (codes "error") (pos 0) (pos 0) (say env message t))
dispatch env p script resp ev NativeEventType.tool_intent t =
    on_tool_intent env p.malloc_ok ev.tool_name ev.tool_args t
dispatch env p script resp ev NativeEventType.response t = on_response env script ev t
dispatch env p script resp ev _ t = on_other env resp t

-- A frame with the id of another request.
unfoldable pub on_foreign : Env → NativeEventType → Turn → Next
on_foreign env kind t =
    if native_event_is_lifecycle kind
    then more t
    else done false (
        engine_send_error env (codes "request_id_mismatch")
          (codes "frame id does not match request id")
          (say env (codes "native agent frame id mismatch") t))

-- `has_id && !id_match`
unfoldable pub is_foreign : Env → Bytes → NativeEvent → Bool
is_foreign env resp ev = not (is_empty ev.id) && not (contains resp env.request_id)

-- A frame that is read.
unfoldable pub on_frame : Env → Poll → List Poll → Bytes → NativeEvent → Turn → Next
on_frame env p script resp ev t =
    let t' = heartbeat_if_live env (record t { remaining_timeout = full_timeout env }) in
    if is_foreign env resp ev
    then on_foreign env ev.kind t'
    else dispatch env p script resp ev ev.kind t'

-- `poll_ms`
unfoldable pub poll_ms : Env → ℕ → ℕ
poll_ms env remaining = if env.server then min (min remaining 2000) 100 else min remaining 2000

-- A read without a frame. The clients that come while the last of the timeout is spent are those that
-- the next round would find.
unfoldable pub on_silence : Env → List (Option Bytes) → Turn → Next
on_silence env late t =
    let left = t.remaining_timeout - poll_ms env t.remaining_timeout in
    let t' = record (heartbeat_if_live env t) { remaining_timeout = left } in
    let ended = say env (codes "native agent response timeout") (control_plane env late t') in
    if leb left 0
    then done false (
        emit_turn_metrics (codes "timeout") (pos 0) (pos 0) (
          engine_send_error env (codes "handshake_timeout") (codes "native agent response timeout")
            ended))
    else more t'

-- The clients that the next round of a script finds.
abbrev pub next_clients : List Poll → List (Option Bytes)
next_clients [] = []
next_clients (p ∷ ps) = p.clients

module _ {Item : Type 0} (J : CJson Item) (env : Env) where
  -- What is done with the result of a read.
  unfoldable pub after_read : Poll → List Poll → Option Bytes → Turn → Next
  after_read p script none t = on_silence env (next_clients script) t
  after_read p script (some resp) t =
      on_frame env p script resp (native_parse_frame J env.stale resp) t

  -- The body of the loop. `script` is what the rounds after this one find.
  unfoldable pub turn_poll : Poll → List Poll → Turn → Next
  turn_poll p script t =
      let served = control_plane env p.clients t in
      let (resp, t') = engine_read_frame_timeout env p.read served in
      if env.server && served.cancelled
      then done false (
          emit_turn_metrics (codes "cancelled") (pos 0) (pos 0)
            (say env (codes "cancelled") served))
      else after_read p script resp t'

  -- The end at `max_turn_events`.
  abbrev pub limit_reached : Turn → Turn
  limit_reached t =
      emit_turn_metrics (codes "incomplete") (pos 0) (pos 0)
        (record t { event_limit_exceeded = true })

  -- The loop on what its rounds find; `more` is a loop that still runs when the script ends.
  unfoldable pub event_loop : List Poll → Turn → Next
  event_loop [] t =
      if ltb t.event_count env.max_turn_events then more t else done true (limit_reached t)
  event_loop (p ∷ script) t =
      let go : Next = elim (turn_poll p script t) [
        | done ok t' ↦ done ok t'
        | more t' ↦ event_loop script t'
      ] in
      if ltb t.event_count env.max_turn_events then go else done true (limit_reached t)

  -- `turn_process_events`
  unfoldable pub turn_process_events : List Poll → Turn → Next
  turn_process_events script t = event_loop script (turn_started env t)

-- `turn_cleanup`: whether the turn is still active, and the turn.
unfoldable pub turn_cleanup : Bool → Turn → Bool × Turn
turn_cleanup false t = (false, t)
turn_cleanup true t = (false, record t { turn_active = false; cancelled = false })
