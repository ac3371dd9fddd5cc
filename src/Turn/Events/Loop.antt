-- ===== src/Turn/Events/Loop.antt =====
-- What holds of a turn through its loop.
use star_bridge.Base.{
  ◌-◌, true, ◌&&◌, Option, none, some, List, [], ◌∷◌, ltb, leb, arith, if◌then◌else◌, Bytes, codes,
  str_eq, is_empty, if-both,
}
use star_bridge.Sessions.{pos}
use star_bridge.Native.{
  CJson, NativeEventType, NativeEvent, native_event_is_lifecycle, native_parse_frame,
}
use star_bridge.Turn.State.{
  Poll, Env, Turn, say, append_text, append_compaction_notice, engine_send_error,
  engine_read_frame_timeout, heartbeat_if_live, full_timeout,
}
use star_bridge.Turn.Control.{control_plane}
use star_bridge.Turn.Sound.{
  Sound, out_buf-Sound, say-Sound, length-append_text, length-append_compaction_notice,
  engine_send_error-Sound, heartbeat_if_live-Sound, control_plane-Sound,
  engine_read_frame_timeout-Sound,
}
use star_bridge.Turn.Save.{save_after_turn}
use star_bridge.Turn.Save.Sound.{save_after_turn-Sound}
use star_bridge.Turn.Events.{
  Next, more, done, show_text, stream_delta, stream_chunks, is_noise, on_response, dispatch,
  on_foreign, is_foreign, on_frame, poll_ms, on_silence, next_clients, after_read, turn_poll,
  limit_reached, event_loop,
}
use star_bridge.Turn.Events.Ends.{
  unreported, Result, emit_turn_metrics-Ended, more_cycles, show_text-Sound, stream_delta-Sound,
  stream_chunks-Sound, on_other-Result, on_tool_intent-Result,
}

module _ {env : Env} where
  on_response-Result :
      (script : List Poll) (ev : NativeEvent) (t : Turn)
      → Sound env 64 t
      → Result env (on_response env script ev t)
  unfolding on_response str_eq
  on_response-Result script ev t v =
      let text = append_text env.out_max (append_text env.out_max [] t.event_prefix) ev.text in
      let t' : Turn = record t { out_buf = text } in
      let written : Sound env 64 t' =
        out_buf-Sound _ t
          (length-append_text env.out_max _ ev.text
            (length-append_text env.out_max [] t.event_prefix (omega (arith, v.text))))
          v in
      let shown : Turn = show_text env stream_chunks ev.text t' in
      emit_turn_metrics-Ended (codes "completed") ev.prompt_tokens ev.completion_tokens
        (save_after_turn env script shown)
        (save_after_turn-Sound script shown
          (show_text-Sound stream_chunks ev.text t' (stream_chunks-Sound ev.text t') written))

  notices-Sound :
      (message : Bytes) (t : Turn)
      → Sound env 64 t
      → Sound env 64
          (record t { event_prefix = append_compaction_notice 8192 t.event_prefix message })
  notices-Sound message t v = record {
    text = v.text;
    notices_fit = length-append_compaction_notice 8192 t.event_prefix message v.notices_fit;
    counted_twice = v.counted_twice;
    few = v.few;
    allowed = v.allowed;
  }

  dispatch-Result :
      (p : Poll) (script : List Poll) (resp : Bytes) (ev : NativeEvent) (kind : NativeEventType)
      (t : Turn)
      → Sound env 64 t
      → Result env (dispatch env p script resp ev kind t)
  unfolding dispatch str_eq
  dispatch-Result p script resp ev NativeEventType.text_delta t v =
      let t' : Turn = record t { out_buf = append_text env.out_max t.out_buf ev.text } in
      show_text-Sound stream_delta ev.text t' (stream_delta-Sound ev.text t')
        (out_buf-Sound _ t (length-append_text env.out_max t.out_buf ev.text v.text) v)
  dispatch-Result p script resp ev NativeEventType.unknown t v =
      if-both (Result env) (is_noise resp) v (on_other-Result resp t v)
  dispatch-Result p script resp ev NativeEventType.compaction t v = notices-Sound ev.message t v
  dispatch-Result p script resp ev NativeEventType.cancelled t v = unreported (more_cycles t v)
  dispatch-Result p script resp ev NativeEventType.error t v =
      let message = if is_empty ev.message then codes "native agent error" else ev.message in
      emit_turn_metrics-Ended (codes "error") (pos 0) (pos 0) (say env message t)
        (say-Sound message t v)
  dispatch-Result p script resp ev NativeEventType.tool_intent t v =
      on_tool_intent-Result p.malloc_ok ev.tool_name ev.tool_args t v
  dispatch-Result p script resp ev NativeEventType.response t v = on_response-Result script ev t v
  dispatch-Result p script resp ev NativeEventType.ack t v = on_other-Result resp t v
  dispatch-Result p script resp ev NativeEventType.health t v = on_other-Result resp t v
  dispatch-Result p script resp ev NativeEventType.ping t v = on_other-Result resp t v
  dispatch-Result p script resp ev NativeEventType.pong t v = on_other-Result resp t v
  dispatch-Result p script resp ev NativeEventType.ready t v = on_other-Result resp t v
  dispatch-Result p script resp ev NativeEventType.shutdown t v = on_other-Result resp t v
  dispatch-Result p script resp ev NativeEventType.shutdown_ack t v = on_other-Result resp t v

  on_foreign-Result :
      (kind : NativeEventType) (t : Turn) → Sound env 64 t → Result env (on_foreign env kind t)
  unfolding on_foreign
  on_foreign-Result kind t v =
      let kind_name : Bytes = codes "request_id_mismatch" in
      let detail : Bytes = codes "frame id does not match request id" in
      let text : Bytes = codes "native agent frame id mismatch" in
      let said : Turn = say env text t in
      if-both (Result env) (native_event_is_lifecycle kind) v (
        unreported (
          more_cycles (engine_send_error env kind_name detail said)
            (engine_send_error-Sound kind_name detail said (say-Sound text t v))))

  on_frame-Result :
      (p : Poll) (script : List Poll) (resp : Bytes) (ev : NativeEvent) (t : Turn)
      → Sound env 64 t
      → Result env (on_frame env p script resp ev t)
  unfolding on_frame
  on_frame-Result p script resp ev t v =
      let t' : Turn = heartbeat_if_live env (record t { remaining_timeout = full_timeout env }) in
      let v' : Sound env 64 t' =
        heartbeat_if_live-Sound (record t { remaining_timeout = full_timeout env }) v in
      if-both (Result env) (is_foreign env resp ev) (on_foreign-Result ev.kind t' v')
        (dispatch-Result p script resp ev ev.kind t' v')

  on_silence-Result :
      (late : List (Option Bytes)) (t : Turn) → Sound env 64 t → Result env (on_silence env late t)
  unfolding on_silence str_eq
  on_silence-Result late t v =
      let left = t.remaining_timeout - poll_ms env t.remaining_timeout in
      let t' : Turn = record (heartbeat_if_live env t) { remaining_timeout = left } in
      let v' : Sound env 64 t' = heartbeat_if_live-Sound t v in
      let kind_name : Bytes = codes "handshake_timeout" in
      let text : Bytes = codes "native agent response timeout" in
      let said : Turn = say env text (control_plane env late t') in
      if-both (Result env) (leb left 0)
        (emit_turn_metrics-Ended (codes "timeout") (pos 0) (pos 0)
          (engine_send_error env kind_name text said)
          (engine_send_error-Sound kind_name text said
            (say-Sound text (control_plane env late t') (control_plane-Sound late t' v'))))
        v'

module _ {Item : Type 0} (J : CJson Item) (env : Env) where
  after_read-Result :
      (p : Poll) (script : List Poll) (resp : Option Bytes) (t : Turn)
      → Sound env 64 t
      → Result env (after_read J env p script resp t)
  unfolding after_read
  after_read-Result p script none t v = on_silence-Result (next_clients script) t v
  after_read-Result p script (some resp) t v =
      on_frame-Result p script resp (native_parse_frame J env.stale resp) t v

  pub turn_poll-Result :
      (p : Poll) (script : List Poll) (t : Turn)
      → Sound env 64 t
      → Result env (turn_poll J env p script t)
  unfolding turn_poll str_eq
  turn_poll-Result p script t v =
      let served : Turn = control_plane env p.clients t in
      let v' : Sound env 64 served = control_plane-Sound p.clients t v in
      let r = engine_read_frame_timeout env p.read served in
      if-both (Result env) (env.server && served.cancelled)
        (emit_turn_metrics-Ended (codes "cancelled") (pos 0) (pos 0)
          (say env (codes "cancelled") served) (say-Sound (codes "cancelled") served v'))
        (after_read-Result p script r.0 r.1 (engine_read_frame_timeout-Sound p.read served v'))

  limit_reached-Result :
      (t : Turn) → Sound env 64 t → Result env (done true (limit_reached J env t))
  unfolding str_eq
  limit_reached-Result t v =
      emit_turn_metrics-Ended (codes "incomplete") (pos 0) (pos 0)
        (record t { event_limit_exceeded = true }) v

  pub event_loop-Result :
      (script : List Poll) (t : Turn) → Sound env 64 t → Result env (event_loop J env script t)
  unfolding event_loop
  event_loop-Result [] t v =
      if-both (Result env) (ltb t.event_count env.max_turn_events) v (limit_reached-Result t v)
  event_loop-Result (p ∷ script) t v =
      if-both (Result env) (ltb t.event_count env.max_turn_events)
        (go (turn_poll J env p script t) (λ t' v'. event_loop-Result script t' v')
          (turn_poll-Result p script t v))
        (limit_reached-Result t v)
    where
      go :
          (next : Next)
          → ((t' : Turn) → Sound env 64 t' → Result env (event_loop J env script t'))
          → Result env next
          → Result env
              (elim next [ done ok t' ↦ done ok t' | more t' ↦ event_loop J env script t' ])
      go (more t') rest v' = rest t' v'
      go (done ok t') rest v' = v'
