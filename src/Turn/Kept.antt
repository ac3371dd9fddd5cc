-- ===== src/Turn/Kept.antt =====
-- The fields that the helpers of a turn leave alone: what holds of them before holds after.
use star_bridge.Base.{
  ℕ, ◌+◌, Bool, not, ◌&&◌, ◌||◌, Option, none, some, List, [], ◌∷◌, ◌++◌, leb, if◌then◌else◌, Bytes,
  length, codes, is_empty, copy_bounded, if-both,
}
use star_bridge.Sessions.{compute_session_key, session_index_lookup}
use star_bridge.Stream.State.{Stream}
use star_bridge.Stream.Ops.{emit_text_delta}
use star_bridge.Frame.Build.{Buffer}
use star_bridge.Tools.Policy.{is_denied, args_valid}
use star_bridge.Tools.Runner.{RunPlan, finished, spawn, cleared, tool_runner_run}
use star_bridge.Turn.State.{
  Effect, sse_delta, sent, Read, no_frame, too_large, frame, Poll, Env, Turn, log,
  engine_send_error, engine_cancel, engine_read_frame_timeout, heartbeat_if_live, emit_chunks,
}
use star_bridge.Turn.Control.{
  Route, models, cancel, conflict, not_found, serve, route_of, request_line, answer,
  handle_midturn_control_plane, control_plane,
}
use star_bridge.Turn.Tool.{finish_run, refuse_tool, run_tool, do_tool}
use star_bridge.Turn.Save.{save_state_text, engine_save_session_state, save_after_turn, next_read}
use star_bridge.Turn.Events.{show_text, stream_delta, stream_chunks}

-- The counter, the timeout, the output, and the notices.
module _ (P : ℕ → ℕ → Bytes → Bytes → Type 0) (env : Env) where
  abbrev pub On : Turn → Type 0
  On t = P t.event_count t.remaining_timeout t.out_buf t.event_prefix

  pub engine_send_error-On :
      (error_type detail : Bytes) (t : Turn) → On t → On (engine_send_error env error_type detail t)
  unfolding engine_send_error
  engine_send_error-On error_type detail t v = if-both On (env.framed_mode && env.stdin_open) v v

  pub heartbeat_if_live-On : (t : Turn) → On t → On (heartbeat_if_live env t)
  heartbeat_if_live-On t v = if-both On env.live v v

  engine_cancel-On : (t : Turn) → On t → On (engine_cancel env t)
  unfolding engine_cancel
  engine_cancel-On t v =
      if-both On t.cancelled v (if-both On (env.framed_mode && env.stdin_open) v v)

  serve-On : (r : Route) (t : Turn) → On t → On (serve env r t)
  unfolding serve
  serve-On models t v = v
  serve-On cancel t v = engine_cancel-On t v
  serve-On conflict t v = v
  serve-On not_found t v = v

  answer-On : (client : Option Bytes) (t : Turn) → On t → On (answer env client t)
  unfolding answer
  answer-On none t v = v
  answer-On (some text) t v = go (request_line text)
    where
      go :
          (line : Option (Bytes × Bytes))
          → On (elim line [ none ↦ t | some l ↦ serve env (route_of l.0 l.1) t ])
      go none = v
      go (some l) = serve-On (route_of l.0 l.1) t v

  handle-On :
      (clients : List (Option Bytes)) (t : Turn)
      → On t
      → On (handle_midturn_control_plane env clients t)
  unfolding handle_midturn_control_plane
  handle-On [] t v = v
  handle-On (client ∷ clients) t v = handle-On clients (answer env client t) (answer-On client t v)

  pub control_plane-On :
      (clients : List (Option Bytes)) (t : Turn) → On t → On (control_plane env clients t)
  control_plane-On clients t v = if-both On env.server (handle-On clients t v) v

  pub engine_read_frame_timeout-On :
      (read : Read) (t : Turn) → On t → On (engine_read_frame_timeout env read t).1
  unfolding engine_read_frame_timeout
  engine_read_frame_timeout-On no_frame t v = v
  engine_read_frame_timeout-On too_large t v =
      if-both (λ (r : Option Bytes × Turn). On r.1) env.framed_mode (engine_send_error-On _ _ t v) v
  engine_read_frame_timeout-On (frame s) t v =
      if-both (λ (r : Option Bytes × Turn). On r.1) env.framed_mode v v

  pub show_text-On :
      (to_stream : Bytes → Turn → Turn) (text : Bytes) (t : Turn)
      → On (to_stream text t)
      → On t
      → On (show_text env to_stream text t)
  unfolding show_text
  show_text-On to_stream text t streamed v = if-both On (is_empty text) v (go t.stream)
    where
      plain : Effect
      plain =
          sse_delta (copy_bounded 8192 (codes "{\"delta\":\"" ++ (text ++ codes "\"}"))) t.delta_seq

      go :
          (stream : Option Stream)
          → On (elim stream [
            | some s ↦ to_stream text t
            | none ↦ if env.live then log plain (record t { delta_seq = t.delta_seq + 1 }) else t
          ])
      go none = if-both On env.live v v
      go (some s) = streamed

  pub stream_delta-On : (text : Bytes) (t : Turn) → On t → On (stream_delta text t)
  unfolding stream_delta
  stream_delta-On text t v = go t.stream
    where
      go :
          (stream : Option Stream)
          → On (elim stream [
            | none ↦ t
            | some s ↦ record t { stream = some (emit_text_delta text s).0 }
          ])
      go none = v
      go (some s) = v

  pub stream_chunks-On : (text : Bytes) (t : Turn) → On t → On (stream_chunks text t)
  unfolding stream_chunks
  stream_chunks-On text t v = go t.stream
    where
      go :
          (stream : Option Stream)
          → On (elim stream [
            | none ↦ t
            | some s ↦ record t { stream = some (emit_chunks (length text) text s) }
          ])
      go none = v
      go (some s) = v

  finish_run-On : (plan : RunPlan) (t : Turn) → On t → On (finish_run env plan t).2
  unfolding finish_run
  finish_run-On (finished result ok) t v = v
  finish_run-On (spawn command result) t v = v

  pub do_tool-On : (name args : Bytes) (t : Turn) → On t → On (do_tool env name args t).1
  unfolding do_tool refuse_tool run_tool
  do_tool-On name args t v =
      let P₂ : Buffer × Turn → Type 0 = λ r. On r.1 in
      let saved : Turn = record t {
        last_tool_name = copy_bounded 64 name;
        last_tool_args = copy_bounded 2048 (if is_empty args then codes "{}" else args);
        last_tool_run = cleared;
      } in
      let plan =
        tool_runner_run env.callback env.pipes env.pipe_error name args env.shell_command_enabled in
      if-both P₂ (is_denied name) v
        (if-both P₂ (not (args_valid name args)) v (finish_run-On plan saved v))

  engine_save_session_state-On :
      (key state_id : Bytes) (read : Read) (t : Turn)
      → On t
      → On (engine_save_session_state env key state_id read t).1
  unfolding engine_save_session_state
  engine_save_session_state-On key state_id read t v =
      if-both (λ (r : Bool × Turn). On r.1)
        (not env.framed_mode || leb 1024 (length (save_state_text key state_id))) v
        (engine_read_frame_timeout-On read (log (sent (save_state_text key state_id)) t) v)

  pub save_after_turn-On :
      (script : List Poll) (t : Turn) → On t → On (save_after_turn env script t)
  unfolding save_after_turn
  save_after_turn-On script t v =
      if-both On (is_empty env.last_session_id || not env.auto_save_kv_cache) v
        (if-both On (is_empty key) v (go (session_index_lookup (some key) env.index)))
    where
      key : Bytes
      key = compute_session_key (some env.workspace) (some env.last_session_id)

      t' : Turn
      t' = record t { session_id = copy_bounded 256 env.last_session_id; session_key = key }

      go :
          (state : Option Bytes)
          → On (elim state [
            | none ↦ t'
            | some state_id ↦ (engine_save_session_state env key state_id (next_read script) t').1
          ])
      go none = v
      go (some state_id) = engine_save_session_state-On key state_id (next_read script) t' v
