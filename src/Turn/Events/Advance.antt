-- ===== src/Turn/Events/Advance.antt =====
-- What a round of the loop of a turn changes in its counter and its timeout.
use mathlib.Core.Path.{subst}
use star_bridge.Base.{
  ℕ, ◌+◌, ◌-◌, ◌<◌, ◌≤◌, ◌≡◌, ◌⊎◌, inl, inr, refl, sym, ap, Bool, true, false, ◌&&◌, Option, List,
  ltb, leb, if◌then◌else◌, arith, Bytes, codes, if-both,
}
use star_bridge.Sessions.{pos}
use star_bridge.Frame.Build.{Buffer}
use star_bridge.Native.{
  CJson, NativeEventType, NativeEvent, native_event_is_lifecycle, native_parse_frame,
}
use star_bridge.Turn.State.{
  Read, no_frame, too_large, frame, Poll, Env, Turn, say, append_text, engine_send_error,
  engine_read_frame_timeout, emit_turn_metrics, heartbeat_if_live, full_timeout,
}
use star_bridge.Turn.Control.{control_plane}
use star_bridge.Turn.Tool.{do_tool, send_built}
use star_bridge.Turn.Kept.{
  On, heartbeat_if_live-On, control_plane-On, engine_send_error-On, show_text-On, stream_delta-On,
  do_tool-On,
}
use star_bridge.Turn.Events.{
  Next, more, done, counted, show_text, stream_delta, on_other, is_noise, on_tool_intent,
  on_response, dispatch, on_foreign, is_foreign, on_frame, poll_ms, on_silence, next_clients,
  after_read, turn_poll,
}

-- A frame that the loop does not count: a health frame with the id of another request.
unfoldable pub is_idle : {Item : Type 0} → CJson Item → Env → Read → Bool
is_idle J env (frame resp) =
    let ev = native_parse_frame J env.stale resp in
    is_foreign env resp ev && native_event_is_lifecycle ev.kind
is_idle J env _ = false

-- What a round that goes on has changed: it has counted a frame and has the full timeout again, or it
-- has spent some of the timeout.
abbrev pub Advance : Env → ℕ → ℕ → Next → Type 0
Advance env count left (done ok t) = Unit {0}
Advance env count left (more t) =
    ((t.event_count ≡ count + 1) × (t.remaining_timeout ≡ full_timeout env))
    ⊎ ((t.event_count ≡ count) × (t.remaining_timeout < left) × (1 ≤ t.remaining_timeout))

abbrev pub At : ℕ → ℕ → ℕ → ℕ → Bytes → Bytes → Type 0
At count left c l text notices = (c ≡ count) × (l ≡ left)

poll_ms-positive : (env : Env) (remaining : ℕ) → 1 ≤ remaining → 1 ≤ poll_ms env remaining
unfolding poll_ms
poll_ms-positive env remaining le = if-both (λ n. 1 ≤ n) env.server (omega arith) (omega arith)

module _ (env : Env) (count left : ℕ) where
  counted-Advance :
      (t : Turn)
      → (t.event_count ≡ count) × (t.remaining_timeout ≡ full_timeout env)
      → Advance env count left (counted t)
  counted-Advance t (e, l) = inl (ap (λ n. n + 1) e, l)

  on_tool_intent-Advance :
      (malloc_ok : Bool) (name args : Bytes) (t : Turn)
      → (t.event_count ≡ count) × (t.remaining_timeout ≡ full_timeout env)
      → Advance env count left (on_tool_intent env malloc_ok name args t)
  unfolding on_tool_intent
  on_tool_intent-Advance malloc_ok name args t v =
      let t' : Turn = record t { tool_cycles = t.tool_cycles + 1; tool_calls = t.tool_calls + 1 } in
      let r : Buffer × Turn = do_tool env name args t' in
      if-both (Advance env count left) (ltb 64 (t.tool_cycles + 1)) tt (
        if-both (Advance env count left) malloc_ok
          (counted-Advance (send_built r.0 r.1)
            (do_tool-On (At count (full_timeout env)) env name args t' v))
          tt)

  dispatch-Advance :
      (p : Poll) (script : List Poll) (resp : Bytes) (ev : NativeEvent) (kind : NativeEventType)
      (t : Turn)
      → (t.event_count ≡ count) × (t.remaining_timeout ≡ full_timeout env)
      → Advance env count left (dispatch env p script resp ev kind t)
  unfolding dispatch on_other on_response
  dispatch-Advance p script resp ev NativeEventType.text_delta t v =
      let t' : Turn = record t { out_buf = append_text env.out_max t.out_buf ev.text } in
      counted-Advance (show_text env stream_delta ev.text t') (
        show_text-On (At count (full_timeout env)) env stream_delta ev.text t'
          (stream_delta-On (At count (full_timeout env)) env ev.text t' v) v)
  dispatch-Advance p script resp ev NativeEventType.unknown t v =
      if-both (Advance env count left) (is_noise resp) (counted-Advance t v) (counted-Advance t v)
  dispatch-Advance p script resp ev NativeEventType.compaction t v = counted-Advance t v
  dispatch-Advance p script resp ev NativeEventType.cancelled t v = tt
  dispatch-Advance p script resp ev NativeEventType.error t v = tt
  dispatch-Advance p script resp ev NativeEventType.tool_intent t v =
      on_tool_intent-Advance p.malloc_ok ev.tool_name ev.tool_args t v
  dispatch-Advance p script resp ev NativeEventType.response t v = tt
  dispatch-Advance p script resp ev NativeEventType.ack t v = counted-Advance t v
  dispatch-Advance p script resp ev NativeEventType.health t v = counted-Advance t v
  dispatch-Advance p script resp ev NativeEventType.ping t v = counted-Advance t v
  dispatch-Advance p script resp ev NativeEventType.pong t v = counted-Advance t v
  dispatch-Advance p script resp ev NativeEventType.ready t v = counted-Advance t v
  dispatch-Advance p script resp ev NativeEventType.shutdown t v = counted-Advance t v
  dispatch-Advance p script resp ev NativeEventType.shutdown_ack t v = counted-Advance t v

  on_foreign-Advance :
      (kind : NativeEventType) (t : Turn)
      → native_event_is_lifecycle kind ≡ false
      → Advance env count left (on_foreign env kind t)
  unfolding on_foreign
  on_foreign-Advance kind t e =
      subst
        (λ l. Advance env count left (
          if l
          then more t
          else done false (
              engine_send_error env (codes "request_id_mismatch")
                (codes "frame id does not match request id")
                (say env (codes "native agent frame id mismatch") t))))
        (sym e) tt

  on_frame-Advance :
      (p : Poll) (script : List Poll) (resp : Bytes) (ev : NativeEvent) (t : Turn)
      → (is_foreign env resp ev && native_event_is_lifecycle ev.kind) ≡ false
      → t.event_count ≡ count
      → Advance env count left (on_frame env p script resp ev t)
  unfolding on_frame
  on_frame-Advance p script resp ev t idle e = go (is_foreign env resp ev) refl
    where
      t' : Turn
      t' = heartbeat_if_live env (record t { remaining_timeout = full_timeout env })

      go :
          (f : Bool)
          → is_foreign env resp ev ≡ f
          → Advance env count left
              (if f then on_foreign env ev.kind t' else dispatch env p script resp ev ev.kind t')
      go true e₁ = on_foreign-Advance ev.kind t' (ground arith)
      go false e₁ = dispatch-Advance p script resp ev ev.kind t' (
          heartbeat_if_live-On (At count (full_timeout env)) env
            (record t { remaining_timeout = full_timeout env }) (e, refl))

  on_silence-Advance :
      (late : List (Option Bytes)) (t : Turn)
      → (t.event_count ≡ count) × (t.remaining_timeout ≡ left)
      → 1 ≤ left
      → Advance env count left (on_silence env late t)
  unfolding on_silence
  on_silence-Advance late t (e, l) le = go (leb rest 0) refl
    where
      rest : ℕ
      rest = t.remaining_timeout - poll_ms env t.remaining_timeout

      t' : Turn
      t' = record (heartbeat_if_live env t) { remaining_timeout = rest }

      kept : (heartbeat_if_live env t).event_count ≡ count
      kept = (heartbeat_if_live-On (At count left) env t (e, l)).0

      go :
          (b : Bool)
          → leb rest 0 ≡ b
          → Advance env count left (
              if b
              then done false (
                  emit_turn_metrics (codes "timeout") (pos 0) (pos 0) (
                    engine_send_error env
                      (codes "handshake_timeout")
                      (codes "native agent response timeout")
                      (say env
                        (codes "native agent response timeout")
                        (control_plane env late t'))))
              else more t')
      go true b = tt
      go false b =
          let ms : 1 ≤ poll_ms env t.remaining_timeout =
            poll_ms-positive env t.remaining_timeout (omega arith) in
          inr (kept, omega arith, ground arith)

module _ {Item : Type 0} (J : CJson Item) (env : Env) where
  pub turn_poll-Advance :
      (p : Poll) (script : List Poll) (t : Turn)
      → is_idle J env p.read ≡ false
      → 1 ≤ t.remaining_timeout
      → Advance env t.event_count t.remaining_timeout (turn_poll J env p script t)
  unfolding turn_poll after_read engine_read_frame_timeout is_idle
  turn_poll-Advance p script t idle le =
      if-both A (env.server && served.cancelled) tt (go p.read idle)
    where
      A : Next → Type 0
      A = Advance env t.event_count t.remaining_timeout

      served : Turn
      served = control_plane env p.clients t

      here : On (At t.event_count t.remaining_timeout) env served
      here = control_plane-On (At t.event_count t.remaining_timeout) env p.clients t (refl, refl)

      silent :
          (t' : Turn)
          → On (At t.event_count t.remaining_timeout) env t'
          → A (on_silence env (next_clients script) t')
      silent t' v =
          on_silence-Advance env t.event_count t.remaining_timeout (next_clients script) t' v le

      go :
          (read : Read)
          → is_idle J env read ≡ false
          → A (
              after_read J env p script
                (engine_read_frame_timeout env read served).0
                (engine_read_frame_timeout env read served).1)
      go no_frame idle' = silent served here
      go too_large idle' =
          if-both (λ (r : Option Bytes × Turn). A (after_read J env p script r.0 r.1))
            env.framed_mode
            (silent _
              (engine_send_error-On (At t.event_count t.remaining_timeout) env _ _ served here))
            (silent served here)
      go (frame resp) idle' =
          if-both (λ (r : Option Bytes × Turn). A (after_read J env p script r.0 r.1))
            env.framed_mode
            (on_frame-Advance env t.event_count t.remaining_timeout p script resp
              (native_parse_frame J env.stale resp) served idle' here.0)
            (silent served here)
