-- ===== src/Turn/Events/Ends.antt =====
-- How the loop of a turn ends.
use star_bridge.Base.{
  ℕ, ◌+◌, ◌≤◌, ◌≡◌, refl, Bool, true, false, ◌||◌, Option, none, some, List, [], ◌∷◌, ◌++◌, ltb,
  arith, if◌then◌else◌, Bytes, length, str_eq, codes, is_empty, copy_bounded, if-both,
}
use star_bridge.Sessions.{ℤ}
use star_bridge.Frame.Build.{Buffer}
use star_bridge.Stream.State.{Stream}
use star_bridge.Stream.Ops.{emit_text_delta}
use star_bridge.Turn.State.{
  Effect, metrics, Env, Turn, log, say, sse_delta, emit_turn_metrics, emit_chunks,
}
use star_bridge.Turn.Sound.{SoundAt, Sound, log-Sound, out_buf-Sound, say-Sound, length-append_text}
use star_bridge.Turn.Tool.{do_tool, send_built}
use star_bridge.Turn.Tool.Commands.{do_tool-Sound, send_built-Sound}
use star_bridge.Turn.Events.{
  Next, more, done, counted, show_text, stream_delta, stream_chunks, on_other, on_tool_intent,
}

-- The outcomes that are a success.
abbrev pub is_success : Bytes → Bool
is_success status = str_eq status (codes "completed") || str_eq status (codes "incomplete")

-- A turn that has ended: its last effect is its only analytics line, whose status says whether it
-- succeeded; or it has failed without one.
pub data Ended (env : Env) : Bool → Turn → Type 0 where
  reported :
      (status : Bytes) (prompt completion : ℤ) (earlier : List Effect) {t : Turn}
      → t.out ≡ earlier ++ (metrics status prompt completion t.tool_calls (length t.out_buf) ∷ [])
      → SoundAt env 64 t.out_buf t.event_prefix t.tool_calls t.tool_cycles earlier
      → Ended env (is_success status) t
  unreported : {t : Turn} → Sound env 65 t → Ended env false t

-- A loop that still runs has a sound turn.
abbrev pub Result : Env → Next → Type 0
Result env (more t) = Sound env 64 t
Result env (done ok t) = Ended env ok t

module _ {env : Env} where
  pub emit_turn_metrics-Ended :
      (status : Bytes) (prompt completion : ℤ) (t : Turn)
      → Sound env 64 t
      → Ended env (is_success status) (emit_turn_metrics status prompt completion t)
  emit_turn_metrics-Ended status prompt completion t v =
      reported status prompt completion t.out refl v

  pub more_cycles : (t : Turn) → Sound env 64 t → Sound env 65 t
  more_cycles t v = record {
    text = v.text;
    notices_fit = v.notices_fit;
    counted_twice = v.counted_twice;
    few = omega (arith, v.few);
    allowed = v.allowed;
  }

  pub show_text-Sound :
      (to_stream : Bytes → Turn → Turn) (text : Bytes) (t : Turn)
      → (Sound env 64 t → Sound env 64 (to_stream text t))
      → Sound env 64 t
      → Sound env 64 (show_text env to_stream text t)
  unfolding show_text
  show_text-Sound to_stream text t streamed v =
      if-both (Sound env 64) (is_empty text) v (go t.stream)
    where
      plain : Effect
      plain =
          sse_delta (copy_bounded 8192 (codes "{\"delta\":\"" ++ (text ++ codes "\"}"))) t.delta_seq

      go :
          (stream : Option Stream)
          → Sound env 64 (elim stream [
            | some s ↦ to_stream text t
            | none ↦ if env.live then log plain (record t { delta_seq = t.delta_seq + 1 }) else t
          ])
      go none =
          if-both (Sound env 64) env.live
            (log-Sound plain (record t { delta_seq = t.delta_seq + 1 }) tt v) v
      go (some s) = streamed v

  pub stream_delta-Sound :
      (text : Bytes) (t : Turn) → Sound env 64 t → Sound env 64 (stream_delta text t)
  unfolding stream_delta
  stream_delta-Sound text t v = go t.stream
    where
      go :
          (stream : Option Stream)
          → Sound env 64 (elim stream [
            | none ↦ t
            | some s ↦ record t { stream = some (emit_text_delta text s).0 }
          ])
      go none = v
      go (some s) = v

  pub stream_chunks-Sound :
      (text : Bytes) (t : Turn) → Sound env 64 t → Sound env 64 (stream_chunks text t)
  unfolding stream_chunks
  stream_chunks-Sound text t v = go t.stream
    where
      go :
          (stream : Option Stream)
          → Sound env 64 (elim stream [
            | none ↦ t
            | some s ↦ record t { stream = some (emit_chunks (length text) text s) }
          ])
      go none = v
      go (some s) = v

  pub on_other-Result :
      (resp : Bytes) (t : Turn) → Sound env 64 t → Result env (on_other env resp t)
  unfolding on_other
  on_other-Result resp t v =
      out_buf-Sound _ t
        (length-append_text env.out_max _ resp
          (length-append_text env.out_max [] t.event_prefix (omega (arith, v.text))))
        v

  pub on_tool_intent-Result :
      (malloc_ok : Bool) (name args : Bytes) (t : Turn)
      → Sound env 64 t
      → Result env (on_tool_intent env malloc_ok name args t)
  unfolding on_tool_intent
  on_tool_intent-Result malloc_ok name args t v = go (ltb 64 (t.tool_cycles + 1)) refl
    where
      t' : Turn
      t' = record t { tool_cycles = t.tool_cycles + 1; tool_calls = t.tool_calls + 1 }

      counting : (limit : ℕ) → t.tool_cycles + 1 ≤ limit → Sound env limit t'
      counting limit le = record {
        text = v.text;
        notices_fit = v.notices_fit;
        counted_twice = omega (arith, v.counted_twice);
        few = le;
        allowed = v.allowed;
      }

      frame : Buffer
      frame = (do_tool env name args t').0

      ran : Turn
      ran = (do_tool env name args t').1

      go :
          (over : Bool)
          → ltb 64 (t.tool_cycles + 1) ≡ over
          → Result env (
              if over
              then done false (say env (codes "native agent tool cycle limit exceeded") t')
              else if malloc_ok
              then counted (send_built frame ran)
              else done false (say env (codes "native agent tool result build failed") ran))
      go true e = unreported (say-Sound _ t' (counting 65 (omega (arith, v.few))))
      go false e =
          let kept : Sound env 64 ran = do_tool-Sound name args t' (counting 64 (ground arith)) in
          if-both (Result env) malloc_ok (send_built-Sound frame ran kept)
            (unreported (say-Sound _ ran (more_cycles ran kept)))
