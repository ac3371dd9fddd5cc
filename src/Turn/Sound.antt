-- ===== src/Turn/Sound.antt =====
-- What holds of a turn while its loop runs, and the helpers that keep it.
use star_bridge.Base.{
  ℕ, ◌-◌, ◌<◌, ◌≤◌, ◌≡◌, true, false, ◌&&◌, Option, none, some, List, [], ◌∷◌, arith, Bytes, length,
  length-append, length-take, take, codes, copy_bounded, All, All-append, if-both,
}
use star_bridge.Tools.Json.{object_field}
use star_bridge.Turn.State.{
  engine_set_turn_active, Effect, started, sse_heartbeat, metrics, Read, no_frame, too_large, frame,
  Env, Turn, log, say, append_text, append_compaction_notice, engine_send_error, engine_cancel,
  engine_read_frame_timeout, heartbeat_if_live,
}
use star_bridge.Turn.Control.{
  Route, models, cancel, conflict, not_found, serve, route_of, request_line, answer,
  handle_midturn_control_plane, control_plane,
}

-- The command of an enabled shell command whose arguments were validated.
abbrev pub Commanded : Env → Bytes → Type 0
Commanded env command =
    (env.shell_command_enabled ≡ true)
    × ((args : Bytes) × (object_field 2048 args (codes "command") ≡ some command))

-- What a running turn may have done: no analytics line yet, and no child but those.
abbrev pub Allowed : Env → Effect → Type 0
Allowed env (started command) = Commanded env command
Allowed env (metrics status prompt completion calls bytes) = ⊥
Allowed env _ = Unit {0}

-- The buffers hold their terminators, at most `limit` tool intents are counted, and what is done is
-- allowed.
pub record SoundAt (env : Env) (limit : ℕ) (out_buf notices : Bytes) (calls cycles : ℕ)
    (out : List Effect) : Type 0 where
  pub text : length out_buf < env.out_max
  pub notices_fit : length notices < 8192
  pub counted_twice : calls ≡ cycles
  pub few : cycles ≤ limit
  pub allowed : All (Allowed env) out

abbrev pub Sound : Env → ℕ → Turn → Type 0
Sound env limit t = SoundAt env limit t.out_buf t.event_prefix t.tool_calls t.tool_cycles t.out

pub length-copy_bounded : (size : ℕ) (s : Bytes) → 0 < size → length (copy_bounded size s) < size
length-copy_bounded size s h = omega (arith, length-take (size - 1) s)

pub length-append_text :
    (size : ℕ) (dest text : Bytes) → length dest < size → length (append_text size dest text) < size
unfolding append_text
length-append_text size dest text h = ground (
  arith,
  length-append dest (take (size - length dest - 1) text),
  length-take (size - length dest - 1) text,
)

pub length-append_compaction_notice :
    (size : ℕ) (dest message : Bytes)
    → length dest < size
    → length (append_compaction_notice size dest message) < size
unfolding append_compaction_notice
length-append_compaction_notice size dest message h =
    length-append_text size _ _ (length-append_text size _ _ (length-append_text size dest _ h))

module _ {env : Env} {limit : ℕ} where
  pub log-Sound :
      (e : Effect) (t : Turn) → Allowed env e → Sound env limit t → Sound env limit (log e t)
  log-Sound e t ok v = record {
    text = v.text;
    notices_fit = v.notices_fit;
    counted_twice = v.counted_twice;
    few = v.few;
    allowed = All-append (Allowed env) t.out (e ∷ []) v.allowed (ok, tt);
  }

  -- A new text in the buffer.
  pub out_buf-Sound :
      (text : Bytes) (t : Turn)
      → length text < env.out_max
      → Sound env limit t
      → Sound env limit (record t { out_buf = text })
  out_buf-Sound text t h v = record {
    text = h;
    notices_fit = v.notices_fit;
    counted_twice = v.counted_twice;
    few = v.few;
    allowed = v.allowed;
  }

  pub say-Sound : (text : Bytes) (t : Turn) → Sound env limit t → Sound env limit (say env text t)
  say-Sound text t v =
      out_buf-Sound _ t (length-copy_bounded env.out_max text (omega (arith, v.text))) v

  pub engine_send_error-Sound :
      (error_type detail : Bytes) (t : Turn)
      → Sound env limit t
      → Sound env limit (engine_send_error env error_type detail t)
  unfolding engine_send_error
  engine_send_error-Sound error_type detail t v =
      if-both (Sound env limit) (env.framed_mode && env.stdin_open) (log-Sound _ t tt v) v

  pub heartbeat_if_live-Sound :
      (t : Turn) → Sound env limit t → Sound env limit (heartbeat_if_live env t)
  heartbeat_if_live-Sound t v =
      if-both (Sound env limit) env.live (log-Sound sse_heartbeat t tt v) v

  engine_cancel-Sound : (t : Turn) → Sound env limit t → Sound env limit (engine_cancel env t)
  unfolding engine_cancel
  engine_cancel-Sound t v = if-both (Sound env limit) t.cancelled v (
      if-both (Sound env limit) (env.framed_mode && env.stdin_open)
        (log-Sound _ (record t { cancelled = true }) tt v) v)

  serve-Sound : (r : Route) (t : Turn) → Sound env limit t → Sound env limit (serve env r t)
  unfolding serve
  serve-Sound models t v = log-Sound _ t tt v
  serve-Sound cancel t v =
      log-Sound _ (engine_set_turn_active false (engine_cancel env t)) tt (engine_cancel-Sound t v)
  serve-Sound conflict t v = log-Sound _ t tt v
  serve-Sound not_found t v = log-Sound _ t tt v

  answer-Sound :
      (client : Option Bytes) (t : Turn) → Sound env limit t → Sound env limit (answer env client t)
  unfolding answer
  answer-Sound none t v = v
  answer-Sound (some text) t v = go (request_line text)
    where
      go :
          (line : Option (Bytes × Bytes))
          → Sound env limit (elim line [ none ↦ t | some l ↦ serve env (route_of l.0 l.1) t ])
      go none = v
      go (some l) = serve-Sound (route_of l.0 l.1) t v

  handle-Sound :
      (clients : List (Option Bytes)) (t : Turn)
      → Sound env limit t
      → Sound env limit (handle_midturn_control_plane env clients t)
  unfolding handle_midturn_control_plane
  handle-Sound [] t v = v
  handle-Sound (client ∷ clients) t v =
      handle-Sound clients (answer env client t) (answer-Sound client t v)

  pub control_plane-Sound :
      (clients : List (Option Bytes)) (t : Turn)
      → Sound env limit t
      → Sound env limit (control_plane env clients t)
  control_plane-Sound clients t v =
      if-both (Sound env limit) env.server (handle-Sound clients t v) v

  pub engine_read_frame_timeout-Sound :
      (read : Read) (t : Turn)
      → Sound env limit t
      → Sound env limit (engine_read_frame_timeout env read t).1
  unfolding engine_read_frame_timeout
  engine_read_frame_timeout-Sound no_frame t v = v
  engine_read_frame_timeout-Sound too_large t v =
      if-both (λ (r : Option Bytes × Turn). Sound env limit r.1) env.framed_mode
        (engine_send_error-Sound _ _ t v) v
  engine_read_frame_timeout-Sound (frame s) t v =
      if-both (λ (r : Option Bytes × Turn). Sound env limit r.1) env.framed_mode v v
