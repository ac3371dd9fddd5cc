-- ===== src/Turn/Ack.antt =====
-- `turn_await_ack`: the acknowledgement of the request.
pub mod Accepted
use star_bridge.Base.{
  ℕ, zero, suc, ◌+◌, ◌-◌, ◌*◌, ◌^◌, Bool, true, false, not, ◌&&◌, ◌||◌, Option, none, some, List,
  [], ◌∷◌, ◌++◌, ltb, leb, ◌==◌, if◌then◌else◌, Bytes, codes, str_eq, contains,
}
use star_bridge.Sessions.{ℤ, pos}
use star_bridge.Frame.Build.{show_int}
use star_bridge.Turn.Fields.{extract_json_string_field, atoi}
use star_bridge.Native.{
  CJson, NativeEventType, NativeEvent, native_event_is_lifecycle, native_parse_frame,
}
use star_bridge.Turn.State.{Env, Turn, Read, say, engine_send_error, engine_read_frame_timeout}

-- What the loop of `turn_await_ack` decides on a frame.
pub data Verdict : Type 0 where
  skip invalid busy rejected accepted : Verdict

abbrev pub is_ack : NativeEventType → Bool
is_ack NativeEventType.ack = true
is_ack _ = false

-- The tests on a frame and its event, in their order.
unfoldable pub verdict : Env → Bytes → NativeEvent → Verdict
verdict env resp ev =
    if native_event_is_lifecycle ev.kind || contains resp (codes "\"type\":\"event\"")
    then skip
    else if not (is_ack ev.kind) || not (contains resp env.request_id)
    then invalid
    else if str_eq ev.status (codes "busy")
    then busy
    else if str_eq ev.status (codes "accepted")
    then accepted
    else rejected

-- `retry_ms`
unfoldable pub retry_ms : Bytes → ℤ
retry_ms resp = elim (extract_json_string_field resp (codes "retry_after_ms") 32) [
  | none ↦ pos 0
  | some text ↦ atoi text
]

-- What the function leaves when it returns false on a frame.
unfoldable pub refuse : Env → Bytes → Verdict → Turn → Turn
refuse env resp busy t = engine_send_error env (codes "native_busy") (codes "agent busy") (
    say env (codes "native agent busy (retry_after_ms=" ++ (show_int (retry_ms resp) ++ codes ")"))
      t)
refuse env resp rejected t = say env (codes "native agent ack rejected (unknown status)") t
refuse env resp _ t = say env (codes "native agent ack invalid or rejected") t

abbrev pub exhausted : Env → Turn → Turn
exhausted env t =
    engine_send_error env (codes "handshake_timeout") (codes "ack retry exhausted")
      (say env (codes "native agent ack retry exhausted") t)

-- What the function leaves when no frame comes in time.
abbrev pub ack_timeout : Env → Turn → Turn
ack_timeout env t =
    engine_send_error env (codes "handshake_timeout") (codes "ack frame timeout")
      (say env (codes "native agent ack timeout") t)

module _ {Item : Type 0} (J : CJson Item) (env : Env) where
  -- The loop of `turn_await_ack` with the retries that are left, on what its reads find; an absent
  -- read is one that finds nothing.
  unfoldable pub ack_loop : ℕ → List Read → Turn → Bool × Turn
  ack_loop zero reads t = (false, exhausted env t)
  ack_loop (suc retries) [] t = (false, ack_timeout env t)
  ack_loop (suc retries) (read ∷ reads) t =
      let (resp, t') = engine_read_frame_timeout env read t in
      let again : Bool × Turn = ack_loop retries reads t' in
      elim resp [
        | none ↦ (false, ack_timeout env t')
        | some s ↦ elim (verdict env s (native_parse_frame J env.stale s)) [
          | skip ↦ again
          | accepted ↦ (true, t')
          | v ↦ (false, refuse env s v t')
        ]
      ]

  -- `turn_await_ack`
  unfoldable pub turn_await_ack : List Read → Turn → Bool × Turn
  turn_await_ack reads t = ack_loop 5 reads t
