-- ===== src/Turn/Ack/Accepted.antt =====
-- When a turn takes its request as acknowledged, and what it leaves if not.
use star_bridge.Base.{
  ℕ, suc, ◌≡◌, ◌⊎◌, Bool, true, false, Option, none, some, List, [], ◌∷◌, ◌++◌, Bytes, codes,
  copy_bounded, contains,
}
use star_bridge.Frame.Build.{show_int}
use star_bridge.Native.{CJson, NativeEventType, NativeEvent, native_parse_frame}
use star_bridge.Turn.State.{Read, no_frame, too_large, frame, Env, Turn}
use star_bridge.Turn.Ack.{
  Verdict, skip, invalid, busy, rejected, accepted, verdict, refuse, retry_ms, ack_loop,
  ack_timeout,
}

-- The kinds of frames that belong to the heartbeat.
pub data IsLifecycle : NativeEventType → Type 0 where
  health : IsLifecycle NativeEventType.health
  ping : IsLifecycle NativeEventType.ping
  pong : IsLifecycle NativeEventType.pong
  ready : IsLifecycle NativeEventType.ready
  shutdown : IsLifecycle NativeEventType.shutdown
  shutdown_ack : IsLifecycle NativeEventType.shutdown_ack

-- A frame that is passed over: it belongs to the heartbeat or says that it is an event.
abbrev pub IsSkipped : Bytes → NativeEvent → Type 0
IsSkipped resp ev = IsLifecycle ev.kind ⊎ (contains resp (codes "\"type\":\"event\"") ≡ true)

-- An acknowledgement of the request with this id, and of no other: an ack that is not passed over and has the
-- id somewhere in its text.
pub record Acknowledges (id resp : Bytes) (ev : NativeEvent) : Type 0 where
  pub not_skipped : IsSkipped resp ev → ⊥
  pub kind : ev.kind ≡ NativeEventType.ack
  pub names_request : contains resp id ≡ true

abbrev event_mark : Bytes
event_mark = codes "\"type\":\"event\""

module _ {Item : Type 0} (J : CJson Item) (env : Env) where
  abbrev pub event_of : Bytes → NativeEvent
  event_of resp = native_parse_frame J env.stale resp

  -- How `n` more reads end the wait: with the text that a failure leaves, or with none.
  pub data Waits : ℕ → List Read → Option Bytes → Type 0 where
    retries_spent :
        {reads : List Read} → Waits 0 reads (some (codes "native agent ack retry exhausted"))
    no_more : {n : ℕ} → Waits (suc n) [] (some (codes "native agent ack timeout"))
    timed_out :
        {n : ℕ} {reads : List Read}
        → Waits (suc n) (no_frame ∷ reads) (some (codes "native agent ack timeout"))
    oversized :
        {n : ℕ} {reads : List Read}
        → Waits (suc n) (too_large ∷ reads) (some (codes "native agent ack timeout"))
    passed_over :
        {n : ℕ} {reads : List Read} {resp : Bytes} {ending : Option Bytes}
        → IsSkipped resp (event_of resp)
        → Waits n reads ending
        → Waits (suc n) (frame resp ∷ reads) ending
    success :
        {n : ℕ} {reads : List Read} {resp : Bytes}
        → Acknowledges env.request_id resp (event_of resp)
        → (event_of resp).status ≡ codes "accepted"
        → Waits (suc n) (frame resp ∷ reads) none
    agent_busy :
        {n : ℕ} {reads : List Read} {resp : Bytes}
        → Acknowledges env.request_id resp (event_of resp)
        → (event_of resp).status ≡ codes "busy"
        → Waits (suc n) (frame resp ∷ reads) (
            some (
              codes "native agent busy (retry_after_ms="
              ++ (show_int (retry_ms resp) ++ codes ")")))
    unknown_status :
        {n : ℕ} {reads : List Read} {resp : Bytes}
        → Acknowledges env.request_id resp (event_of resp)
        → ((event_of resp).status ≡ codes "accepted" → ⊥)
        → ((event_of resp).status ≡ codes "busy" → ⊥)
        → Waits
            (suc n)
            (frame resp ∷ reads)
            (some (codes "native agent ack rejected (unknown status)"))
    not_an_ack :
        {n : ℕ} {reads : List Read} {resp : Bytes}
        → (IsSkipped resp (event_of resp) → ⊥)
        → (Acknowledges env.request_id resp (event_of resp) → ⊥)
        → Waits (suc n) (frame resp ∷ reads) (some (codes "native agent ack invalid or rejected"))

  -- The value that is returned and the output, after the output that stood before.
  abbrev pub Leaves : Option Bytes → Bytes → Bool × Turn → Type 0
  Leaves none before (ok, t) = (ok ≡ true) × (t.out_buf ≡ before)
  Leaves (some message) before (ok, t) =
      (ok ≡ false) × (t.out_buf ≡ copy_bounded env.out_max message)

  -- The result of the loop on `n` more reads.
  abbrev pub Outcome : ℕ → List Read → Bytes → Bool × Turn → Type 0
  Outcome n reads before result =
      (ending : Option Bytes) × (Waits n reads ending × Leaves ending before result)

  -- The tests of the loop on a frame, in the words above.
  data Judged (resp : Bytes) (ev : NativeEvent) : Verdict → Type 0 where
    is_skip : IsSkipped resp ev → Judged resp ev skip
    is_invalid :
        (IsSkipped resp ev → ⊥) → (Acknowledges env.request_id resp ev → ⊥) → Judged resp ev invalid
    is_busy : Acknowledges env.request_id resp ev → ev.status ≡ codes "busy" → Judged resp ev busy
    is_accepted :
        Acknowledges env.request_id resp ev → ev.status ≡ codes "accepted" → Judged resp ev accepted
    is_rejected :
        Acknowledges env.request_id resp ev
        → (ev.status ≡ codes "accepted" → ⊥)
        → (ev.status ≡ codes "busy" → ⊥)
        → Judged resp ev rejected

  -- The loop after a read.
  continue : ℕ → List Read → Option Bytes × Turn → Bool × Turn
  continue n reads r = elim r.0 [
    | none ↦ (false, ack_timeout env r.1)
    | some s ↦ elim (verdict env s (event_of s)) [
      | skip ↦ ack_loop J env n reads r.1
      | accepted ↦ (true, r.1)
      | v ↦ (false, refuse env s v r.1)
    ]
  ]
