-- ===== src/Turn/Events/Final.antt =====
-- The text that a response leaves as the output of its turn.
use mathlib.Core.Path.{subst}
use star_bridge.Base.{
  ℕ, zero, suc, ◌-◌, ◌<◌, ◌≡◌, refl, sym, ap, ap₂, ◌∙◌, Bool, true, false, some, List, [], ◌∷◌,
  ◌++◌, leb, arith, if◌then◌else◌, Bytes, length, take, length-take, codes, take-nil,
}
use star_bridge.Native.{CJson, NativeEventType, NativeEvent, native_parse_frame}
use star_bridge.Turn.State.{
  Poll, Env, Turn, append_text, heartbeat_if_live, full_timeout, emit_turn_metrics,
}
use star_bridge.Turn.Save.{save_after_turn}
use star_bridge.Turn.Kept.{heartbeat_if_live-On, show_text-On, stream_chunks-On, save_after_turn-On}
use star_bridge.Turn.Events.{
  Next, done, show_text, stream_chunks, on_response, dispatch, is_foreign, on_foreign, on_frame,
  after_read,
}

take-append : (n : ℕ) (a b : Bytes) → take n (a ++ b) ≡ take n a ++ take (n - length a) b
take-append n [] b =
    ap (λ k. take k b) (let e : n ≡ n - 0 = omega arith in e)
    ∙ ap (λ d. d ++ take (n - 0) b) (sym (take-nil n))
take-append zero (c ∷ a) b = ap (λ k. take k b) (let e : 0 ≡ 0 - suc (length a) = omega arith in e)
take-append (suc n) (c ∷ a) b =
    ap (◌∷◌ c) (take-append n a b ∙ ap (λ k. take n a ++ take k b) (omega arith))

-- Two texts after each other in an empty buffer are cut where the buffer ends.
append_text-append_text :
    (size : ℕ) (a b : Bytes)
    → 0 < size
    → append_text size (append_text size [] a) b ≡ take (size - 1) (a ++ b)
unfolding append_text
append_text-append_text size a b h = go (leb size 0) refl
  where
    first : Bytes
    first = take (size - 0 - 1) a

    short : length first < size
    short = omega (arith, length-take (size - 0 - 1) a)

    joined : first ++ take (size - length first - 1) b ≡ take (size - 1) (a ++ b)
    joined =
        ap₂ (λ n k. take n a ++ take k b) (let e : size - 0 - 1 ≡ size - 1 = omega arith in e)
          (let e : size - length first - 1 ≡ size - 1 - length a =
              omega (arith, length-take (size - 0 - 1) a) in
            e)
        ∙ sym (take-append (size - 1) a b)

    second :
        (b' : Bool)
        → leb size (length first) ≡ b'
        → (if b' then first else first ++ take (size - length first - 1) b)
          ≡ take (size - 1) (a ++ b)
    second true e = absurd (ground (arith, short))
    second false e = joined

    go :
        (b' : Bool)
        → leb size 0 ≡ b'
        → (let d : Bytes = if b' then [] else first in
            if leb size (length d) then d else d ++ take (size - length d - 1) b)
          ≡ take (size - 1) (a ++ b)
    go true e = absurd (ground arith)
    go false e = second (leb size (length first)) refl

module _ {Item : Type 0} (J : CJson Item) (env : Env) where
  -- The statement about the output that a round leaves.
  abbrev Leaves : Bytes → Next → Type 0
  Leaves text next = (t' : Turn) × ((next ≡ done true t') × (t'.out_buf ≡ text))

  on_response-Leaves :
      (script : List Poll) (ev : NativeEvent) (t : Turn)
      → 0 < env.out_max
      → Leaves (take (env.out_max - 1) (t.event_prefix ++ ev.text)) (on_response env script ev t)
  unfolding on_response
  on_response-Leaves script ev t h =
      let text : Bytes =
        append_text env.out_max (append_text env.out_max [] t.event_prefix) ev.text in
      let P : ℕ → ℕ → Bytes → Bytes → Type 0 = λ c l o n. o ≡ text in
      let t₁ : Turn = record t { out_buf = text } in
      let kept = save_after_turn-On P env script (show_text env stream_chunks ev.text t₁) (
        show_text-On P env stream_chunks ev.text t₁ (stream_chunks-On P env ev.text t₁ refl)
          refl) in
      (
        emit_turn_metrics (codes "completed") ev.prompt_tokens ev.completion_tokens
            (save_after_turn env script (show_text env stream_chunks ev.text t₁)),
        (refl, kept ∙ append_text-append_text env.out_max t.event_prefix ev.text h),
      )

  -- A response ends its turn successfully, and the output is then the compaction notices and the
  -- response's own text, cut to the buffer: whatever text the deltas before it had left is gone.
  pub after_read-response :
      (p : Poll) (script : List Poll) (resp : Bytes) (t : Turn)
      → 0 < env.out_max
      → is_foreign env resp (native_parse_frame J env.stale resp) ≡ false
      → (native_parse_frame J env.stale resp).kind ≡ NativeEventType.response
      → (t' : Turn) × ((after_read J env p script (some resp) t ≡ done true t')
          × (t'.out_buf
              ≡ take
                  (env.out_max - 1)
                  (t.event_prefix ++ (native_parse_frame J env.stale resp).text)))
  unfolding after_read on_frame dispatch
  after_read-response p script resp t h own is_response =
      subst
        (λ f.
          Leaves text
            (if f then on_foreign env ev.kind t₁ else dispatch env p script resp ev ev.kind t₁))
        (sym own)
        (subst (λ k. Leaves text (dispatch env p script resp ev k t₁)) (sym is_response)
          (subst
            (λ n. Leaves (take (env.out_max - 1) (n ++ ev.text)) (on_response env script ev t₁))
            kept (on_response-Leaves script ev t₁ h)))
    where
      ev : NativeEvent
      ev = native_parse_frame J env.stale resp

      text : Bytes
      text = take (env.out_max - 1) (t.event_prefix ++ ev.text)

      t₁ : Turn
      t₁ = heartbeat_if_live env (record t { remaining_timeout = full_timeout env })

      kept : t₁.event_prefix ≡ t.event_prefix
      kept =
          heartbeat_if_live-On (λ c l o n. n ≡ t.event_prefix) env
            (record t { remaining_timeout = full_timeout env }) refl
