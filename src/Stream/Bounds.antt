-- ===== src/Stream/Bounds.antt =====
-- The bounds of the arrays and buffers of a stream.
use star_bridge.Base.{
  ℕ, ◌≡◌, refl, Bool, true, false, Option, none, some, List, [], ◌∷◌, Bytes, arith, length,
  length-take, leb, take, Bool-cases, inl, inr, if◌then◌else◌,
}
use star_bridge.Stream.State.{
  output_text, reasoning_summary, function_call, Stream, Event, text_delta, reasoning_delta,
  arguments_delta, item_done, is_kind,
}
use star_bridge.Stream.Ops.{
  init, event_text, emit, beat, Result, accumulate, item_at, part_at, set_item, set_part,
  send_headers, emit_created, emit_text_delta, emit_reasoning_delta, emit_arguments_delta,
  emit_text_done, emit_part_done, emit_item_done, emit_completed, emit_error, emit_failed,
}
use star_bridge.Stream.Fits.{PartFits, ItemsFit, length-accumulate, item_done-ItemsFit}
use star_bridge.Stream.Run.{Op, step, run}
use star_bridge.Stream.Within.{
  NamesFit, IsWithin, start_item-IsWithin, emit-IsWithin, with_part-IsWithin, set_part-IsWithin,
  current-PartFits, start_part-IsWithin,
}

text-IsWithin :
    (event : ℕ → Event) (t : Bytes) (s : Stream) (i p : ℕ)
    → IsWithin s
    → s.cur_item ≡ some i
    → s.cur_part ≡ some p
    → IsWithin (
        set_part
          (emit event s)
          i
          p
          (record (part_at s i p) { text = accumulate (part_at s i p).text t }))
unfolding PartFits
text-IsWithin event t s i p w e e' =
    let fits : PartFits (part_at s i p) = current-PartFits s i p w in
    set_part-IsWithin (emit event s) i p
      (record (part_at s i p) { text = accumulate (part_at s i p).text t })
      (emit-IsWithin event s w) e e'
      (length-accumulate (part_at s i p).text t fits.0, fits.1, fits.2)

arguments-IsWithin :
    (event : ℕ → Event) (t : Bytes) (s : Stream) (i p : ℕ)
    → IsWithin s
    → s.cur_item ≡ some i
    → s.cur_part ≡ some p
    → IsWithin (
        set_part
          (emit event s)
          i
          p
          (record (part_at s i p) { arguments = accumulate (part_at s i p).arguments t }))
unfolding PartFits
arguments-IsWithin event t s i p w e e' =
    let fits : PartFits (part_at s i p) = current-PartFits s i p w in
    set_part-IsWithin (emit event s) i p
      (record (part_at s i p) { arguments = accumulate (part_at s i p).arguments t })
      (emit-IsWithin event s w) e e'
      (fits.0, length-accumulate (part_at s i p).arguments t fits.1, fits.2)

if-IsWithin :
    (b : Bool) (s' s : Stream)
    → IsWithin s'
    → IsWithin s
    → IsWithin (let r : Result = if b then (s', true) else (s, false) in r.0)
if-IsWithin true s' s w' w = w'
if-IsWithin false s' s w' w = w

emit_text_delta-IsWithin : (t : Bytes) (s : Stream) → IsWithin s → IsWithin (emit_text_delta t s).0
unfolding emit_text_delta
emit_text_delta-IsWithin t s w = with_part-IsWithin s _ w (λ i p e e'.
    if-IsWithin (is_kind (part_at s i p).kind output_text) _ s
      (text-IsWithin (text_delta i p (event_text t)) t s i p w e e') w)

emit_reasoning_delta-IsWithin :
    (t : Bytes) (s : Stream) → IsWithin s → IsWithin (emit_reasoning_delta t s).0
unfolding emit_reasoning_delta
emit_reasoning_delta-IsWithin t s w = with_part-IsWithin s _ w (λ i p e e'.
    if-IsWithin (is_kind (part_at s i p).kind reasoning_summary) _ s
      (text-IsWithin (reasoning_delta i p (event_text t)) t s i p w e e') w)

emit_arguments_delta-IsWithin :
    (t : Bytes) (s : Stream) → IsWithin s → IsWithin (emit_arguments_delta t s).0
unfolding emit_arguments_delta
emit_arguments_delta-IsWithin t s w = with_part-IsWithin s _ w (λ i p e e'.
    if-IsWithin (is_kind (part_at s i p).kind function_call) _ s
      (arguments-IsWithin (arguments_delta i p (event_text t)) t s i p w e e') w)

emit_text_done-IsWithin : (s : Stream) → IsWithin s → IsWithin (emit_text_done s).0
unfolding emit_text_done IsWithin
emit_text_done-IsWithin s w = ground arith

emit_part_done-IsWithin : (s : Stream) → IsWithin s → IsWithin (emit_part_done s).0
unfolding emit_part_done IsWithin
emit_part_done-IsWithin s w = ground arith

done-IsWithin :
    (s : Stream) (i : ℕ)
    → IsWithin s
    → s.cur_item ≡ some i
    → IsWithin (
        set_item
          (beat (emit (item_done i (event_text (part_at s i 0).text)) s))
          i
          (record (item_at s i) { completed = true }))
unfolding IsWithin
done-IsWithin s i (f, h) e = (rw e (item_done-ItemsFit s.items i s.cur_part (rw e at f)), h)

emit_item_done-IsWithin : (s : Stream) → IsWithin s → IsWithin (emit_item_done s).0
unfolding emit_item_done
emit_item_done-IsWithin s w = go s.cur_item refl
  where
    done : ℕ → Stream
    done i =
        set_item (beat (emit (item_done i (event_text (part_at s i 0).text)) s)) i
          (record (item_at s i) { completed = true })

    go :
        (c : Option ℕ)
        → s.cur_item ≡ c
        → IsWithin (
            let r : Result = elim c [
              | none ↦ (s, false)
              | some i ↦ if leb (length s.items) i then (s, false) else (done i, true)
            ] in
            r.0)
    go none e = w
    go (some i) e = elim (Bool-cases (leb (length s.items) i)) [
      | inl over ↦ rw over w
      | inr here ↦ rw here (done-IsWithin s i w e)
    ]

emit_created-IsWithin : (s : Stream) → IsWithin s → IsWithin (emit_created s).0
unfolding emit_created send_headers IsWithin
emit_created-IsWithin s w = ground arith

-- The bounded copy of an error message fits.
message-IsWithin :
    (m : Bytes) (s s' : Stream)
    → IsWithin s
    → s'.items ≡ s.items
    → s'.cur_item ≡ s.cur_item
    → s'.cur_part ≡ s.cur_part
    → s'.id ≡ s.id
    → s'.model ≡ s.model
    → s'.error_message ≡ take 255 m
    → IsWithin s'
unfolding IsWithin NamesFit
message-IsWithin m s s' (f, (h₀, h₁, h₂)) e e₁ e₂ e₃ e₄ e₅ =
    (rw (e, e₁, e₂) f, (rw e₃ h₀, rw e₄ h₁, rw e₅ (omega (arith, length-take 255 m))))

emit_error-IsWithin : (m : Bytes) (s : Stream) → IsWithin s → IsWithin (emit_error m s).0
unfolding emit_error
emit_error-IsWithin m s w = message-IsWithin m s (emit_error m s).0 w refl refl refl refl refl refl

emit_failed-IsWithin : (m : Bytes) (s : Stream) → IsWithin s → IsWithin (emit_failed m s).0
unfolding emit_failed
emit_failed-IsWithin m s w =
    message-IsWithin _ s (emit_failed m s).0 w refl refl refl refl refl refl

-- Every function of a stream keeps it within its arrays and buffers, whether it succeeds or not:
-- at most 16 items of at most 16 parts, a current item and part that exist, and strings that fit
-- in their buffers with a terminator.
step-IsWithin : (op : Op) (s : Stream) → IsWithin s → IsWithin (step op s).0
unfolding step send_headers emit_completed IsWithin
step-IsWithin Op.send_headers_op s h = ground arith
step-IsWithin Op.created_op s h = emit_created-IsWithin s h
step-IsWithin Op.start_item_op s h = start_item-IsWithin s h
step-IsWithin Op.text_done_op s h = emit_text_done-IsWithin s h
step-IsWithin Op.part_done_op s h = emit_part_done-IsWithin s h
step-IsWithin Op.item_done_op s h = emit_item_done-IsWithin s h
step-IsWithin Op.completed_op s h = h
step-IsWithin Op.heartbeat_op s h = h
step-IsWithin Op.done_marker_op s h = h
step-IsWithin (Op.start_part_op kind name) s h = start_part-IsWithin kind name s h
step-IsWithin (Op.text_delta_op t) s h = emit_text_delta-IsWithin t s h
step-IsWithin (Op.reasoning_delta_op t) s h = emit_reasoning_delta-IsWithin t s h
step-IsWithin (Op.arguments_delta_op t) s h = emit_arguments_delta-IsWithin t s h
step-IsWithin (Op.error_op m) s h = emit_error-IsWithin m s h
step-IsWithin (Op.failed_op m) s h = emit_failed-IsWithin m s h

init-IsWithin : (id model : Bytes) (headers_ok : Bool) → IsWithin (init id model headers_ok)
unfolding init IsWithin ItemsFit NamesFit
init-IsWithin id model headers_ok = (
  (omega arith, tt, tt),
  (omega (arith, length-take 63 id), omega (arith, length-take 127 model), omega arith),
)

from-IsWithin : (ops : List Op) (s : Stream) → IsWithin s → IsWithin (run ops s)
unfolding run
from-IsWithin [] s h = h
from-IsWithin (op ∷ ops) s h = from-IsWithin ops (step op s).0 (step-IsWithin op s h)

-- After any calls on a fresh stream, in any order and whether they succeed or not, it is within its
-- arrays and buffers: at most 16 items of at most 16 parts, a current item and part that exist, and
-- strings that fit with their terminators.
pub run-IsWithin :
    (ops : List Op) (id model : Bytes) (headers_ok : Bool)
    → IsWithin (run ops (init id model headers_ok))
run-IsWithin ops id model headers_ok =
    from-IsWithin ops (init id model headers_ok) (init-IsWithin id model headers_ok)
