-- ===== src/Stream/Run.antt =====
-- The operations of a stream as data, so that a client's calls are a list of them, and
-- `responses_stream_run_text`.
use star_bridge.Base.{
  ℕ, zero, suc, true, false, Option, none, List, [], ◌∷◌, Bytes, length, take, drop, if◌then◌else◌,
  min, some, leb,
}
use star_bridge.Stream.State.{ContentPartType, output_text, Stream}
use star_bridge.Stream.Ops.{
  Result, send_headers, emit_created, start_item, start_part, emit_text_delta, emit_reasoning_delta,
  emit_arguments_delta, emit_text_done, emit_part_done, emit_item_done, emit_completed, emit_error,
  emit_failed, is_active, beat, done_marker_sent,
}

-- A call of one of the functions of the header on a stream.
pub data Op : Type 0 where
  send_headers_op created_op start_item_op text_done_op part_done_op item_done_op completed_op
        heartbeat_op done_marker_op :
      Op
  start_part_op : ContentPartType → Option Bytes → Op
  text_delta_op reasoning_delta_op arguments_delta_op error_op failed_op : Bytes → Op

unfoldable pub step : Op → Stream → Result
step send_headers_op s = send_headers s
step created_op s = emit_created s
step start_item_op s = start_item s
step text_done_op s = emit_text_done s
step part_done_op s = emit_part_done s
step item_done_op s = emit_item_done s
step completed_op s = emit_completed s
step heartbeat_op s = (beat s, true)
step done_marker_op s = (done_marker_sent s, true)
step (start_part_op kind name) s = start_part kind name s
step (text_delta_op delta) s = emit_text_delta delta s
step (reasoning_delta_op delta) s = emit_reasoning_delta delta s
step (arguments_delta_op delta) s = emit_arguments_delta delta s
step (error_op message) s = emit_error message s
step (failed_op reason) s = emit_failed reason s

-- The stream after a list of calls, whatever they return.
unfoldable pub run : List Op → Stream → Stream
run [] s = s
run (op ∷ ops) s = run ops (step op s).0

-- The loop of `responses_stream_run_text`. `none` is out of fuel, as a chunk size of 0 never gets
-- further, or a chunk of more than 4096 bytes, which the source would write past its buffer.
unfoldable pub send_chunks : ℕ → Bytes → ℕ → Stream → Option Result
send_chunks fuel [] chunk_size s = some (s, true)
send_chunks zero (c ∷ content) chunk_size s = none
send_chunks (suc fuel) (c ∷ content) chunk_size s =
    let n = min (length (c ∷ content)) chunk_size in
    let sent : Result = emit_text_delta (take n (c ∷ content)) s in
    let rest : Option Result = send_chunks fuel (drop n (c ∷ content)) chunk_size sent.0 in
    if is_active s
    then (if leb n 4096 then (if sent.1 then rest else some (sent.0, false)) else none)
    else some (s, false)

-- The next call, if the previous one returned true.
abbrev pub and_then : Result → (Stream → Result) → Result
and_then (s, true) f = f s
and_then (s, false) f = (s, false)

-- The calls after the loop.
unfoldable pub finish_text : Stream → Result
finish_text s =
    if is_active s
    then and_then (and_then (and_then (emit_text_done s) emit_part_done) emit_item_done)
        emit_completed
    else (s, false)

abbrev pub and_finish : Option Result → Option Result
and_finish none = none
and_finish (some r) = some (and_then r finish_text)

-- The loop and the calls after it, if the calls before it returned true.
abbrev pub then_text : ℕ → Bytes → ℕ → Result → Option Result
then_text fuel content chunk_size (s, true) = and_finish (send_chunks fuel content chunk_size s)
then_text fuel content chunk_size (s, false) = some (s, false)

-- `responses_stream_run_text`
unfoldable pub run_text : ℕ → Bytes → ℕ → Stream → Option Result
run_text fuel content chunk_size s =
    then_text fuel content chunk_size
      (and_then (and_then (emit_created s) start_item) (start_part output_text none))
