-- ===== src/Stream/Lifecycle.antt =====
-- The events of a whole text response, as `responses_stream_run_text` writes them.
use star_bridge.Base.{
  ℕ, zero, suc, ◌+◌, ◌-◌, ◌<◌, ◌≤◌, min, ◌≡◌, refl, ap, ◌∙◌, true, false, Option, some, List, [],
  ◌∷◌, ◌++◌, Bytes, arith, length, take, drop, length-append, length-take, length-drop,
  take-append-drop, append_assoc, append-nil, lt→ltb, le→leb, copy_bounded,
}
use star_bridge.Escape.{json_escape}
use star_bridge.Escape.Whole.{escaped, length-escaped, json_escape-escaped}
use star_bridge.Stream.State.{
  Stream, Event, headers, heartbeat, created, item_added, part_added, text_delta, output_text,
  StreamTerminalState, text_size,
}
use star_bridge.Stream.Ops.{
  init, event_text, Result, accumulate, send_headers, emit_created, start_item, add_part,
  start_part, set_name, emit_text_delta, emit_text_done, emit_part_done, emit_item_done,
  emit_completed, final_text, is_active,
}
use star_bridge.Stream.Run.{send_chunks, finish_text, run_text, and_finish}
use star_bridge.Stream.Transcript.{concat, IsCut, deltas, closing, transcript}

-- The stream in the loop, when the deltas have carried `text`.
abbrev streaming : Bytes → Bytes → Bytes → ℕ → List Event → Stream
streaming id model text n out = record {
  id = id;
  model = model;
  sequence_number = n;
  headers_ok = true;
  headers_sent = true;
  items =
      record {
        completed = false;
        parts =
            record { kind = output_text; text = text; name = []; arguments = []; seq_start = 2 }
            ∷ [];
      }
      ∷ [];
  cur_item = some 0;
  cur_part = some 0;
  terminal_state = StreamTerminalState.active;
  error_message = [];
  incomplete_details = [];
  out = out;
}

module _ (id model : Bytes) where
  emit_text_delta-streaming :
      (text delta : Bytes) (n : ℕ) (out : List Event)
      → length text + length delta < text_size
      → length delta ≤ 4096
      → emit_text_delta delta (streaming id model text n out) ≡ (
        streaming id model (text ++ delta) (n + 1) (out ++ (text_delta 0 0 (escaped delta) n ∷ [])),
        true,
      )
  unfolding emit_text_delta accumulate event_text
  emit_text_delta-streaming text delta n out h small =
      let whole : length (escaped delta) + 8 < 131072 =
        omega (arith, small, (length-escaped delta).1) in
      rw (lt→ltb (length text + length delta) text_size h, json_escape-escaped 131072 delta whole)
        refl

  add_zero : (n : ℕ) → n + 0 ≡ n
  add_zero n = omega arith

  abbrev in_loop : Bytes → ℕ → List Event → Option Result
  in_loop text n out = some (streaming id model text n out, true)

  -- What the loop does to the stream.
  record Chunks (fuel : ℕ) (content : Bytes) (chunk_size : ℕ) (text : Bytes) (n : ℕ)
      (out : List Event) : Type 0 where
    pieces : List Bytes
    cut : IsCut content chunk_size pieces
    result :
        send_chunks fuel content chunk_size (streaming id model text n out)
        ≡ some (
          streaming id model (text ++ content) (n + length pieces) (out ++ deltas n pieces),
          true,
        )

  -- One turn of the loop.
  send_chunks-step :
      (fuel c : ℕ) (content : Bytes) (chunk_size k : ℕ) (text : Bytes) (n : ℕ) (out : List Event)
      → min (length (c ∷ content)) chunk_size ≡ k
      → k ≤ 4096
      → length text + length (take k (c ∷ content)) < text_size
      → send_chunks (suc fuel) (c ∷ content) chunk_size (streaming id model text n out)
        ≡ send_chunks fuel (drop k (c ∷ content)) chunk_size (
            streaming id model
              (text ++ take k (c ∷ content))
              (n + 1)
              (out ++ (text_delta 0 0 (escaped (take k (c ∷ content))) n ∷ [])))
  unfolding send_chunks is_active
  send_chunks-step fuel c content chunk_size k text n out e small fits =
      rw
        (
          e,
          le→leb k 4096 small,
          emit_text_delta-streaming text (take k (c ∷ content)) n out fits
              (omega (arith, small, length-take k (c ∷ content))),
        )
        refl

  -- The pieces of the rest and the first piece.
  Chunks-step :
      (fuel c : ℕ) (content : Bytes) (chunk_size k : ℕ) (text : Bytes) (n : ℕ) (out : List Event)
      → min (length (c ∷ content)) chunk_size ≡ k
      → k ≤ 4096
      → 0 < k
      → k ≤ chunk_size
      → length (take k (c ∷ content)) ≡ k
      → length text + k < text_size
      → Chunks fuel
          (drop k (c ∷ content))
          chunk_size
          (text ++ take k (c ∷ content))
          (n + 1)
          (out ++ (text_delta 0 0 (escaped (take k (c ∷ content))) n ∷ []))
      → Chunks (suc fuel) (c ∷ content) chunk_size text n out
  unfolding deltas concat
  Chunks-step fuel c content chunk_size k text n out e small pos le len fits later =
      let piece : Bytes = take k (c ∷ content) in
      let rest : Bytes = drop k (c ∷ content) in
      let whole : piece ++ rest ≡ c ∷ content = take-append-drop k (c ∷ content) in
      record {
        pieces = piece ∷ later.pieces;
        cut = record {
          whole = ap (◌++◌ piece) later.cut.whole ∙ whole;
          sizes = ((omega (arith, len), omega (arith, len)), later.cut.sizes);
        };
        result =
            send_chunks-step fuel c content chunk_size k text n out e small (omega (arith, len))
            ∙ later.result
            ∙ same_end (append_assoc text piece rest ∙ ap (◌++◌ text) whole) (omega arith) (
                append_assoc out (text_delta 0 0 (escaped piece) n ∷ [])
                  (deltas (n + 1) later.pieces));
      }
    where
      same_end :
          {t t' : Bytes}
          → {m m' : ℕ} → {o o' : List Event} → t ≡ t'
          → m ≡ m'
          → o ≡ o'
          → in_loop t m o ≡ in_loop t' m' o'
      same_end e₁ e₂ e₃ = rw (e₁, e₂, e₃) refl

  loop_sends :
      (fuel : ℕ) (content : Bytes) (chunk_size : ℕ) (text : Bytes) (n : ℕ) (out : List Event)
      → length text + length content < text_size
      → 0 < chunk_size
      → chunk_size ≤ 4096
      → length content ≤ fuel
      → Chunks fuel content chunk_size text n out
  unfolding send_chunks deltas concat
  loop_sends fuel [] chunk_size text n out h pos small enough = record {
    pieces = [];
    cut = record { whole = refl; sizes = tt };
    result = rw (append-nil text, append-nil out, add_zero n) refl;
  }
  loop_sends zero (c ∷ content) chunk_size text n out h pos small enough =
      absurd (omega (arith, enough))
  loop_sends (suc fuel) (c ∷ content) chunk_size text n out h pos small enough =
      let k : ℕ = min (length (c ∷ content)) chunk_size in
      let piece : Bytes = take k (c ∷ content) in
      let rest : Bytes = drop k (c ∷ content) in
      let piece_length : length piece ≡ k = omega (arith, length-take k (c ∷ content)) in
      let rest_length : length rest ≡ length (c ∷ content) - k = length-drop k (c ∷ content) in
      Chunks-step fuel c content chunk_size k text n out refl (omega arith) (omega arith)
        (omega arith) piece_length (omega arith)
        (loop_sends fuel rest chunk_size (text ++ piece) (n + 1)
          (out ++ (text_delta 0 0 (escaped piece) n ∷ []))
          (omega (arith, piece_length, rest_length, length-append text piece)) pos small
          (omega (arith, rest_length)))

  -- What the calls after the loop write.
  finish_text-streaming :
      (text : Bytes) (n : ℕ) (out : List Event)
      → length (escaped text) + 2048 < text_size
      → ((finish_text (streaming id model text n out)).1 ≡ true)
        × (is_active (finish_text (streaming id model text n out)).0 ≡ false)
        × ((finish_text (streaming id model text n out)).0.out ≡ out ++ closing text n)
  unfolding finish_text is_active emit_text_done emit_part_done emit_item_done emit_completed
      final_text closing event_text
  finish_text-streaming text n out h =
      let whole : json_escape 131072 text ≡ escaped text =
        json_escape-escaped 131072 text (omega (arith, h)) in
      (refl, refl, rw whole (simp append_assoc))

-- `responses_stream_run_text` on a fresh stream whose client takes the headers succeeds, for a text
-- that once escaped leaves 2048 of the 131072 bytes of an event free, and chunks of 1 to 4096 bytes,
-- with fuel for a chunk per byte. What it writes is exactly the transcript of the text for some cut of
-- it into such chunks: headers, the opening events, a delta per escaped chunk, the closing events with
-- the whole text escaped, the done marker, each numbered in order. The stream is then no longer active.
pub run_text-transcript :
    (fuel : ℕ) (content : Bytes) (chunk_size : ℕ) (id model : Bytes)
    → length (escaped content) + 2048 < text_size
    → 0 < chunk_size
    → chunk_size ≤ 4096
    → length content ≤ fuel
    → (pieces : List Bytes) × IsCut content chunk_size pieces
      × (s : Stream) × (run_text fuel content chunk_size (init id model true) ≡ some (s, true))
      × (s.out ≡ transcript content pieces)
      × (is_active s ≡ false)
unfolding run_text init emit_created send_headers start_item start_part add_part set_name transcript
run_text-transcript fuel content chunk_size id model h pos small enough =
    let opening : List Event =
      headers
      ∷ created
      ∷ heartbeat
      ∷ item_added 0 1
      ∷ heartbeat
      ∷ part_added 0 0 2
      ∷ heartbeat
      ∷ [] in
    let loop : Chunks (copy_bounded 64 id) (copy_bounded 128 model) fuel content chunk_size [] 3
        opening =
      loop_sends (copy_bounded 64 id) (copy_bounded 128 model) fuel content chunk_size [] 3 opening
        (omega (arith, h, (length-escaped content).0)) pos small enough in
    let last : Stream =
      streaming (copy_bounded 64 id) (copy_bounded 128 model) content (3 + length loop.pieces)
        (opening ++ deltas 3 loop.pieces) in
    let (ok, ended, written) =
      finish_text-streaming (copy_bounded 64 id) (copy_bounded 128 model) content
        (3 + length loop.pieces) (opening ++ deltas 3 loop.pieces) h in
    (
      loop.pieces,
      loop.cut,
      (finish_text last).0,
      ap and_finish loop.result ∙ ap (λ b. some ((finish_text last).0, b)) ok,
      written
          ∙ append_assoc opening (deltas 3 loop.pieces) (closing content (3 + length loop.pieces)),
      ended,
    )
