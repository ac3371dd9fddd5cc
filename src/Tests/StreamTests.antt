-- ===== src/Tests/StreamTests.antt =====
-- A stream on short texts.
use star_bridge.Base.{◌+◌, ◌<◌, ◌≡◌, length, true, false, some, List, [], ◌∷◌, Bytes, codes, arith}
use star_bridge.Escape.{escape_char}
use star_bridge.Escape.Whole.{escaped}
use star_bridge.Stream.State.{Stream, text_size, function_call}
use star_bridge.Stream.Ops.{init, is_active}
use star_bridge.Stream.Run.{Op, run, run_text}
use star_bridge.Stream.Within.{IsWithin}
use star_bridge.Stream.Bounds.{run-IsWithin}
use star_bridge.Stream.Transcript.{IsCut, transcript}
use star_bridge.Stream.Lifecycle.{run_text-transcript}

-- A delta before there is a part, a call with its arguments, and a failure.
abbrev calls : List Op
calls =
    Op.text_delta_op (codes "early")
    ∷ Op.start_item_op
    ∷ Op.start_part_op function_call (some (codes "read"))
    ∷ Op.arguments_delta_op (codes "{}")
    ∷ Op.part_done_op
    ∷ Op.failed_op []
    ∷ []

run-IsWithin_example : IsWithin (run calls (init (codes "r") (codes "m") true))
run-IsWithin_example = run-IsWithin calls (codes "r") (codes "m") true

hello_fits : length (escaped (codes "hello")) + 2048 < text_size
unfolding escaped escape_char
hello_fits = omega arith

run_text-transcript_example :
    (pieces : List Bytes) × IsCut (codes "hello") 2 pieces
    × (s : Stream) × (run_text 5 (codes "hello") 2 (init (codes "r") (codes "m") true)
        ≡ some (s, true))
    × (s.out ≡ transcript (codes "hello") pieces)
    × (is_active s ≡ false)
run_text-transcript_example =
    run_text-transcript 5 (codes "hello") 2 (codes "r") (codes "m") hello_fits (omega arith)
      (omega arith) (omega arith)
