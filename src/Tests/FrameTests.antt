-- ===== src/Tests/FrameTests.antt =====
-- native_frame.c on small frames.
use star_bridge.Base.{ℕ, ◌≡◌, refl, ◌++◌, Bool, true, some, List, [], ◌∷◌, arith, Bytes, codes}
use star_bridge.Frame.Io.{
  Read, chunk, interrupted, Source, Sink, Write, taken, write_interrupted, le32,
}
use star_bridge.Frame.Read.{frame, frame_read, blocking}
use star_bridge.Frame.Write.{frame_write, write_frame, write_payload, frame_write_completes}
use star_bridge.Frame.RoundTrip.{frame_read-frame_write}

-- `malloc` always succeeds.
abbrev memory : ℕ → Bool
memory n = true

abbrev hello : Bytes
hello = codes "{}!"

-- Three bytes at a time, with an interruption.
abbrev writes : List Write
writes = taken 3 ∷ write_interrupted ∷ taken 1 ∷ taken 0 ∷ taken 0 ∷ []

abbrev sink : Sink
sink = record { sent = []; writes = writes }

abbrev reads : List Read
reads = chunk 0 ∷ chunk 0 ∷ interrupted ∷ chunk 0 ∷ chunk 0 ∷ chunk 0 ∷ chunk 9 ∷ chunk 9 ∷ []

abbrev source : Source
source = record { wire = le32 3 ++ (hello ++ codes "rest"); reads = reads; polls = [] }

write_hello : (frame_write (some 5) hello sink).0 ≡ some true
unfolding frame_write write_frame write_payload
write_hello = refl

frame_write_completes_example : (frame_write (some 5) hello sink).0 ≡ some true
frame_write_completes_example =
    frame_write_completes 5 3 (write_interrupted ∷ taken 1 ∷ taken 0 ∷ taken 0 ∷ []) hello sink refl
      (omega arith) tt (omega arith) (omega arith)

frame_read-frame_write_example :
    ((frame_read memory blocking source).0 ≡ frame hello)
    × ((frame_read memory blocking source).1.wire ≡ codes "rest")
unfolding frame_write write_frame write_payload
frame_read-frame_write_example =
    frame_read-frame_write memory (some 5) hello (codes "rest") sink source refl write_hello
      (omega arith) refl refl tt (omega arith)
