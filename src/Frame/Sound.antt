-- ===== src/Frame/Sound.antt =====
-- Whatever the kernel does, a frame that `frame_read` returns is the next frame of the wire.
use star_bridge.Base.{ℕ, ◌≤◌, ◌≡◌, Bool, ◌&&◌, ◌++◌, Bytes, length, ltb, ◌==◌}
use star_bridge.Frame.Io.{Read, Source, Received, received, read_failed, waiting, of_le32}
use star_bridge.Frame.Read.{frame_max_payload}

-- The bytes that a read adds to `got` are taken off the front of the wire, `need` at most.
abbrev Consumed : ℕ → Bytes → Bytes → Received × Source → Type 0
Consumed need got wire (received b t, s) =
    (e : Bytes) × (b ≡ got ++ e) × (wire ≡ e ++ s.wire) × (length e ≤ need)
Consumed need got wire (read_failed, s) = Unit {0}
Consumed need got wire (waiting, s) = Unit {0}

abbrev expired : ℕ → ℕ → Bool
expired total remaining = ltb 0 total && remaining == 0

-- A frame of the wire: four bytes that hold the payload's length, and the payload.
pub record IsFrameOf (payload wire left : Bytes) : Type 0 where
  pub header : Bytes
  pub header_length : length header ≡ 4
  pub payload_length : of_le32 header ≡ length payload
  pub fits : length payload ≤ frame_max_payload
  pub splits : wire ≡ header ++ (payload ++ left)
