-- ===== src/Stream/Transcript.antt =====
-- What a client should receive for a text: the events in their order, with their numbers.
use star_bridge.Base.{ℕ, ◌+◌, ◌<◌, ◌≤◌, ◌≡◌, none, List, [], ◌∷◌, ◌++◌, Bytes, length, All}
use star_bridge.Escape.Whole.{escaped}
use star_bridge.Stream.State.{
  Event, headers, heartbeat, done_marker, created, item_added, part_added, text_delta, text_done,
  part_done, item_done, response_completed,
}

-- The pieces one after the other.
unfoldable pub concat : List Bytes → Bytes
concat [] = []
concat (p ∷ ps) = p ++ concat ps

-- `content` cut into non-empty pieces of at most `chunk_size` bytes.
pub record IsCut (content : Bytes) (chunk_size : ℕ) (pieces : List Bytes) : Type 0 where
  pub whole : concat pieces ≡ content
  pub sizes : All (λ p. (0 < length p) × (length p ≤ chunk_size)) pieces

-- A delta for each piece, numbered from `n`.
unfoldable pub deltas : ℕ → List Bytes → List Event
deltas n [] = []
deltas n (p ∷ ps) = text_delta 0 0 (escaped p) n ∷ deltas (n + 1) ps

-- What the client receives after the deltas.
unfoldable pub closing : Bytes → ℕ → List Event
closing content n =
    text_done 0 0 (escaped content) n
    ∷ heartbeat
    ∷ part_done 0 0 (escaped content) (n + 1)
    ∷ heartbeat
    ∷ item_done 0 (escaped content) (n + 1 + 1)
    ∷ heartbeat
    ∷ response_completed (escaped content) none (n + 1 + 1 + 1)
    ∷ heartbeat
    ∷ done_marker
    ∷ []

-- All that the client receives for a text, which the deltas carry in `pieces`.
unfoldable pub transcript : Bytes → List Bytes → List Event
transcript content pieces =
    headers
    ∷ created
    ∷ heartbeat
    ∷ item_added 0 1
    ∷ heartbeat
    ∷ part_added 0 0 2
    ∷ heartbeat
    ∷ (deltas 3 pieces ++ closing content (3 + length pieces))
