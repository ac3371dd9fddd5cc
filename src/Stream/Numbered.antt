-- ===== src/Stream/Numbered.antt =====
-- The sequence numbers of a stream's events.
use star_bridge.Base.{ℕ, zero, suc, ◌≡◌, Bool, true, false, List, [], ◌∷◌, ◌++◌}
use star_bridge.Stream.State.{Stream, seqs}
use star_bridge.Stream.Run.{Op}

-- 0, 1, …, n - 1
abbrev pub below : ℕ → List ℕ
below zero = []
below (suc n) = below n ++ (n ∷ [])

pub IsNumbered : Stream → Type 0
IsNumbered s = seqs s.out ≡ below s.sequence_number

-- Every call but that of `responses_stream_emit_created`.
abbrev pub is_later : Op → Bool
is_later Op.created_op = false
is_later _ = true
