-- ===== src/JsonBuilder/Balanced.antt =====
-- Calls that never end more than they have begun.
use star_bridge.Base.{ℕ, zero, suc, ◌≡◌, false, List, [], ◌∷◌}
use star_bridge.Sessions.{pos}
use star_bridge.JsonBuilder.{
  JsonBuilder, BuilderCall, object_begin, object_end, array_begin, array_end,
}

-- With `depth` objects and arrays begun, no call ends one that is not open.
abbrev pub IsBalanced : ℕ → List BuilderCall → Type 0
IsBalanced depth [] = Unit {0}
IsBalanced depth (object_begin ∷ calls) = IsBalanced (suc depth) calls
IsBalanced depth (array_begin ∷ calls) = IsBalanced (suc depth) calls
IsBalanced zero (object_end ∷ calls) = ⊥
IsBalanced (suc depth) (object_end ∷ calls) = IsBalanced depth calls
IsBalanced zero (array_end ∷ calls) = ⊥
IsBalanced (suc depth) (array_end ∷ calls) = IsBalanced depth calls
IsBalanced depth (_ ∷ calls) = IsBalanced depth calls

-- The builder has `depth` objects and arrays begun, and has written inside its array.
record IsOpen (depth : ℕ) (b : JsonBuilder) : Type 0 where
  level : b.depth ≡ pos depth
  inside : b.stray ≡ false
