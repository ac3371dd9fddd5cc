-- ===== src/Base/Strings.antt =====
-- C strings: literals, comparison, bounded copies, substring search.
use Prim.Native.Nat.{ℕ, ◌-◌}
use Prim.Native.Char.{code}
use Prim.Native.String.{String}
use mathlib.Core.Bool.{Bool, true, false, ◌&&◌, ◌||◌}
use mathlib.Core.List.{List, [], ◌∷◌}
use mathlib.Core.Logic.{◌↔◌}
use mathlib.Core.Path.{◌≡◌}
use native.Mathlib.Omega.{arith}
use star_bridge.Base.Lists.{take}
use star_bridge.Base.Tests.{◌==◌}

abbrev pub Bytes : Type 0
Bytes = List ℕ

-- A literal of the source: the code points of an ASCII text are its bytes.
abbrev pub codes : String → Bytes
codes String.[] = []
codes (String.◌∷◌ c s) = code c ∷ codes s

-- `strcmp(a, b) == 0`
unfoldable pub str_eq : Bytes → Bytes → Bool
str_eq [] [] = true
str_eq (x ∷ a) (y ∷ b) = x == y && str_eq a b
str_eq _ _ = false

pub str_eq_iff : (a b : Bytes) → (str_eq a b ≡ true) ↔ (a ≡ b)
unfolding str_eq
str_eq_iff (x ∷ a) (y ∷ b) = ground (arith, str_eq_iff a b)
str_eq_iff _ _ = ground arith

-- `snprintf(dest, size, "%s", s)`: what a buffer of `size` bytes holds afterwards.
abbrev pub copy_bounded : ℕ → Bytes → Bytes
copy_bounded size s = take (size - 1) s

-- `strncmp(s, word, strlen(word)) == 0`
unfoldable pub starts_with : Bytes → Bytes → Bool
starts_with s [] = true
starts_with [] (w ∷ word) = false
starts_with (c ∷ s) (w ∷ word) = c == w && starts_with s word

-- `strstr(s, word) != NULL`
unfoldable pub contains : Bytes → Bytes → Bool
unfolding starts_with
contains [] word = starts_with [] word
contains (c ∷ s) word = starts_with (c ∷ s) word || contains s word

abbrev pub is_empty : Bytes → Bool
is_empty [] = true
is_empty (c ∷ s) = false
