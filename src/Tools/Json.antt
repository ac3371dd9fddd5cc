-- ===== src/Tools/Json.antt =====
-- The JSON helpers that tool_policy.c and tool_runner.c each have a copy of: an object with exactly
-- one string field. Texts are NUL-terminated, so a byte is never 0.
pub mod Spelling
pub mod Lexemes
pub mod Grammar
use star_bridge.Base.{
  ℕ, suc, ◌+◌, Bool, true, false, not, ◌&&◌, ◌||◌, Option, none, some, List, [], ◌∷◌, ◌++◌, ltb,
  leb, ◌==◌, if◌then◌else◌, Bytes, length, str_eq, is_empty, codes,
}

abbrev pub is_space : ℕ → Bool
is_space c = c == b' ' || c == b'\t' || c == b'\n' || c == b'\r'

-- `skip_ws`
unfoldable pub skip_ws : Bytes → Bytes
skip_ws [] = []
skip_ws (c ∷ p) = let rest = skip_ws p in if is_space c then rest else c ∷ p

-- The byte that an escape stands for; the cases of the `switch`.
unfoldable pub unescape : ℕ → Option ℕ
unescape c =
    if c == b'"' || c == b'\\' || c == b'/'
    then some c
    else if c == b'b'
    then some 8
    else if c == b'f'
    then some 12
    else if c == b'n'
    then some 10
    else if c == b'r'
    then some 13
    else if c == b't'
    then some 9
    else none

-- The loop of `decode_json_string_value`, behind the opening quote: `out` is `dest[0..i)`. The
-- result is the text and `*pp`.
unfoldable pub decode_loop : ℕ → Bytes → Bytes → Option (Bytes × Bytes)
decode_loop max_len out [] = none
decode_loop max_len out (c ∷ []) = if c == b'"' then some (out, []) else none
decode_loop max_len out (c ∷ e ∷ p) =
    let plain = decode_loop max_len (out ++ (c ∷ [])) (e ∷ p) in
    let escaped : Option (Bytes × Bytes) = elim (unescape e) [
      | none ↦ none
      | some v ↦
          if leb max_len (length out + 2) then none else decode_loop max_len (out ++ (v ∷ [])) p
    ] in
    if c == b'"'
    then some (out, e ∷ p)
    else if c == b'\\'
    then escaped
    else if ltb c 32 || leb max_len (length out + 1)
    then none
    else plain

-- `decode_json_string_value`
unfoldable pub decode_string : ℕ → Bytes → Option (Bytes × Bytes)
decode_string max_len [] = none
decode_string max_len (c ∷ p) =
    if c == b'"' && not (max_len == 0) then decode_loop max_len [] p else none

-- `*p == c`, and the text behind it.
unfoldable pub expect : ℕ → Bytes → Option Bytes
expect c [] = none
expect c (d ∷ p) = if d == c then some p else none

infixl 5 ◌>>=◌
abbrev pub ◌>>=◌ : {A B : Type 0} → Option A → (A → Option B) → Option B
some a >>= f = f a
none >>= f = none

abbrev pub guard : Bool → Option (Unit {0})
guard true = some tt
guard false = none

-- The first part of `tool_args_exact_object_field`: the opening brace and the key.
unfoldable pub read_key : Bytes → Option (Bytes × Bytes)
read_key json = do p ← expect b'{' (skip_ws json); decode_string 64 (skip_ws p)

-- The second part: the colon and the value.
unfoldable pub read_value : ℕ → Bytes → Option (Bytes × Bytes)
read_value max_len s = do p ← expect b':' (skip_ws s); decode_string max_len (skip_ws p)

-- The third part: the closing brace and the end of the text.
unfoldable pub read_end : Bytes → Bool
read_end s = elim (expect b'}' (skip_ws s)) [ none ↦ false | some p ↦ is_empty (skip_ws p) ]

-- `tool_args_exact_object_field` and `extract_object_string_field`: the value of the only field,
-- decoded into a buffer of `max_len` bytes.
unfoldable pub object_field : ℕ → Bytes → Bytes → Option Bytes
object_field max_len json field = do
  _ ← guard (not (is_empty field))
  (key, p) ← read_key json
  _ ← guard (str_eq key field)
  (value, q) ← read_value max_len p
  _ ← guard (read_end q && not (is_empty value))
  some value
