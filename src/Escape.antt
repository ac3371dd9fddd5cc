-- ===== src/Escape.antt =====
-- src/json_utils.c: `json_escape`.
pub mod Whole
use star_bridge.Base.{
  ℕ, ◌+◌, ◌-◌, ◌/◌, ◌%◌, List, [], ◌∷◌, ◌++◌, ltb, leb, ◌==◌, if◌then◌else◌, Bytes, length,
}

-- A digit of `%04x`.
unfoldable pub hex_low : ℕ → ℕ
hex_low d = if ltb d 10 then b'0' + d else 87 + d

-- What the `switch` makes of a byte.
unfoldable pub escape_char : ℕ → Bytes
escape_char c =
    if c == b'"'
    then b'\\' ∷ b'"' ∷ []
    else if c == b'\\'
    then b'\\' ∷ b'\\' ∷ []
    else if c == 8
    then b'\\' ∷ b'b' ∷ []
    else if c == 12
    then b'\\' ∷ b'f' ∷ []
    else if c == 10
    then b'\\' ∷ b'n' ∷ []
    else if c == 13
    then b'\\' ∷ b'r' ∷ []
    else if c == 9
    then b'\\' ∷ b't' ∷ []
    else if ltb c 32
    then b'\\' ∷ b'u' ∷ b'0' ∷ b'0' ∷ hex_low (c / 16) ∷ hex_low (c % 16) ∷ []
    else c ∷ []

-- The loop of `json_escape`; `out` is `dest[0..o)`.
unfoldable pub escape_loop : ℕ → Bytes → Bytes → Bytes
escape_loop max_len out [] = out
escape_loop max_len out (c ∷ s) =
    let rest = escape_loop max_len (out ++ escape_char c) s in
    if leb max_len (length out + 8)
    then out
    else if leb (max_len - 1) (length out + length (escape_char c))
    then out
    else rest

-- `json_escape`, into a buffer of `max_len` bytes.
unfoldable pub json_escape : ℕ → Bytes → Bytes
json_escape max_len s = escape_loop max_len [] s
