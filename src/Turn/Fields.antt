-- ===== src/Turn/Fields.antt =====
-- `extract_json_string_field` of src/server.c, and `atoi`.
use star_bridge.Base.{
  ℕ, zero, suc, ◌+◌, ◌-◌, ◌*◌, ◌&&◌, Option, none, some, [], ◌∷◌, ◌++◌, leb, ◌==◌, if◌then◌else◌,
  Bytes, length, drop, codes, starts_with, is_empty,
}
use star_bridge.Sessions.{ℤ, pos, negsuc}
use star_bridge.Turn.Control.{skip_space}

-- What follows the first place of a word (`strstr(s, word) + strlen(word)`).
unfoldable pub find_after : Bytes → Bytes → Option Bytes
find_after [] word = if is_empty word then some [] else none
find_after (c ∷ s) word =
    let rest = find_after s word in
    if starts_with (c ∷ s) word then some (drop (length word) (c ∷ s)) else rest

-- The loop, with what is left of the buffer's room.
unfoldable pub field_loop : ℕ → Bytes → Bytes
field_loop zero s = []
field_loop (suc room) [] = []
field_loop (suc room) (c ∷ []) = if c == b'"' then [] else c ∷ []
field_loop (suc room) (c ∷ e ∷ s) =
    let plain = field_loop room (e ∷ s) in
    let after = field_loop room s in
    let dropped = field_loop (suc room) s in
    if c == b'"'
    then []
    else if c == b'\\'
    then (if e == b'n'
        then 10 ∷ after
        else if e == b't'
        then 9 ∷ after
        else if e == 13
        then dropped
        else e ∷ after)
    else c ∷ plain

-- `extract_json_string_field`; `none` is false.
unfoldable pub extract_json_string_field : Bytes → Bytes → ℕ → Option Bytes
extract_json_string_field json key max_len =
    elim (find_after json (b'"' ∷ (key ++ codes "\":\""))) [
      | none ↦ none
      | some p ↦
          let value = field_loop (max_len - 1) p in if is_empty value then none else some value
    ]

-- The digits that `atoi` reads, after a number.
unfoldable pub digits_from : ℕ → Bytes → ℕ
digits_from n [] = n
digits_from n (c ∷ s) =
    let rest = digits_from (n * 10 + (c - b'0')) s in if leb b'0' c && leb c b'9' then rest else n

abbrev negated : ℕ → ℤ
negated zero = pos 0
negated (suc n) = negsuc n

-- `atoi`, on a number in the range of an int.
unfoldable pub atoi : Bytes → ℤ
unfolding skip_space
atoi s = elim (skip_space s) [
  | [] ↦ pos 0
  | c ∷ p ↦
      if c == b'-'
      then negated (digits_from 0 p)
      else if c == b'+'
      then pos (digits_from 0 p)
      else pos (digits_from 0 (c ∷ p))
]
