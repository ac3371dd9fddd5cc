-- ===== src/Http.antt =====
-- src/server.c: what the server reads off the head of an HTTP request.
pub mod Length
pub mod Host
use star_bridge.Base.{
  ℕ, zero, suc, ◌+◌, ◌-◌, ◌<◌, min, Bool, true, false, not, ◌&&◌, ◌||◌, Option, none, some, List,
  [], ◌∷◌, ◌++◌, ltb, leb, ◌==◌, if◌then◌else◌, Bytes, length, take, drop, codes, starts_with,
  contains,
}

-- The C string at the start of a buffer.
unfoldable pub c_string : Bytes → Bytes
c_string [] = []
c_string (c ∷ s) = let rest = c_string s in if c == 0 then [] else c ∷ rest

-- Where a word first stands (`strstr(s, word) - s`).
unfoldable pub index_of : Bytes → Bytes → Option ℕ
index_of [] word = if starts_with [] word then some 0 else none
index_of (c ∷ s) word =
    let rest : Option ℕ = elim (index_of s word) [ none ↦ none | some n ↦ some (n + 1) ] in
    if starts_with (c ∷ s) word then some 0 else rest

-- `tolower`
unfoldable pub lower : ℕ → ℕ
lower c = if leb b'A' c && leb c b'Z' then c + 32 else c

-- `strncasecmp(s, word, strlen(word)) == 0`
unfoldable pub starts_with_case : Bytes → Bytes → Bool
starts_with_case s [] = true
starts_with_case [] (w ∷ word) = false
starts_with_case (c ∷ s) (w ∷ word) = lower c == lower w && starts_with_case s word

abbrev crlf : Bytes
crlf = 13 ∷ 10 ∷ []

abbrev pub header_end : Bytes
header_end = 13 ∷ 10 ∷ 13 ∷ 10 ∷ []

abbrev pub is_tab_or_space : ℕ → Bool
is_tab_or_space c = c == 32 || c == 9

-- The spaces and tabs before a value, at most `count` of them.
unfoldable pub skip_at_most : ℕ → Bytes → Bytes
skip_at_most zero s = s
skip_at_most (suc count) [] = []
skip_at_most (suc count) (c ∷ s) =
    let rest = skip_at_most count s in if is_tab_or_space c then rest else c ∷ s

abbrev byte_is : ℕ → Bytes → Bool
byte_is c [] = false
byte_is c (d ∷ s) = c == d

-- The length of a line that starts `left` bytes before the end of the head.
unfoldable pub line_length : Bytes → ℕ → ℕ
line_length line left = elim (index_of line crlf) [ none ↦ left | some n ↦ min n left ]

-- The loop over the lines of the head; the distance to its end is enough fuel.
unfoldable pub header_loop : Bytes → ℕ → Bytes → ℕ → Option Bytes
header_loop name zero line left = none
header_loop name (suc fuel) line left =
    let len = line_length line left in
    let rest = header_loop name fuel (drop (len + 2) line) (left - (len + 2)) in
    if leb left 0
    then none
    else if ltb (length name) len
        && (starts_with_case line name && byte_is b':' (drop (length name) line))
    then some (skip_at_most (len - (length name + 1)) (drop (length name + 1) line))
    else if leb left len
    then none
    else rest

-- `find_header_value`: the text from the value on.
unfoldable pub find_header_value : Bytes → Bytes → Option Bytes
find_header_value raw name = elim (index_of raw header_end) [
  | none ↦ none
  | some n ↦ header_loop name (n + 1) raw n
]

-- What stands before the end of the line.
unfoldable pub until_eol : Bytes → Bytes
until_eol [] = []
until_eol (c ∷ s) = let rest = until_eol s in if c == 13 || c == 10 then [] else c ∷ rest

-- A word in any case, anywhere in a text.
unfoldable pub contains_case : Bytes → Bytes → Bool
contains_case [] word = starts_with_case [] word
contains_case (c ∷ s) word = starts_with_case (c ∷ s) word || contains_case s word

-- `is_chunked_request`
unfoldable pub is_chunked_request : Bytes → Bool
is_chunked_request raw = elim (find_header_value raw (codes "Transfer-Encoding")) [
  | none ↦ false
  | some value ↦ contains_case (until_eol value) (codes "chunked")
]

-- `chunked_body_complete`, on all `raw_len` bytes.
unfoldable pub chunked_body_complete : Bytes → Bool
chunked_body_complete raw = elim (index_of (c_string raw) header_end) [
  | none ↦ false
  | some n ↦ contains (drop (n + 4) raw) (13 ∷ 10 ∷ b'0' ∷ 13 ∷ 10 ∷ [])
]
