-- ===== src/Capability/Scan.antt =====
-- The text scanning helpers. The scan of a text goes with the character before it, `none` at the
-- start; `input_len` is the length of the text.
use star_bridge.Base.{
  ℕ, zero, suc, ◌+◌, ◌-◌, min, Bool, true, false, not, ◌&&◌, ◌||◌, Option, none, some, [], ◌∷◌, leb,
  ◌==◌, if◌then◌else◌, Bytes, length, drop, starts_with,
}

-- `isalnum(c) || c == '_'`
unfoldable pub is_word : ℕ → Bool
is_word c =
    (leb b'0' c && leb c b'9')
    || (leb b'A' c && leb c b'Z')
    || (leb b'a' c && leb c b'z')
    || c == b'_'

-- There is no character of a word.
unfoldable pub is_boundary : Option ℕ → Bool
is_boundary none = true
is_boundary (some c) = not (is_word c)

abbrev pub first_char : Bytes → Option ℕ
first_char [] = none
first_char (c ∷ s) = some c

-- `str_at_delimited`, at the start of `text`.
unfoldable pub str_at_delimited : Option ℕ → Bytes → Bytes → Bool
str_at_delimited before text word =
    starts_with text word
    && is_boundary before
    && is_boundary (first_char (drop (length word) text))

-- The loop of `count_keyword`; `skip` characters of a word that was found are still to pass.
unfoldable pub count_from : ℕ → Option ℕ → Bytes → Bytes → ℕ
count_from skip before [] word = 0
count_from (suc skip) before (c ∷ text) word = count_from skip (some c) text word
count_from zero before (c ∷ text) word =
    let counted = count_from (length word - 1) (some c) text word in
    let rest = count_from 0 (some c) text word in
    if str_at_delimited before (c ∷ text) word then counted + 1 else rest

-- `count_keyword`
unfoldable pub count_keyword : Bytes → Bytes → ℕ
count_keyword text word = count_from 0 none text word

-- The inner loop of `has_cooccurrence`; the window ends after `left` characters.
unfoldable pub in_window : ℕ → Option ℕ → Bytes → Bytes → Bool
in_window left before [] word = false
in_window left before (c ∷ text) word =
    (leb (length word) left && str_at_delimited before (c ∷ text) word)
    || in_window (left - 1) (some c) text word

-- The search after a first word of which `skip` characters are still to pass.
unfoldable pub after_word : ℕ → Option ℕ → Bytes → Bytes → ℕ → Bool
after_word (suc skip) before (c ∷ text) word2 window = after_word skip (some c) text word2 window
after_word (suc skip) before [] word2 window = false
after_word zero before text word2 window = in_window (min window (length text)) before text word2

-- `has_cooccurrence`, from a place in the text on.
unfoldable pub cooccurs_from : Option ℕ → Bytes → Bytes → Bytes → ℕ → Bool
cooccurs_from before [] word1 word2 window = false
cooccurs_from before (c ∷ text) word1 word2 window =
    (str_at_delimited before (c ∷ text) word1
      && after_word (length word1) before (c ∷ text) word2 window)
    || cooccurs_from (some c) text word1 word2 window

-- `has_cooccurrence`
unfoldable pub has_cooccurrence : Bytes → Bytes → Bytes → ℕ → Bool
has_cooccurrence text word1 word2 window = cooccurs_from none text word1 word2 window
