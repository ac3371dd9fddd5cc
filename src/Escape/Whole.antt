-- ===== src/Escape/Whole.antt =====
-- What `json_escape` writes, and that the decoder of JSON strings undoes it.
use star_bridge.Base.{
  ℕ, ◌+◌, ◌*◌, ◌-◌, ◌<◌, ◌≤◌, ◌≡◌, ◌≢◌, ◌⊎◌, refl, ap, sym, ◌∙◌, true, false, some, inl, inr, [],
  ◌∷◌, ◌++◌, arith, All, Bytes, length, length-append, append_assoc, append-nil, ltb, leb, ◌==◌,
  ==_iff, Bool-cases,
}
use star_bridge.Tools.Json.{unescape, decode_loop, decode_string}
use star_bridge.Escape.{escape_char, escape_loop, json_escape}

-- Every byte escaped.
unfoldable pub escaped : Bytes → Bytes
escaped [] = []
escaped (c ∷ s) = escape_char c ++ escaped s

-- A byte that is not escaped by its code.
unfoldable pub IsSimple : ℕ → Type 0
IsSimple c = (32 ≤ c) ⊎ ((8 ≤ c) × (c ≤ 13) × (c ≢ 11))

-- A simple byte is written as it is, or as an escape that stands for it.
Escapes : ℕ → Type 0
Escapes c =
    ((escape_char c ≡ c ∷ []) × (32 ≤ c) × ((c == b'"') ≡ false) × ((c == b'\\') ≡ false))
    ⊎ ((e : ℕ) × (escape_char c ≡ b'\\' ∷ e ∷ []) × (unescape e ≡ some c))

short_escape : (v e c : ℕ) → unescape e ≡ some v → (c == v) ≡ true → unescape e ≡ some c
short_escape v e c u same = u ∙ ap some (sym ((==_iff c v).0 same))

escape_char-Escapes : (c : ℕ) → IsSimple c → Escapes c
unfolding Escapes escape_char IsSimple unescape
escape_char-Escapes c h = elim (Bool-cases (c == b'"')) [
  | inl e ↦ inr (b'"', rw e refl, short_escape b'"' b'"' c refl e)
  | inr n₀ ↦ elim (Bool-cases (c == b'\\')) [
    | inl e ↦ inr (b'\\', rw (n₀, e) refl, short_escape b'\\' b'\\' c refl e)
    | inr n₁ ↦ elim (Bool-cases (c == 8)) [
      | inl e ↦ inr (b'b', rw (n₀, n₁, e) refl, short_escape 8 b'b' c refl e)
      | inr n₂ ↦ elim (Bool-cases (c == 12)) [
        | inl e ↦ inr (b'f', rw (n₀, n₁, n₂, e) refl, short_escape 12 b'f' c refl e)
        | inr n₃ ↦ elim (Bool-cases (c == 10)) [
          | inl e ↦ inr (b'n', rw (n₀, n₁, n₂, n₃, e) refl, short_escape 10 b'n' c refl e)
          | inr n₄ ↦ elim (Bool-cases (c == 13)) [
            | inl e ↦ inr (b'r', rw (n₀, n₁, n₂, n₃, n₄, e) refl, short_escape 13 b'r' c refl e)
            | inr n₅ ↦ elim (Bool-cases (c == 9)) [
              | inl e ↦
                  inr (b't', rw (n₀, n₁, n₂, n₃, n₄, n₅, e) refl, short_escape 9 b't' c refl e)
              | inr n₆ ↦
                  let large : 32 ≤ c = ground arith in
                  let low : ltb c 32 ≡ false = ground arith in
                  inl (rw (n₀, n₁, n₂, n₃, n₄, n₅, n₆, low) refl, large, n₀, n₁)
            ]
          ]
        ]
      ]
    ]
  ]
]

-- The decoder reads one simple byte as `escape_char` writes it.
decode_loop-escape_char :
    (max_len : ℕ) (out : Bytes) (c d : ℕ) (p : Bytes)
    → IsSimple c
    → length out + 2 < max_len
    → decode_loop max_len out (escape_char c ++ (d ∷ p))
      ≡ decode_loop max_len (out ++ (c ∷ [])) (d ∷ p)
unfolding Escapes decode_loop
decode_loop-escape_char max_len out c d p h room =
    let wide : leb max_len (length out + 2) ≡ false = ground arith in
    let narrow : leb max_len (length out + 1) ≡ false = ground arith in
    elim (escape_char-Escapes c h) [
      | inl (same, large, quote, back) ↦
          let low : ltb c 32 ≡ false = ground arith in rw same (rw (quote, back, low, narrow) refl)
      | inr (e, same, known) ↦ rw same (rw (known, wide) refl)
    ]

length-escape_char_any : (c : ℕ) → (0 < length (escape_char c)) × (length (escape_char c) ≤ 6)
unfolding escape_char
length-escape_char_any c = ground arith

-- An escaped text is not shorter, and at most six times as long.
pub length-escaped :
    (s : Bytes) → (length s ≤ length (escaped s)) × (length (escaped s) ≤ 6 * length s)
unfolding escaped
length-escaped [] = (omega arith, omega arith)
length-escaped (c ∷ s) =
    let (some_bytes, few) = length-escape_char_any c in
    let (longer, shorter) = length-escaped s in
    let sum = length-append (escape_char c) (escaped s) in
    (omega (arith, some_bytes, longer, sum), omega (arith, few, shorter, sum))

-- A text whose escape fits with some room is escaped whole.
escape_loop-escaped :
    (max_len : ℕ) (out s : Bytes)
    → length out + length (escaped s) + 8 < max_len
    → escape_loop max_len out s ≡ out ++ escaped s
unfolding escape_loop escaped
escape_loop-escaped max_len out [] room = sym (append-nil out)
escape_loop-escaped max_len out (c ∷ s) room =
    let sum = length-append (escape_char c) (escaped s) in
    let first : leb max_len (length out + 8) ≡ false = ground arith in
    let second : leb (max_len - 1) (length out + length (escape_char c)) ≡ false = ground arith in
    rw (first, second)
      (escape_loop-escaped max_len (out ++ escape_char c) s
          (omega (arith, room, sum, length-append out (escape_char c)))
        ∙ append_assoc out (escape_char c) (escaped s))

pub json_escape-escaped :
    (max_len : ℕ) (s : Bytes) → length (escaped s) + 8 < max_len → json_escape max_len s ≡ escaped s
unfolding json_escape
json_escape-escaped max_len s room = escape_loop-escaped max_len [] s (omega (arith, room))

-- A text with a quote behind it starts with some byte.
starts :
    (s rest : Bytes) → All IsSimple s → (d : ℕ) × (p : Bytes) × (escaped s ++ (b'"' ∷ rest) ≡ d ∷ p)
unfolding escaped Escapes
starts [] rest h = (b'"', rest, refl)
starts (c ∷ s) rest (simple, h) = elim (escape_char-Escapes c simple) [
  | inl (same, large, quote, back) ↦ (c, escaped s ++ (b'"' ∷ rest), rw same refl)
  | inr (e, same, known) ↦ (b'\\', e ∷ (escaped s ++ (b'"' ∷ rest)), rw same refl)
]

decode_loop-quote :
    (max_len : ℕ) (out rest : Bytes) → decode_loop max_len out (b'"' ∷ rest) ≡ some (out, rest)
unfolding decode_loop
decode_loop-quote max_len out [] = refl
decode_loop-quote max_len out (c ∷ rest) = refl

append_ap :
    (max_len : ℕ) (out : Bytes) (c : ℕ) (s rest : Bytes)
    → decode_loop max_len out (escaped (c ∷ s) ++ (b'"' ∷ rest))
      ≡ decode_loop max_len out (escape_char c ++ (escaped s ++ (b'"' ∷ rest)))
unfolding escaped
append_ap max_len out c s rest =
    ap (decode_loop max_len out) (append_assoc (escape_char c) (escaped s) (b'"' ∷ rest))

decode_loop-escaped :
    (max_len : ℕ) (out s rest : Bytes)
    → All IsSimple s
    → length out + length s + 2 < max_len
    → decode_loop max_len out (escaped s ++ (b'"' ∷ rest)) ≡ some (out ++ s, rest)
unfolding escaped
decode_loop-escaped max_len out [] rest h room =
    decode_loop-quote max_len out rest ∙ ap (λ t. some (t, rest)) (sym (append-nil out))
decode_loop-escaped max_len out (c ∷ s) rest (simple, h) room =
    let (d, p, e) = starts s rest h in
    append_ap max_len out c s rest
    ∙ ap (λ t. decode_loop max_len out (escape_char c ++ t)) e
    ∙ decode_loop-escape_char max_len out c d p simple (omega (arith, room))
    ∙ ap (decode_loop max_len (out ++ (c ∷ []))) (sym e)
    ∙ decode_loop-escaped max_len (out ++ (c ∷ [])) s rest h
        (omega (arith, room, length-append out (c ∷ [])))
    ∙ ap (λ t. some (t, rest)) (append_assoc out (c ∷ []) s)

length-escape_char :
    (c : ℕ) → IsSimple c → (0 < length (escape_char c)) × (length (escape_char c) ≤ 2)
unfolding Escapes
length-escape_char c h = elim (escape_char-Escapes c h) [
  | inl (same, large, quote, back) ↦ rw same (omega arith, omega arith)
  | inr (e, same, known) ↦ rw same (omega arith, omega arith)
]

-- In a buffer that is large enough nothing is left out.
escape_loop-whole :
    (max_len : ℕ) (out s : Bytes)
    → All IsSimple s
    → length out + 2 * length s + 8 < max_len
    → escape_loop max_len out s ≡ out ++ escaped s
unfolding escape_loop escaped
escape_loop-whole max_len out [] h room = sym (append-nil out)
escape_loop-whole max_len out (c ∷ s) (simple, h) room =
    let (some_bytes, few) = length-escape_char c simple in
    let first : leb max_len (length out + 8) ≡ false = ground arith in
    let second : leb (max_len - 1) (length out + length (escape_char c)) ≡ false = ground arith in
    rw (first, second)
      (escape_loop-whole max_len (out ++ escape_char c) s h
          (omega (arith, room, few, length-append out (escape_char c)))
        ∙ append_assoc out (escape_char c) (escaped s))

-- A text of simple bytes (32 and above, or one of the five control characters that have a short
-- escape), escaped into a buffer of more than two bytes for each of them and 8 more, put between quotes
-- and decoded into a buffer of more than its length and 2, comes back unchanged, and the decoder
-- stops behind the quote.
pub decode_string-json_escape :
    (max_len size : ℕ) (s rest : Bytes)
    → All IsSimple s
    → 2 * length s + 8 < size
    → length s + 2 < max_len
    → decode_string max_len (b'"' ∷ (json_escape size s ++ (b'"' ∷ rest))) ≡ some (s, rest)
unfolding decode_string json_escape
decode_string-json_escape max_len size s rest h room room' =
    let positive : (max_len == 0) ≡ false = ground arith in
    rw positive (
      ap (λ t. decode_loop max_len [] (t ++ (b'"' ∷ rest)))
        (escape_loop-whole size [] s h (omega (arith, room)))
      ∙ decode_loop-escaped max_len [] s rest h (omega (arith, room')))

length-escape_loop :
    (max_len : ℕ) (out s : Bytes)
    → length out < max_len
    → length (escape_loop max_len out s) < max_len
unfolding escape_loop
length-escape_loop max_len out [] h = h
length-escape_loop max_len out (c ∷ s) h = elim (Bool-cases (leb max_len (length out + 8))) [
  | inl full ↦ rw full h
  | inr room ↦ elim (Bool-cases (leb (max_len - 1) (length out + length (escape_char c)))) [
    | inl full ↦ rw (room, full) h
    | inr room' ↦
        rw (room, room')
          (length-escape_loop max_len (out ++ escape_char c) s
            (ground (arith, length-append out (escape_char c))))
  ]
]

-- What `json_escape` writes for any text fits in its buffer, with the terminator.
pub length-json_escape :
    (max_len : ℕ) (s : Bytes) → 0 < max_len → length (json_escape max_len s) < max_len
unfolding json_escape
length-json_escape max_len s h = length-escape_loop max_len [] s h
