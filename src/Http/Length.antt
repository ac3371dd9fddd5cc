-- ===== src/Http/Length.antt =====
-- The length of an HTTP request: `parse_content_length_safe` and `http_expected_request_len`.
use star_bridge.Base.{
  ℕ, ◌+◌, ◌-◌, ◌*◌, ◌/◌, ◌^◌, ◌<◌, ◌≤◌, ◌≡◌, refl, ap, ◌∙◌, Bool, true, false, not, ◌&&◌, ◌||◌,
  Option, none, some, [], ◌∷◌, ◌++◌, ltb, leb, ◌==◌, if◌then◌else◌, Bytes, length, codes, All,
  arith, Bool-cases, inl, inr, ltb→lt,
}
use star_bridge.Http.{is_tab_or_space, header_end, index_of, find_header_value, is_chunked_request}

-- `LONG_MAX`, of 64 bits.
abbrev long_max : ℕ
long_max = 2 ^ 63 - 1

-- `while (*val == ' ' || *val == '\t') val++`
unfoldable pub skip_blanks : Bytes → Bytes
skip_blanks [] = []
skip_blanks (c ∷ s) = let rest = skip_blanks s in if is_tab_or_space c then rest else c ∷ s

abbrev pub is_digit : ℕ → Bool
is_digit c = leb b'0' c && leb c b'9'

-- The loop over the digits: the number and what follows it, or none on an overflow.
unfoldable pub digits_loop : ℕ → Bytes → Option (ℕ × Bytes)
digits_loop acc [] = some (acc, [])
digits_loop acc (c ∷ s) =
    let rest = digits_loop (acc * 10 + (c - b'0')) s in
    if not (is_digit c)
    then some (acc, c ∷ s)
    else if ltb (long_max / 10) acc
    then none
    else if ltb (long_max - (c - b'0')) (acc * 10)
    then none
    else rest

-- Whether a value ends here: with the text or its line.
unfoldable pub at_end : Bytes → Bool
at_end [] = true
at_end (c ∷ s) = c == 13 || c == 10

abbrev starts_with_digit : Bytes → Bool
starts_with_digit [] = false
starts_with_digit (c ∷ s) = is_digit c

-- `parse_content_length_safe`; `none` is -1.
unfoldable pub parse_content_length_safe : Bytes → Option ℕ
parse_content_length_safe val =
    let read : Option ℕ = elim (digits_loop 0 (skip_blanks val)) [
      | none ↦ none
      | some r ↦ if at_end (skip_blanks r.1) then some r.0 else none
    ] in
    if starts_with_digit (skip_blanks val) then read else none

-- `http_expected_request_len`, in a size_t that does not overflow; 0 stands for an unknown length.
unfoldable pub http_expected_request_len : Bytes → ℕ
http_expected_request_len raw = elim (index_of raw header_end) [
  | none ↦ 0
  | some n ↦
      let body : ℕ = elim (find_header_value raw (codes "Content-Length")) [
        | none ↦ 0
        | some val ↦ elim (parse_content_length_safe val) [ none ↦ 0 | some len ↦ len ]
      ] in
      if is_chunked_request raw then 0 else n + 4 + body
]

-- The number that digits stand for, after a number.
unfoldable pub number_from : ℕ → Bytes → ℕ
number_from n [] = n
number_from n (c ∷ s) = number_from (n * 10 + (c - b'0')) s

number_from_grows : (n : ℕ) (s : Bytes) → n ≤ number_from n s
unfolding number_from
number_from_grows n [] = omega arith
number_from_grows n (c ∷ s) = omega (arith, number_from_grows (n * 10 + (c - b'0')) s)

-- The loop gives the number if it fits in a long.
digits_loop-number :
    (acc : ℕ) (digits rest : Bytes)
    → All (λ c. is_digit c ≡ true) digits
    → starts_with_digit rest ≡ false
    → acc < 2 ^ 63
    → digits_loop acc (digits ++ rest) ≡ (
        if ltb (number_from acc digits) (2 ^ 63) then some (number_from acc digits, rest) else none)
unfolding digits_loop number_from
digits_loop-number acc [] [] all stop small = ground arith
digits_loop-number acc [] (c ∷ rest) all stop small = ground arith
digits_loop-number acc (c ∷ digits) rest (d, all) stop small =
    let next : ℕ = acc * 10 + (c - b'0') in
    elim (Bool-cases (ltb next (2 ^ 63))) [
      | inl fits ↦
          ground (arith, digits_loop-number next digits rest all stop (ltb→lt next (2 ^ 63) fits))
      | inr over ↦ ground (arith, number_from_grows next digits)
    ]

skip_blanks-digit : (s : Bytes) → starts_with_digit s ≡ true → skip_blanks s ≡ s
unfolding skip_blanks
skip_blanks-digit [] d = refl
skip_blanks-digit (c ∷ s) d = ground arith

skip_blanks-append :
    (blanks s : Bytes)
    → All (λ c. is_tab_or_space c ≡ true) blanks
    → skip_blanks (blanks ++ s) ≡ skip_blanks s
unfolding skip_blanks
skip_blanks-append [] s all = refl
skip_blanks-append (c ∷ blanks) s (b, all) = ground (arith, skip_blanks-append blanks s all)

-- What ends a value does not start with a digit.
stops :
    (blanks s : Bytes)
    → All (λ c. is_tab_or_space c ≡ true) blanks
    → at_end s ≡ true
    → starts_with_digit (blanks ++ s) ≡ false
unfolding at_end
stops [] [] all e = refl
stops [] (c ∷ s) all e = ground arith
stops (b ∷ blanks) s (h, all) e = ground arith

skip_blanks-at_end : (s : Bytes) → at_end s ≡ true → at_end (skip_blanks s) ≡ true
unfolding skip_blanks at_end
skip_blanks-at_end [] e = refl
skip_blanks-at_end (c ∷ s) e = ground arith

-- The end of the parse, by whether the number fits.
finish :
    (fits : Bool) (n : ℕ) (t : Bytes)
    → at_end (skip_blanks t) ≡ true
    → (let read : Option (ℕ × Bytes) = if fits then some (n, t) else none in
        let r : Option ℕ = elim read [
          | none ↦ none
          | some r ↦ if at_end (skip_blanks r.1) then some r.0 else none
        ] in
        r)
      ≡ (if fits then some n else none)
finish true n t e = rw (e) refl
finish false n t e = refl

-- A content length, with spaces and tabs around it at the end of its line or of the text, is read as
-- the number that its digits stand for if that fits in a long, and is refused if it does not, however
-- many digits it has.
pub parse_content_length_safe-number :
    (before digits after s : Bytes)
    → All (λ c. is_tab_or_space c ≡ true) before
    → All (λ c. is_digit c ≡ true) digits
    → 0 < length digits
    → All (λ c. is_tab_or_space c ≡ true) after
    → at_end s ≡ true
    → parse_content_length_safe (before ++ (digits ++ (after ++ s)))
      ≡ (if ltb (number_from 0 digits) (2 ^ 63) then some (number_from 0 digits) else none)
unfolding parse_content_length_safe
parse_content_length_safe-number before [] after s b d pos a e = absurd (omega arith)
parse_content_length_safe-number before (c ∷ digits) after s b (d, ds) pos a e =
    let rest : Bytes = c ∷ (digits ++ (after ++ s)) in
    let skipped : skip_blanks (before ++ rest) ≡ rest =
      skip_blanks-append before rest b ∙ skip_blanks-digit rest d in
    let ended : at_end (skip_blanks (after ++ s)) ≡ true =
      ap at_end (skip_blanks-append after s a) ∙ skip_blanks-at_end s e in
    rw
      (
        skipped,
        d,
        digits_loop-number 0 (c ∷ digits) (after ++ s) (d, ds) (stops after s a e) (omega arith),
      )
      (finish (ltb (number_from 0 (c ∷ digits)) (2 ^ 63)) (number_from 0 (c ∷ digits)) (after ++ s)
        ended)
