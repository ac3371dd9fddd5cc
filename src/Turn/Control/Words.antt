-- ===== src/Turn/Control/Words.antt =====
-- The request line of a client of the control plane, as a text of two words.
use star_bridge.Base.{
  ℕ, zero, suc, ◌<◌, ◌≤◌, ◌≡◌, ◌⊎◌, inl, inr, refl, ap, ◌∙◌, Bool, true, false, ◌||◌, Option, none,
  some, [], ◌∷◌, ◌++◌, All, Bytes, length, is_empty, if◌then◌else◌, arith, Bool-cases,
}
use star_bridge.Turn.Control.{is_blank, skip_space, scan_word, request_line}

-- A text that is empty or starts with white space.
abbrev pub StartsBlank : Bytes → Type 0
StartsBlank [] = Unit {0}
StartsBlank (c ∷ s) = is_blank c ≡ true

-- A word of 1 to `width` bytes without white space, before a text: if it is shorter than `width`, white
-- space or the end stands behind it.
pub record IsWord (width : ℕ) (word rest : Bytes) : Type 0 where
  pub some_bytes : 0 < length word
  pub few : length word ≤ width
  pub solid : All (λ c. is_blank c ≡ false) word
  pub ends : (length word ≡ width) ⊎ StartsBlank rest

-- A text whose first two words are a method of at most 15 bytes and a path of at most 511 bytes.
pub record RequestLine (method path text : Bytes) : Type 0 where
  pub indent : Bytes
  pub gap : Bytes
  pub rest : Bytes
  pub whole : text ≡ indent ++ (method ++ (gap ++ (path ++ rest)))
  pub blank_indent : All (λ c. is_blank c ≡ true) indent
  pub blank_gap : All (λ c. is_blank c ≡ true) gap
  pub first : IsWord 15 method (gap ++ (path ++ rest))
  pub second : IsWord 511 path rest

-- What `skip_space` takes away.
record Skipped (s : Bytes) : Type 0 where
  blanks : Bytes
  all : All (λ c. is_blank c ≡ true) blanks
  rest : s ≡ blanks ++ skip_space s

skip_space-Skipped : (s : Bytes) → Skipped s
unfolding skip_space
skip_space-Skipped [] = record { blanks = []; all = tt; rest = refl }
skip_space-Skipped (c ∷ s) = elim (Bool-cases (is_blank c)) [
  | inl e ↦
      let later = skip_space-Skipped s in
      record {
        blanks = c ∷ later.blanks;
        all = (e, later.all);
        rest = rw e (ap (◌∷◌ c) later.rest);
      }
  | inr e ↦ record { blanks = []; all = tt; rest = rw e refl }
]

-- What `scan_word` reads.
record Scanned (width : ℕ) (s word rest : Bytes) : Type 0 where
  whole : s ≡ word ++ rest
  few : length word ≤ width
  solid : All (λ c. is_blank c ≡ false) word
  ends : (length word ≡ width) ⊎ StartsBlank rest

scan_word-Scanned :
    (width : ℕ) (s : Bytes) → Scanned width s (scan_word width s).0 (scan_word width s).1
unfolding scan_word
scan_word-Scanned zero s = record { whole = refl; few = omega arith; solid = tt; ends = inl refl }
scan_word-Scanned (suc width) [] = record {
  whole = refl;
  few = omega arith;
  solid = tt;
  ends = inr tt;
}
scan_word-Scanned (suc width) (c ∷ s) = elim (Bool-cases (is_blank c)) [
  | inl e ↦ rw e (record { whole = refl; few = omega arith; solid = tt; ends = inr e })
  | inr e ↦
      let later = scan_word-Scanned width s in
      let ends : (length (c ∷ (scan_word width s).0) ≡ suc width)
          ⊎ StartsBlank (scan_word width s).1 =
        elim later.ends [ inl full ↦ inl (omega (arith, full)) | inr blank ↦ inr blank ] in
      rw e (record {
        whole = ap (◌∷◌ c) later.whole;
        few = omega (arith, later.few);
        solid = (e, later.solid);
        ends = ends;
      })
]

filled : (s : Bytes) → is_empty s ≡ false → 0 < length s
filled [] e = ground arith
filled (c ∷ s) e = omega arith

-- What `request_line` finds is the first two words.
pub request_line-RequestLine :
    (text method path : Bytes)
    → request_line text ≡ some (method, path)
    → RequestLine method path text
unfolding request_line
request_line-RequestLine text method path found = go (is_empty m.0 || is_empty p.0) refl found
  where
    m : Bytes × Bytes
    m = scan_word 15 (skip_space text)

    p : Bytes × Bytes
    p = scan_word 511 (skip_space m.1)

    own : is_empty m.0 ≡ false → is_empty p.0 ≡ false → RequestLine m.0 p.0 text
    own e e' =
        let before = skip_space-Skipped text in
        let one : Scanned 15 (skip_space text) m.0 m.1 = scan_word-Scanned 15 (skip_space text) in
        let between = skip_space-Skipped m.1 in
        let two : Scanned 511 (skip_space m.1) p.0 p.1 = scan_word-Scanned 511 (skip_space m.1) in
        let tail : m.1 ≡ between.blanks ++ (p.0 ++ p.1) =
          between.rest ∙ ap (◌++◌ between.blanks) two.whole in
        record {
          indent = before.blanks;
          gap = between.blanks;
          rest = p.1;
          whole = before.rest ∙ ap (◌++◌ before.blanks) (one.whole ∙ ap (◌++◌ m.0) tail);
          blank_indent = before.all;
          blank_gap = between.all;
          first = record {
            some_bytes = filled m.0 e;
            few = one.few;
            solid = one.solid;
            ends = elim one.ends [ inl full ↦ inl full | inr blank ↦ inr (rw tail at blank) ];
          };
          second = record {
            some_bytes = filled p.0 e';
            few = two.few;
            solid = two.solid;
            ends = two.ends;
          };
        }

    go :
        (b : Bool)
        → (is_empty m.0 || is_empty p.0) ≡ b
        → (let r : Option (Bytes × Bytes) = if b then none else some (m.0, p.0) in
            r ≡ some (method, path))
        → RequestLine method path text
    go true e f = absurd (ground arith)
    go false e f =
        let same : m.0 ≡ method = ground arith in
        let same' : p.0 ≡ path = ground arith in
        rw same at (rw same' at (own (ground arith) (ground arith)))

skip_space-blanks :
    (blanks s : Bytes)
    → All (λ c. is_blank c ≡ true) blanks
    → skip_space (blanks ++ s) ≡ skip_space s
unfolding skip_space
skip_space-blanks [] s all = refl
skip_space-blanks (c ∷ blanks) s (e, all) = rw e (skip_space-blanks blanks s all)

skip_space-word :
    {width : ℕ} (word rest : Bytes)
    → IsWord width word rest
    → (tail : Bytes) → skip_space (word ++ tail) ≡ word ++ tail
unfolding skip_space
skip_space-word [] rest w tail = absurd (omega (arith, w.some_bytes))
skip_space-word (c ∷ word) rest w tail = rw w.solid.0 refl

scan_word-word :
    (width : ℕ) (word rest : Bytes)
    → All (λ c. is_blank c ≡ false) word
    → length word ≤ width
    → (length word ≡ width) ⊎ StartsBlank rest
    → scan_word width (word ++ rest) ≡ (word, rest)
unfolding scan_word
scan_word-word zero [] rest solid few ends = refl
scan_word-word (suc width) [] [] solid few ends = refl
scan_word-word (suc width) [] (c ∷ rest) solid few (inl full) = absurd (omega (arith, full))
scan_word-word (suc width) [] (c ∷ rest) solid few (inr e) = rw e refl
scan_word-word zero (c ∷ word) rest solid few ends = absurd (omega (arith, few))
scan_word-word (suc width) (c ∷ word) rest (e, solid) few ends =
    let later : (length word ≡ width) ⊎ StartsBlank rest = elim ends [
      | inl full ↦ inl (omega (arith, full))
      | inr blank ↦ inr blank
    ] in
    rw e (
      ap (λ (r : Bytes × Bytes). (c ∷ r.0, r.1))
        (scan_word-word width word rest solid (omega (arith, few)) later))

some_word : {width : ℕ} {word rest : Bytes} → IsWord width word rest → is_empty word ≡ false
some_word {word = []} w = absurd (omega (arith, w.some_bytes))
some_word {word = c ∷ word} w = refl

-- The first two words are what `request_line` finds.
pub RequestLine-request_line :
    (text method path : Bytes)
    → RequestLine method path text
    → request_line text ≡ some (method, path)
unfolding request_line
RequestLine-request_line text method path l =
    let tail : Bytes = l.gap ++ (path ++ l.rest) in
    let one : scan_word 15 (skip_space text) ≡ (method, tail) =
      ap (λ s. scan_word 15 (skip_space s)) l.whole
      ∙ ap (scan_word 15) (
          skip_space-blanks l.indent (method ++ tail) l.blank_indent
          ∙ skip_space-word method tail l.first tail)
      ∙ scan_word-word 15 method tail l.first.solid l.first.few l.first.ends in
    let two : scan_word 511 (skip_space tail) ≡ (path, l.rest) =
      ap (scan_word 511) (
        skip_space-blanks l.gap (path ++ l.rest) l.blank_gap
        ∙ skip_space-word path l.rest l.second l.rest)
      ∙ scan_word-word 511 path l.rest l.second.solid l.second.few l.second.ends in
    rw (one, two, some_word l.first, some_word l.second) refl
