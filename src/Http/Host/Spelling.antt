-- ===== src/Http/Host/Spelling.antt =====
-- The host that the value of a header spells, with or without brackets and a port.
use mathlib.Core.Path.{subst}
use star_bridge.Base.{
  ℕ, ◌<◌, ◌≡◌, ◌⊎◌, inl, inr, refl, sym, ap, ◌∙◌, true, false, ◌||◌, Option, none, some, [], ◌∷◌,
  ◌++◌, ◌==◌, ==_iff, All, Bytes, length, is_empty, if◌then◌else◌, arith, Bool-cases, append_assoc,
  copy_bounded,
}
use star_bridge.Http.{is_tab_or_space, until_eol}
use star_bridge.Http.Length.{skip_blanks}
use star_bridge.Http.Host.{before, bracketed, plain_host, opens_bracket}

-- A byte that is not `b`.
abbrev pub Other : ℕ → ℕ → Type 0
Other b c = (c == b) ≡ false

-- A byte that does not end a line.
abbrev pub InLine : ℕ → Type 0
InLine c = (c == 13 || c == 10) ≡ false

-- A text that is empty or starts with the end of a line.
abbrev pub EndsLine : Bytes → Type 0
EndsLine [] = Unit {0}
EndsLine (c ∷ s) = (c == 13 || c == 10) ≡ true

abbrev pub StartsSolid : Bytes → Type 0
StartsSolid [] = Unit {0}
StartsSolid (c ∷ s) = is_tab_or_space c ≡ false

-- What is left of a value without the spaces and tabs that it starts with.
pub record AfterBlanks (value p : Bytes) : Type 0 where
  pub blanks : Bytes
  pub all : All (λ c. is_tab_or_space c ≡ true) blanks
  pub whole : value ≡ blanks ++ p
  pub solid : StartsSolid p

-- The host that a value spells, of which at most 255 bytes count: after "[", it is all up to the first
-- "]", whatever follows; else the line up to its first ":", or all of the line if there is none or
-- the line starts with it.
pub data HostOf (value : Bytes) : Bytes → Type 0 where
  in_brackets :
      {p : Bytes} (host rest : Bytes)
      → AfterBlanks value p
      → p ≡ (b'[' ∷ host) ++ (b']' ∷ rest)
      → All (Other b']') host
      → HostOf value (copy_bounded 256 ((b'[' ∷ host) ++ (b']' ∷ [])))
  before_port :
      {p : Bytes} (host rest : Bytes)
      → AfterBlanks value p
      → opens_bracket p ≡ false
      → p ≡ host ++ (b':' ∷ rest)
      → 0 < length host
      → All (Other b':') host
      → All InLine host
      → HostOf value (copy_bounded 256 host)
  whole_line :
      {p : Bytes} (line rest : Bytes)
      → AfterBlanks value p
      → opens_bracket p ≡ false
      → p ≡ line ++ rest
      → All InLine line
      → EndsLine rest
      → All (Other b':') line ⊎ ((l : Bytes) × (line ≡ b':' ∷ l))
      → HostOf value (copy_bounded 256 line)

skip_blanks-AfterBlanks : (value : Bytes) → AfterBlanks value (skip_blanks value)
unfolding skip_blanks
skip_blanks-AfterBlanks [] = record { blanks = []; all = tt; whole = refl; solid = tt }
skip_blanks-AfterBlanks (c ∷ value) = elim (Bool-cases (is_tab_or_space c)) [
  | inl e ↦
      let later = skip_blanks-AfterBlanks value in
      rw e (record {
        blanks = c ∷ later.blanks;
        all = (e, later.all);
        whole = ap (◌∷◌ c) later.whole;
        solid = later.solid;
      })
  | inr e ↦ rw e (record { blanks = []; all = tt; whole = refl; solid = e })
]

-- What `before` finds, or that the byte is missing.
Found : ℕ → Bytes → Option Bytes → Type 0
Found b s none = All (Other b) s
Found b s (some t) = ((rest : Bytes) × (s ≡ t ++ (b ∷ rest))) × All (Other b) t

before-Found : (b : ℕ) (s : Bytes) → Found b s (before b s)
unfolding before Found
before-Found b [] = tt
before-Found b (c ∷ s) = elim (Bool-cases (c == b)) [
  | inl e ↦ rw e ((s, ap (λ x. x ∷ s) ((==_iff c b).0 e)), tt)
  | inr e ↦ rw e (go (before b s) (before-Found b s) e)
]
  where
    go :
        (o : Option Bytes)
        → Found b s o
        → (c == b) ≡ false
        → Found b (c ∷ s) (elim o [ none ↦ none | some t ↦ some (c ∷ t) ])
    go none f e = (e, f)
    go (some t) ((rest, whole), all) e = ((rest, ap (◌∷◌ c) whole), (e, all))

-- The line and what follows it.
record Line (s : Bytes) : Type 0 where
  rest : Bytes
  whole : s ≡ until_eol s ++ rest
  all : All InLine (until_eol s)
  ends : EndsLine rest

until_eol-Line : (s : Bytes) → Line s
unfolding until_eol
until_eol-Line [] = record { rest = []; whole = refl; all = tt; ends = tt }
until_eol-Line (c ∷ s) = elim (Bool-cases (c == 13 || c == 10)) [
  | inl e ↦ record { rest = c ∷ s; whole = rw e refl; all = rw e tt; ends = e }
  | inr e ↦
      let later = until_eol-Line s in
      record {
        rest = later.rest;
        whole = rw e (ap (◌∷◌ c) later.whole);
        all = rw e (e, later.all);
        ends = later.ends;
      }
]

All-first : (P : ℕ → Type 0) (a b : Bytes) → All P (a ++ b) → All P a
All-first P [] b all = tt
All-first P (c ∷ a) b (p, all) = (p, All-first P a b all)

-- The branch of the brackets.
pub bracketed-HostOf :
    (value host : Bytes)
    → opens_bracket (skip_blanks value) ≡ true
    → bracketed (skip_blanks value) ≡ some host
    → HostOf value host
unfolding Found
bracketed-HostOf value host opens found =
    go (before b']' (skip_blanks value)) (before-Found b']' (skip_blanks value)) found
  where
    closed :
        (p t : Bytes)
        → AfterBlanks value p
        → opens_bracket p ≡ true
        → (rest : Bytes) → p ≡ t ++ (b']' ∷ rest)
        → All (Other b']') t
        → HostOf value (copy_bounded 256 (t ++ (b']' ∷ [])))
    closed p [] after o rest e all =
        let first : opens_bracket (b']' ∷ rest) ≡ true = subst (λ q. opens_bracket q ≡ true) e o in
        absurd (ground arith)
    closed p (c ∷ t) after o rest e all =
        let first : (b'[' == c) ≡ true = ground (arith, subst (λ q. opens_bracket q ≡ true) e o) in
        let same : c ≡ b'[' = ground arith in
        subst (λ x. HostOf value (copy_bounded 256 ((x ∷ t) ++ (b']' ∷ [])))) (sym same)
          (in_brackets t rest after (e ∙ ap (λ x. (x ∷ t) ++ (b']' ∷ rest)) same) all.1)

    go :
        (o : Option Bytes)
        → Found b']' (skip_blanks value) o
        → (let r : Option Bytes = elim o [
          | none ↦ none
          | some t ↦ some (copy_bounded 256 (t ++ (b']' ∷ [])))
        ] in
            r ≡ some host)
        → HostOf value host
    go none f e = absurd (ground arith)
    go (some t) ((rest, whole), all) e =
        let same : copy_bounded 256 (t ++ (b']' ∷ [])) ≡ host = ground arith in
        subst (HostOf value) same
          (closed (skip_blanks value) t (skip_blanks-AfterBlanks value) opens rest whole all)

-- The branch without brackets.
pub plain_host-HostOf :
    (value : Bytes)
    → opens_bracket (skip_blanks value) ≡ false
    → HostOf value (plain_host (skip_blanks value))
unfolding Found plain_host
plain_host-HostOf value plain =
    go (before b':' (until_eol (skip_blanks value)))
      (before-Found b':' (until_eol (skip_blanks value)))
  where
    p : Bytes
    p = skip_blanks value

    after : AfterBlanks value p
    after = skip_blanks-AfterBlanks value

    line : Line p
    line = until_eol-Line p

    go :
        (o : Option Bytes)
        → Found b':' (until_eol p) o
        → HostOf value (elim o [
          | none ↦ copy_bounded 256 (until_eol p)
          | some t ↦ copy_bounded 256 (if is_empty t then until_eol p else t)
        ])
    go none f = whole_line (until_eol p) line.rest after plain line.whole line.all line.ends (inl f)
    go (some []) ((rest, whole), all) =
        whole_line (until_eol p) line.rest after plain line.whole line.all line.ends
          (inr (rest, whole))
    go (some (c ∷ t)) ((rest, whole), all) =
        before_port (c ∷ t) (rest ++ line.rest) after plain
          (line.whole
            ∙ ap (λ l. l ++ line.rest) whole
            ∙ append_assoc (c ∷ t) (b':' ∷ rest) line.rest)
          (omega arith) all
          (All-first InLine (c ∷ t) (b':' ∷ rest) (subst (All InLine) whole line.all))
