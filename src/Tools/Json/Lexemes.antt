-- ===== src/Tools/Json/Lexemes.antt =====
-- White space, single characters and strings, as the parser of one-field objects reads them.
use mathlib.Core.Path.{subst}
use star_bridge.Base.{
  ℕ, ◌<◌, ◌≡◌, refl, ap, ap₂, sym, ◌∙◌, ◌⊎◌, inl, inr, true, not, ◌&&◌, some, [], ◌∷◌, ◌++◌, ◌==◌,
  Bytes, length, arith, Bool-cases,
}
use star_bridge.Tools.Json.{is_space, skip_ws, decode_string, expect}
use star_bridge.Tools.Json.Spelling.{Spells, decode_loop-Decoded}

-- A text of white space.
abbrev pub IsSpaces : Bytes → Type 0
IsSpaces [] = Unit {0}
IsSpaces (c ∷ s) = (is_space c ≡ true) × IsSpaces s

pub record Skipped (s rest : Bytes) : Type 0 where
  pub spaces : Bytes
  pub all_spaces : IsSpaces spaces
  pub splits : s ≡ spaces ++ rest

pub skip_ws-Skipped : (s : Bytes) → Skipped s (skip_ws s)
unfolding skip_ws
skip_ws-Skipped [] = record { spaces = []; all_spaces = tt; splits = refl }
skip_ws-Skipped (c ∷ s) = elim (Bool-cases (is_space c)) [
  | inl space ↦
      let rest = skip_ws-Skipped s in
      rw space (record {
        spaces = c ∷ rest.spaces;
        all_spaces = (space, rest.all_spaces);
        splits = ap (◌∷◌ c) rest.splits;
      })
  | inr other ↦ rw other (record { spaces = []; all_spaces = tt; splits = refl })
]

pub expect-eq : (c : ℕ) (s rest : Bytes) → expect c s ≡ some rest → s ≡ c ∷ rest
unfolding expect
expect-eq c [] rest h = cc
expect-eq c (d ∷ s) rest h = ground arith

pub record Quoted (max_len : ℕ) (s text rest : Bytes) : Type 0 where
  pub raw : Bytes
  pub spells : Spells raw text
  pub splits : s ≡ b'"' ∷ (raw ++ (b'"' ∷ rest))
  pub room : (length text ≡ 0) ⊎ (length text < max_len)

room_of : {P : Type 0} {m n : ℕ} → m ≡ n → (n ≡ 0) ⊎ P → (m ≡ 0) ⊎ P
room_of e (inl h) = inl (e ∙ h)
room_of e (inr h) = inr h

pub decode_string-Quoted :
    (max_len : ℕ) (s text rest : Bytes)
    → decode_string max_len s ≡ some (text, rest)
    → Quoted max_len s text rest
unfolding decode_string
decode_string-Quoted max_len [] text rest h = absurd (cc)
decode_string-Quoted max_len (c ∷ s) text rest h =
    elim (Bool-cases (c == b'"' && not (max_len == 0))) [
      | inl opens ↦
          let d = decode_loop-Decoded max_len [] s text rest (rw opens at h) in
          record {
            raw = d.raw;
            spells = subst (λ t. Spells d.raw t) (sym d.whole) d.spells;
            splits = ap₂ ◌∷◌ (ground arith) d.splits;
            room = room_of (ap length d.whole) d.room;
          }
      | inr other ↦ absurd (cc (rw other at h))
    ]
