-- ===== src/Tools/Json/Spelling.antt =====
-- JSON strings and the texts that they spell, and `decode_json_string_value` against them.
use star_bridge.Base.{
  ℕ, ◌+◌, ◌≤◌, ◌<◌, ◌≡◌, refl, ap, ap₂, sym, ◌∙◌, ◌≢◌, ◌⊎◌, inl, inr, ◌||◌, Option, some, [], ◌∷◌,
  ◌++◌, ltb, leb, ◌==◌, Bytes, length, arith, append_assoc, append-nil, length-append, Bool-cases,
  Option-cases,
}
use star_bridge.Tools.Json.{unescape, decode_loop}

-- The body of a JSON string, between the quotes, and the text that it stands for.
pub data Spells : Bytes → Bytes → Type 0 where
  nil : Spells [] []
  plain :
      {c : ℕ} {raw text : Bytes}
      → c ≢ b'"'
      → c ≢ b'\\'
      → 32 ≤ c
      → Spells raw text
      → Spells (c ∷ raw) (c ∷ text)
  escape :
      {e v : ℕ} {raw text : Bytes}
      → unescape e ≡ some v
      → Spells raw text
      → Spells (b'\\' ∷ e ∷ raw) (v ∷ text)

-- What `decode_loop` has read when it succeeds.
pub record Decoded (max_len : ℕ) (out s text rest : Bytes) : Type 0 where
  pub raw : Bytes
  pub body : Bytes
  pub spells : Spells raw body
  pub whole : text ≡ out ++ body
  pub splits : s ≡ raw ++ (b'"' ∷ rest)
  pub room : (length body ≡ 0) ⊎ (length text < max_len)

room_kept :
    (max_len : ℕ) (out : Bytes) (c : ℕ) (text body : Bytes)
    → length out + 1 < max_len
    → text ≡ (out ++ (c ∷ [])) ++ body
    → (length body ≡ 0) ⊎ (length text < max_len)
    → length text < max_len
room_kept max_len out c text body room e (inl none_left) =
    omega (arith, ap length e, length-append (out ++ (c ∷ [])) body, length-append out (c ∷ []))
room_kept max_len out c text body room e (inr h) = h

Decoded-stop :
    (max_len : ℕ) (out : Bytes) (c : ℕ) (p text rest : Bytes)
    → c ≡ b'"'
    → ◌≡◌ {A = Option (Bytes × Bytes)} (some (out, p)) (some (text, rest))
    → Decoded max_len out (c ∷ p) text rest
Decoded-stop max_len out c p text rest e h = record {
  raw = [];
  body = [];
  spells = nil;
  whole = let same : out ≡ text = cc in sym same ∙ sym (append-nil out);
  splits = ground arith;
  room = inl refl;
}

Decoded-plain :
    (max_len : ℕ) (out : Bytes) (c : ℕ) (s text rest : Bytes)
    → c ≢ b'"'
    → c ≢ b'\\'
    → 32 ≤ c
    → length out + 1 < max_len
    → Decoded max_len (out ++ (c ∷ [])) s text rest
    → Decoded max_len out (c ∷ s) text rest
Decoded-plain max_len out c s text rest nq nb low room d = record {
  raw = c ∷ d.raw;
  body = c ∷ d.body;
  spells = plain nq nb low d.spells;
  whole = d.whole ∙ append_assoc out (c ∷ []) d.body;
  splits = ap (◌∷◌ c) d.splits;
  room = inr (room_kept max_len out c text d.body room d.whole d.room);
}

Decoded-escape :
    (max_len : ℕ) (out : Bytes) (c e v : ℕ) (s text rest : Bytes)
    → c ≡ b'\\'
    → unescape e ≡ some v
    → length out + 2 < max_len
    → Decoded max_len (out ++ (v ∷ [])) s text rest
    → Decoded max_len out (c ∷ e ∷ s) text rest
Decoded-escape max_len out c e v s text rest back known room d = record {
  raw = b'\\' ∷ e ∷ d.raw;
  body = v ∷ d.body;
  spells = escape known d.spells;
  whole = d.whole ∙ append_assoc out (v ∷ []) d.body;
  splits = ap₂ ◌∷◌ back (ap (◌∷◌ e) d.splits);
  room = inr (room_kept max_len out v text d.body (omega arith) d.whole d.room);
}

pub decode_loop-Decoded :
    (max_len : ℕ) (out s text rest : Bytes)
    → decode_loop max_len out s ≡ some (text, rest)
    → Decoded max_len out s text rest
unfolding decode_loop
decode_loop-Decoded max_len out [] text rest h = absurd (cc)
decode_loop-Decoded max_len out (c ∷ []) text rest h = elim (Bool-cases (c == b'"')) [
  | inl quote ↦ Decoded-stop max_len out c [] text rest (ground arith) (rw quote at h)
  | inr not_quote ↦ absurd (cc (rw not_quote at h))
]
decode_loop-Decoded max_len out (c ∷ e ∷ p) text rest h = elim (Bool-cases (c == b'"')) [
  | inl quote ↦ Decoded-stop max_len out c (e ∷ p) text rest (ground arith) (rw quote at h)
  | inr not_quote ↦ elim (Bool-cases (c == b'\\')) [
    | inl back ↦ elim (Option-cases (unescape e)) [
      | inl unknown ↦ absurd (cc (rw (not_quote, back, unknown) at h))
      | inr (v, known) ↦ elim (Bool-cases (leb max_len (length out + 2))) [
        | inl full ↦ absurd (cc (rw (not_quote, back, known, full) at h))
        | inr free ↦
            Decoded-escape max_len out c e v p text rest (ground arith) known (ground arith) (
              decode_loop-Decoded max_len (out ++ (v ∷ [])) p text rest
                (rw (not_quote, back, known, free) at h))
      ]
    ]
    | inr not_back ↦ elim (Bool-cases (ltb c 32 || leb max_len (length out + 1))) [
      | inl bad ↦ absurd (cc (rw (not_quote, not_back, bad) at h))
      | inr good ↦
          Decoded-plain max_len out c (e ∷ p) text rest (ground arith) (ground arith) (ground arith)
            (ground arith)
            (decode_loop-Decoded max_len (out ++ (c ∷ [])) (e ∷ p) text rest
              (rw (not_quote, not_back, good) at h))
    ]
  ]
]
