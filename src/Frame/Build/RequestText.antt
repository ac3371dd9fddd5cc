-- ===== src/Frame/Build/RequestText.antt =====
-- That a request carries its input.
use mathlib.Core.Path.{subst}
use star_bridge.Base.{
  ℕ, ◌+◌, ◌-◌, ◌*◌, ◌<◌, ◌≤◌, ◌≡◌, ◌≢◌, ◌⊎◌, inl, inr, refl, sym, ap, ◌∙◌, Bool, true, false, not,
  ◌&&◌, ◌||◌, [], ◌∷◌, ◌++◌, arith, Bytes, length, take, codes, str_eq, is_empty, ltb, ◌==◌, ==_iff,
  append_assoc, append-nil, Bool-cases, take_all,
}
use star_bridge.Escape.{json_escape}
use star_bridge.Frame.Build.{
  Buffer, fresh, put, put_escaped, escaped_byte, put_member, put_raw, Request, put_system,
  options_text, frame_build_request,
}
use star_bridge.Frame.Build.Sizes.{IsSound, length-put}
use star_bridge.Frame.Build.RequestSize.{bridge_request, length-head, frame_build_request-IsSound}

-- A text and what a string of JSON carries of it: quotes and backslashes behind a backslash, newlines as
-- "\n", no other control characters, and all else as it is.
pub data Carried : Bytes → Bytes → Type 0 where
  end : Carried [] []
  marked :
      {c : ℕ} {s t : Bytes}
      → (c ≡ b'"') ⊎ (c ≡ b'\\')
      → Carried s t
      → Carried (c ∷ s) (b'\\' ∷ c ∷ t)
  newline : {s t : Bytes} → Carried s t → Carried (10 ∷ s) (b'\\' ∷ b'n' ∷ t)
  dropped : {c : ℕ} {s t : Bytes} → c < 32 → c ≢ 10 → Carried s t → Carried (c ∷ s) t
  plain :
      {c : ℕ} {s t : Bytes} → 32 ≤ c → c ≢ b'"' → c ≢ b'\\' → Carried s t → Carried (c ∷ s) (c ∷ t)

escaped_byte-Carried : (c : ℕ) {s t : Bytes} → Carried s t → Carried (c ∷ s) (escaped_byte c ++ t)
unfolding escaped_byte
escaped_byte-Carried c {s} {t} v = elim (Bool-cases (c == b'"' || c == b'\\')) [
  | inl e ↦ rw e (marked (quote e) v)
  | inr e ↦ elim (Bool-cases (c == 10)) [
    | inl n ↦
        rw (e, n)
          (subst (λ d. Carried (d ∷ s) (b'\\' ∷ b'n' ∷ t)) (sym ((==_iff c 10).0 n)) (newline v))
    | inr n ↦ elim (Bool-cases (ltb c 32)) [
      | inl l ↦ rw (e, n, l) (dropped (ground arith) (λ x. ground arith) v)
      | inr l ↦ rw (e, n, l) (plain (ground arith) (λ x. ground arith) (λ x. ground arith) v)
    ]
  ]
]
  where
    quote : (c == b'"' || c == b'\\') ≡ true → (c ≡ b'"') ⊎ (c ≡ b'\\')
    quote e = elim (Bool-cases (c == b'"')) [
      | inl q ↦ inl ((==_iff c b'"').0 q)
      | inr q ↦ inr (ground arith)
    ]

length-escaped_byte : (c : ℕ) → length (escaped_byte c) ≤ 2
unfolding escaped_byte
length-escaped_byte c = ground arith

-- What the loop writes where there is room for two bytes each.
record Writes (b b' : Buffer) (s : Bytes) : Type 0 where
  shown : Bytes
  carried : Carried s shown
  text : b'.text ≡ b.text ++ shown
  short : b'.off ≤ b.off + 2 * length s
  same : b'.alloc ≡ b.alloc

put_escaped-Writes :
    (s : Bytes) (b : Buffer) → b.off + 2 * length s + 6 < b.alloc → Writes b (put_escaped s b) s
unfolding put_escaped
put_escaped-Writes [] b room = record {
  shown = [];
  carried = end;
  text = sym (append-nil b.text);
  short = omega arith;
  same = refl;
}
put_escaped-Writes (c ∷ s) b room =
    let b' : Buffer = record b {
      text = b.text ++ escaped_byte c;
      off = b.off + length (escaped_byte c);
    } in
    let free : ltb (b.off + 6) b.alloc ≡ true = ground arith in
    let later : Writes b' (put_escaped s b') s =
      put_escaped-Writes s b' (omega (arith, room, length-escaped_byte c)) in
    record {
      shown = escaped_byte c ++ later.shown;
      carried = escaped_byte-Carried c later.carried;
      text = rw free (later.text ∙ append_assoc b.text (escaped_byte c) later.shown);
      short = rw free (omega (arith, later.short, length-escaped_byte c));
      same = rw free later.same;
    }

-- A buffer whose text goes on after that of another.
Extends : Buffer → Buffer → Type 0
Extends b b' = (rest : Bytes) × (b'.text ≡ b.text ++ rest)

Extends-trans : (a b c : Buffer) → Extends a b → Extends b c → Extends a c
unfolding Extends
Extends-trans a b c (r, e) (r', e') = (r ++ r', e' ∙ ap (λ t. t ++ r') e ∙ append_assoc a.text r r')

put-Extends : (s : Bytes) (b : Buffer) → Extends b (put s b)
unfolding Extends put
put-Extends s b = (take (b.alloc - b.off - 1) s, refl)

put_member-Extends : (name value : Bytes) (b : Buffer) → Extends b (put_member name value b)
unfolding Extends put_member
put_member-Extends name [] b = ([], sym (append-nil b.text))
put_member-Extends name (c ∷ value) b =
    put-Extends (name ++ (json_escape 256 (c ∷ value) ++ codes "\"")) b

put_raw-Extends :
    (test : Bool) (name value : Bytes) (b : Buffer) → Extends b (put_raw test name value b)
unfolding Extends
put_raw-Extends true name value b = put-Extends (name ++ value) b
put_raw-Extends false name value b = ([], sym (append-nil b.text))

put-text : (s : Bytes) (b : Buffer) → b.off + length s < b.alloc → (put s b).text ≡ b.text ++ s
unfolding put
put-text s b room = ap (◌++◌ b.text) (take_all (b.alloc - b.off - 1) s (omega (arith, room)))

-- What a request starts with.
abbrev pub request_start : Bytes → Bytes
request_start id =
    codes "{\"type\":\"request\",\"id\":\"" ++ (json_escape 256 id ++ codes "\",\"input\":\"")

-- What follows the input only adds to the text.
module _ (r : Request) (b₁ : Buffer) where
  abbrev b₂ : Buffer
  b₂ = put_member (codes ",\"reasoning_effort\":\"") r.reasoning_effort b₁

  abbrev b₃ : Buffer
  b₃ = put_member (codes ",\"previous_response_id\":\"") r.previous_response_id b₂

  abbrev b₄ : Buffer
  b₄ = put (options_text r) b₃

  abbrev b₆ : Buffer
  b₆ =
      put
        (codes
          ",\"tool_permission_mode\":\"auto_allow_safe\",\"do_not_prompt_for_read_only_tools\":true")
        b₄

  abbrev b₇ : Buffer
  b₇ =
      put
        (codes
          ",\"accepted_events\":[\"compaction.started\",\"compaction.summary\",\"compaction.completed\"]")
        b₆

  abbrev has_history : Bool
  has_history = not (is_empty r.tool_history_json) && not (str_eq r.tool_history_json (codes "[]"))

  abbrev b₈ : Buffer
  b₈ = put_raw has_history (codes ",\"tool_history\":") r.tool_history_json b₇

  rest-Extends : Extends b₁ (put (codes "}") b₈)
  rest-Extends =
      Extends-trans b₁ b₂ (put (codes "}") b₈)
        (put_member-Extends (codes ",\"reasoning_effort\":\"") r.reasoning_effort b₁)
        (Extends-trans b₂ b₃ (put (codes "}") b₈)
          (put_member-Extends (codes ",\"previous_response_id\":\"") r.previous_response_id b₂)
          (Extends-trans b₃ b₄ (put (codes "}") b₈) (put-Extends (options_text r) b₃) (
            Extends-trans b₄ b₆ (put (codes "}") b₈) (put-Extends _ b₄) (
              Extends-trans b₆ b₇ (put (codes "}") b₈) (put-Extends _ b₆) (
                Extends-trans b₇ b₈ (put (codes "}") b₈)
                  (put_raw-Extends has_history _ r.tool_history_json b₇)
                  (put-Extends (codes "}") b₈))))))

-- Building a request without system instructions and tools never writes outside the buffer that is
-- allocated for it, and its offset stays the length of the text, whatever the input, the
-- history and the other arguments. The text is the start with the request's id, escaped and cut to
-- 255 bytes, then all of the input with quotes, backslashes and newlines escaped and other control
-- characters left out, then a quote and the rest.
pub frame_build_request-carries :
    (r : Request)
    → IsSound (frame_build_request (bridge_request r))
      × ((shown : Bytes) × ((rest : Bytes) × (Carried r.input shown
              × ((frame_build_request (bridge_request r)).text
                  ≡ request_start r.request_id ++ (shown ++ (b'"' ∷ rest))))))
unfolding frame_build_request put_system bridge_request Extends
frame_build_request-carries r =
    let alloc : ℕ = length r.input * 2 + length r.tool_history_json + 8192 in
    let start : Buffer = fresh alloc in
    let head : Bytes = request_start r.request_id in
    let short : length head ≤ 300 = length-head r.request_id in
    let opened : Buffer = put head start in
    let (off, same) = length-put head start in
    let begun : opened.text ≡ head = put-text head start (omega (arith, short)) in
    let w : Writes opened (put_escaped r.input opened) r.input =
      put_escaped-Writes r.input opened (omega (arith, short, off, same)) in
    let b₀ : Buffer = put_escaped r.input opened in
    let closed : (put (codes "\"") b₀).text ≡ b₀.text ++ codes "\"" =
      put-text (codes "\"") b₀ (omega (arith, w.short, w.same, short, off, same)) in
    let (rest, e) = rest-Extends r (put (codes "\"") b₀) in
    (
      frame_build_request-IsSound r,
      (
        w.shown,
        (
          rest,
          (
            w.carried,
            e
                ∙ ap (λ t. t ++ rest)
                    (closed ∙ ap (λ t. t ++ codes "\"") (w.text ∙ ap (λ t. t ++ w.shown) begun))
                ∙ append_assoc (head ++ w.shown) (codes "\"") rest
                ∙ append_assoc head w.shown (b'"' ∷ rest),
          ),
        ),
      ),
    )
