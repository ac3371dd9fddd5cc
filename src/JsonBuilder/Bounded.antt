-- ===== src/JsonBuilder/Bounded.antt =====
-- The builder stays in its buffer, and what it writes does not depend on the size of the buffer.
use mathlib.Core.Path.{subst}
use star_bridge.Base.{
  ℕ, ◌+◌, ◌<◌, ◌≤◌, ◌≡◌, refl, sym, ap, ap₂, ◌∙◌, Bool, true, false, ◌||◌, List, [], ◌∷◌, ◌++◌, leb,
  if◌then◌else◌, Bytes, length, length-append, get_or, set, codes, arith,
}
use star_bridge.JsonBuilder.{
  JsonBuilder, jsonb_init, jsonb_put, comma_index, jsonb_comma, deeper, shallower, mark_first,
  is_negative, jsonb_begin, jsonb_end, jsonb_quoted, escape_of, put_value, show_long, show_truth,
  BuilderCall, object_begin, object_end, array_begin, array_end, string, string_escape, raw, number,
  bool, raw_value, element_string, element_raw, element_number, element_bool, jsonb_key, jsonb_call,
  jsonb_calls,
}

-- The same builder on a buffer of another size.
abbrev pub widen : ℕ → JsonBuilder → JsonBuilder
widen size b = record b { max = size }

-- What every function of the builder does: it keeps the size and stays inside, and if it does not
-- fail, it does the same in a larger buffer.
record Widens (size : ℕ) (f : JsonBuilder → JsonBuilder) : Type 0 where
  same : (b : JsonBuilder) → (f b).max ≡ b.max
  fits : (b : JsonBuilder) → length b.text < b.max → length (f b).text < b.max
  works :
      (b : JsonBuilder)
      → b.max ≤ size
      → (f b).failed ≡ false
      → (b.failed ≡ false) × (f (widen size b) ≡ widen size (f b))

-- `jsonb_put` on the results of its tests.
put_if : Bool → Bool → Bytes → JsonBuilder → JsonBuilder
put_if failed over s b =
    if failed
    then b
    else if over
    then record b { failed = true }
    else record b { text = b.text ++ s }

comma_if : Bool → JsonBuilder → JsonBuilder
comma_if present b =
    let b' = if present then b else jsonb_put (codes ",") b in
    record b' { first = set b'.first (comma_index b.depth) false }

module _ {size : ℕ} where
  Widens-then :
      {f g : JsonBuilder → JsonBuilder} → Widens size f → Widens size g → Widens size (λ b. g (f b))
  Widens-then {f} {g} v w = record {
    same = λ b. w.same (f b) ∙ v.same b;
    fits = λ b h.
        let first : length (f b).text < b.max = v.fits b h in
        let second : length (g (f b)).text < (f b).max = w.fits (f b) (omega (arith, v.same b)) in
        omega (arith, v.same b);
    works = λ b le ok.
        let second : ((f b).failed ≡ false) × (g (widen size (f b)) ≡ widen size (g (f b))) =
          w.works (f b) (omega (arith, v.same b)) ok in
        let first : (b.failed ≡ false) × (f (widen size b) ≡ widen size (f b)) =
          v.works b le second.0 in
        (first.0, ap g first.1 ∙ second.1);
  }

  jsonb_put-Widens : (s : Bytes) → Widens size (jsonb_put s)
  unfolding jsonb_put put_if
  jsonb_put-Widens s = record { same = same; fits = fits; works = works }
    where
      same : (b : JsonBuilder) → (jsonb_put s b).max ≡ b.max
      same b = go b.failed (leb b.max (length b.text + length s))
        where
          go : (f o : Bool) → (put_if f o s b).max ≡ b.max
          go true o = refl
          go false true = refl
          go false false = refl

      fits : (b : JsonBuilder) → length b.text < b.max → length (jsonb_put s b).text < b.max
      fits b h = go b.failed (leb b.max (length b.text + length s)) refl
        where
          go :
              (f o : Bool)
              → leb b.max (length b.text + length s) ≡ o
              → length (put_if f o s b).text < b.max
          go true o e = h
          go false true e = h
          go false false e = ground (arith, length-append b.text s)

      works :
          (b : JsonBuilder)
          → b.max ≤ size
          → (jsonb_put s b).failed ≡ false
          → (b.failed ≡ false) × (jsonb_put s (widen size b) ≡ widen size (jsonb_put s b))
      works b le = go b.failed refl (leb b.max (length b.text + length s)) refl
        where
          go :
              (f : Bool)
              → b.failed ≡ f
              → (o : Bool) → leb b.max (length b.text + length s) ≡ o
              → (put_if f o s b).failed ≡ false
              → (b.failed ≡ false) × (jsonb_put s (widen size b) ≡ widen size (put_if f o s b))
          go true e o e' ok = absurd (ground arith)
          go false e true e' ok = absurd (ground arith)
          go false e false e' ok =
              let inside : leb size (length b.text + length s) ≡ false = ground arith in
              (e, ap₂ (λ f o. put_if f o s (widen size b)) e inside)

  -- A step that does not touch the text, the flag or the size.
  quiet :
      (f : JsonBuilder → JsonBuilder)
      → ((b : JsonBuilder) → f (widen size b) ≡ widen size (f b))
      → ((b : JsonBuilder) → (f b).max ≡ b.max)
      → ((b : JsonBuilder) → (f b).text ≡ b.text)
      → ((b : JsonBuilder) → (f b).failed ≡ b.failed)
      → Widens size f
  quiet f commutes same texts flags = record {
    same = same;
    fits = λ b h. subst (λ t. length t < b.max) (sym (texts b)) h;
    works = λ b le ok. (sym (flags b) ∙ ok, commutes b);
  }

  jsonb_comma-Widens : Widens size jsonb_comma
  unfolding jsonb_comma comma_if
  jsonb_comma-Widens = record {
    same = λ b. same b (get_or b.first (comma_index b.depth) true);
    fits = λ b h. fits b h (get_or b.first (comma_index b.depth) true);
    works = λ b le ok. works b le (get_or b.first (comma_index b.depth) true) ok;
  }
    where
      comma : Widens size (jsonb_put (codes ","))
      comma = jsonb_put-Widens (codes ",")

      same : (b : JsonBuilder) (present : Bool) → (comma_if present b).max ≡ b.max
      same b true = refl
      same b false = comma.same b

      fits :
          (b : JsonBuilder)
          → length b.text < b.max
          → (present : Bool) → length (comma_if present b).text < b.max
      fits b h true = h
      fits b h false = comma.fits b h

      works :
          (b : JsonBuilder)
          → b.max ≤ size
          → (present : Bool) → (comma_if present b).failed ≡ false
          → (b.failed ≡ false) × (comma_if present (widen size b) ≡ widen size (comma_if present b))
      works b le true ok = (ok, refl)
      works b le false ok =
          let (unfailed, e) = comma.works b le ok in
          (
            unfailed,
            ap
                (λ (b' : JsonBuilder). record b' {
                  first = set b'.first (comma_index b.depth) false;
                })
                e,
          )

  jsonb_begin-Widens : (bracket : Bytes) → Widens size (jsonb_begin bracket)
  unfolding jsonb_begin
  jsonb_begin-Widens bracket = Widens-then (jsonb_put-Widens bracket) (
      quiet
        (λ b. record b {
          first = mark_first b.depth b.first;
          stray = b.stray || is_negative b.depth;
          depth = deeper b.depth;
        })
        (λ b. refl) (λ b. refl) (λ b. refl) (λ b. refl))

  jsonb_end-Widens : (bracket : Bytes) → Widens size (jsonb_end bracket)
  unfolding jsonb_end
  jsonb_end-Widens bracket =
      Widens-then
        (quiet (λ b. record b { depth = shallower b.depth }) (λ b. refl) (λ b. refl) (λ b. refl)
          (λ b. refl))
        (jsonb_put-Widens bracket)

  jsonb_quoted-Widens : (s : Bytes) → Widens size (jsonb_quoted s)
  unfolding jsonb_quoted
  jsonb_quoted-Widens s =
      Widens-then (Widens-then (jsonb_put-Widens (codes "\"")) (jsonb_put-Widens s))
        (jsonb_put-Widens (codes "\""))

  put_value-Widens : (s : Bytes) → Widens size (put_value s)
  unfolding put_value
  put_value-Widens [] = quiet (λ b. b) (λ b. refl) (λ b. refl) (λ b. refl) (λ b. refl)
  put_value-Widens (c ∷ s) = Widens-then (jsonb_put-Widens (escape_of c)) (put_value-Widens s)

  jsonb_key-Widens : (key : Bytes) → Widens size (jsonb_key key)
  unfolding jsonb_key
  jsonb_key-Widens key =
      Widens-then (Widens-then jsonb_comma-Widens (jsonb_quoted-Widens key))
        (jsonb_put-Widens (codes ":"))

  jsonb_call-Widens : (call : BuilderCall) → Widens size (jsonb_call call)
  unfolding jsonb_call
  jsonb_call-Widens object_begin = jsonb_begin-Widens (codes "{")
  jsonb_call-Widens object_end = jsonb_end-Widens (codes "}")
  jsonb_call-Widens array_begin = jsonb_begin-Widens (codes "[")
  jsonb_call-Widens array_end = jsonb_end-Widens (codes "]")
  jsonb_call-Widens (string key value) =
      Widens-then (jsonb_key-Widens key) (jsonb_quoted-Widens value)
  jsonb_call-Widens (string_escape key value) =
      Widens-then
        (Widens-then
          (Widens-then (Widens-then jsonb_comma-Widens (jsonb_quoted-Widens key))
            (jsonb_put-Widens (codes ":\"")))
          (put_value-Widens value))
        (jsonb_put-Widens (codes "\""))
  jsonb_call-Widens (raw key value) = Widens-then (jsonb_key-Widens key) (jsonb_put-Widens value)
  jsonb_call-Widens (number key value) =
      Widens-then (jsonb_key-Widens key) (jsonb_put-Widens (show_long value))
  jsonb_call-Widens (bool key value) =
      Widens-then (jsonb_key-Widens key) (jsonb_put-Widens (show_truth value))
  jsonb_call-Widens (raw_value value) = jsonb_put-Widens value
  jsonb_call-Widens (element_string value) =
      Widens-then jsonb_comma-Widens (jsonb_quoted-Widens value)
  jsonb_call-Widens (element_raw value) = Widens-then jsonb_comma-Widens (jsonb_put-Widens value)
  jsonb_call-Widens (element_number value) =
      Widens-then jsonb_comma-Widens (jsonb_put-Widens (show_long value))
  jsonb_call-Widens (element_bool value) =
      Widens-then jsonb_comma-Widens (jsonb_put-Widens (show_truth value))

  jsonb_calls-Widens : (calls : List BuilderCall) → Widens size (jsonb_calls calls)
  unfolding jsonb_calls
  jsonb_calls-Widens [] = quiet (λ b. b) (λ b. refl) (λ b. refl) (λ b. refl) (λ b. refl)
  jsonb_calls-Widens (call ∷ calls) =
      Widens-then (jsonb_call-Widens call) (jsonb_calls-Widens calls)

-- Whatever is called on a new builder, its text and the terminator fit in the buffer.
pub length-jsonb_calls :
    (calls : List BuilderCall) (max : ℕ)
    → 0 < max
    → length (jsonb_calls calls (jsonb_init max)).text < max
unfolding jsonb_init
length-jsonb_calls calls max positive =
    let v : Widens max (jsonb_calls calls) = jsonb_calls-Widens calls in
    v.fits (jsonb_init max) positive

-- Calls that do not fail leave the same builder on any larger buffer.
pub larger_buffer :
    (calls : List BuilderCall) (max size : ℕ)
    → max ≤ size
    → (jsonb_calls calls (jsonb_init max)).failed ≡ false
    → jsonb_calls calls (jsonb_init size) ≡ widen size (jsonb_calls calls (jsonb_init max))
unfolding jsonb_init
larger_buffer calls max size le ok =
    let v : Widens size (jsonb_calls calls) = jsonb_calls-Widens calls in
    (v.works (jsonb_init max) le ok).1
