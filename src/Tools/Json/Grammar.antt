-- ===== src/Tools/Json/Grammar.antt =====
-- The one-field objects as a grammar, and the parser against it.
use mathlib.Core.Path.{subst}
use star_bridge.Base.{
  ℕ, ◌<◌, ◌≡◌, refl, ap, sym, ◌∙◌, inl, inr, Bool, true, false, not, ◌&&◌, Option, none, some, [],
  ◌∷◌, ◌++◌, Bytes, length, str_eq, str_eq_iff, is_empty, arith, append-nil, Option-cases,
}
use star_bridge.Tools.Json.{
  skip_ws, expect, guard, read_key, read_value, read_end, object_field, ◌>>=◌,
}
use star_bridge.Tools.Json.Spelling.{Spells}
use star_bridge.Tools.Json.Lexemes.{
  IsSpaces, skip_ws-Skipped, expect-eq, Quoted, decode_string-Quoted,
}

>>=-eq-some :
    {A B : Type 0} (m : Option A) (f : A → Option B) {b : B}
    → (m >>= f) ≡ some b
    → (a : A) × (m ≡ some a) × (f a ≡ some b)
>>=-eq-some (some a) f h = (a, refl, h)
>>=-eq-some none f h = absurd (cc)

guard-true : (b : Bool) (u : Unit {0}) → guard b ≡ some u → b ≡ true
guard-true true u h = refl
guard-true false u h = absurd (cc)

-- An object whose one field has this key and this value, with any white space between its parts.
pub record IsObject (json key value : Bytes) : Type 0 where
  pub before : Bytes
  pub after_brace : Bytes
  pub after_key : Bytes
  pub after_colon : Bytes
  pub after_value : Bytes
  pub after_object : Bytes
  pub raw_key : Bytes
  pub raw_value : Bytes
  pub spaces :
      IsSpaces before
      × IsSpaces after_brace
      × IsSpaces after_key
      × IsSpaces after_colon
      × IsSpaces after_value
      × IsSpaces after_object
  pub key_spells : Spells raw_key key
  pub value_spells : Spells raw_value value
  pub layout :
      json
      ≡ before
        ++ (b'{'
            ∷ (after_brace
                ++ (b'"'
                    ∷ (raw_key
                        ++ (b'"'
                            ∷ (after_key
                                ++ (b':'
                                    ∷ (after_colon
                                        ++ (b'"'
                                            ∷ (raw_value
                                                ++ (b'"'
                                                    ∷ (after_value
                                                        ++ (b'}' ∷ after_object)))))))))))))

is_empty-eq : (s : Bytes) → is_empty s ≡ true → s ≡ []
is_empty-eq [] h = refl
is_empty-eq (c ∷ s) h = absurd (cc)

record KeyRead (json key rest : Bytes) : Type 0 where
  start : Bytes
  quoted : Quoted 64 (skip_ws start) key rest
  brace : skip_ws json ≡ b'{' ∷ start

read_key-KeyRead :
    (json key rest : Bytes) → read_key json ≡ some (key, rest) → KeyRead json key rest
unfolding read_key
read_key-KeyRead json key rest h =
    let (p, found, decoded) = >>=-eq-some (expect b'{' (skip_ws json)) _ h in
    record {
      start = p;
      quoted = decode_string-Quoted 64 (skip_ws p) key rest decoded;
      brace = expect-eq b'{' (skip_ws json) p found;
    }

record ValueRead (max_len : ℕ) (s value rest : Bytes) : Type 0 where
  start : Bytes
  quoted : Quoted max_len (skip_ws start) value rest
  colon : skip_ws s ≡ b':' ∷ start

read_value-ValueRead :
    (max_len : ℕ) (s value rest : Bytes)
    → read_value max_len s ≡ some (value, rest)
    → ValueRead max_len s value rest
unfolding read_value
read_value-ValueRead max_len s value rest h =
    let (p, found, decoded) = >>=-eq-some (expect b':' (skip_ws s)) _ h in
    record {
      start = p;
      quoted = decode_string-Quoted max_len (skip_ws p) value rest decoded;
      colon = expect-eq b':' (skip_ws s) p found;
    }

read_end-eq :
    (s : Bytes) → read_end s ≡ true → (p : Bytes) × (skip_ws s ≡ b'}' ∷ p) × (skip_ws p ≡ [])
unfolding read_end
read_end-eq s h = elim (Option-cases (expect b'}' (skip_ws s))) [
  | inl missing ↦ absurd (cc (rw (missing, read_end) at h))
  | inr (p, found) ↦
      (p, expect-eq b'}' (skip_ws s) p found, is_empty-eq (skip_ws p) (rw (found, read_end) at h))
]

IsObject-of :
    (max_len : ℕ) (json key value p q : Bytes)
    → KeyRead json key p
    → ValueRead max_len p value q
    → (end : Bytes) × (skip_ws q ≡ b'}' ∷ end) × (skip_ws end ≡ [])
    → IsObject json key value
IsObject-of max_len json key value p q k v (end, closing, ended) =
    let s0 = skip_ws-Skipped json in
    let s1 = skip_ws-Skipped k.start in
    let s2 = skip_ws-Skipped p in
    let s3 = skip_ws-Skipped v.start in
    let s4 = skip_ws-Skipped q in
    let s5 = skip_ws-Skipped end in
    record {
      before = s0.spaces;
      after_brace = s1.spaces;
      after_key = s2.spaces;
      after_colon = s3.spaces;
      after_value = s4.spaces;
      after_object = s5.spaces;
      raw_key = k.quoted.raw;
      raw_value = v.quoted.raw;
      spaces = (
        s0.all_spaces, s1.all_spaces, s2.all_spaces, s3.all_spaces, s4.all_spaces, s5.all_spaces,
      );
      key_spells = k.quoted.spells;
      value_spells = v.quoted.spells;
      layout = cc (
        s0.splits,
        s1.splits,
        s2.splits,
        s3.splits,
        s4.splits,
        s5.splits,
        k.brace,
        k.quoted.splits,
        v.colon,
        v.quoted.splits,
        append-nil s5.spaces,
      );
    }

-- Both halves of the last test, and what they say.
end_and_value :
    (q value : Bytes) (u : Unit {0})
    → guard (read_end q && not (is_empty value)) ≡ some u
    → (read_end q ≡ true) × (0 < length value)
end_and_value q [] u h = ground arith
end_and_value q (c ∷ value) u h = ground arith

grammar_value :
    (max_len : ℕ) (json field value p : Bytes)
    → KeyRead json field p
    → (read : Bytes × Bytes) × (read_value max_len p ≡ some read)
      × ((guard (read_end read.1 && not (is_empty read.0)) >>= λ _. some read.0) ≡ some value)
    → IsObject json field value × (0 < length value) × (length value < max_len)
grammar_value max_len json field value p k ((v, q), found, h) =
    let (u, both, same) = >>=-eq-some (guard (read_end q && not (is_empty v))) _ h in
    let whole : v ≡ value = cc in
    let (ended, pos) =
      end_and_value q value u
        (ap (λ t. guard (read_end q && not (is_empty t))) (sym whole) ∙ both) in
    let read = read_value-ValueRead max_len p value q (found ∙ ap (λ t. some (t, q)) whole) in
    (
      IsObject-of max_len json field value p q k read (read_end-eq q ended),
      pos,
      ground (arith, read.quoted.room),
    )

grammar_key :
    (max_len : ℕ) (json field value : Bytes)
    → (read : Bytes × Bytes) × (read_key json ≡ some read)
      × ((guard (str_eq read.0 field) >>= λ _. read_value max_len read.1 >>= λ (w : Bytes × Bytes).
            guard (read_end w.1 && not (is_empty w.0)) >>= λ _. some w.0)
          ≡ some value)
    → IsObject json field value × (0 < length value) × (length value < max_len)
grammar_key max_len json field value ((key, p), found, h) =
    let (u, same, h') = >>=-eq-some (guard (str_eq key field)) _ h in
    let k = read_key-KeyRead json key p found in
    let named = (str_eq_iff key field).0 (guard-true (str_eq key field) u same) in
    grammar_value max_len json field value p (subst (λ t. KeyRead json t p) named k)
      (>>=-eq-some (read_value max_len p) _ h')

-- If the one-field parser returns a value, then the text is an object with exactly that field and
-- that value, and the value is not empty and fits the buffer with its terminator.
pub object_field-IsObject :
    (max_len : ℕ) (json field value : Bytes)
    → object_field max_len json field ≡ some value
    → IsObject json field value × (0 < length value) × (length value < max_len)
unfolding object_field
object_field-IsObject max_len json field value h =
    let (u, named, h') = >>=-eq-some (guard (not (is_empty field))) _ h in
    grammar_key max_len json field value (>>=-eq-some (read_key json) _ h')
