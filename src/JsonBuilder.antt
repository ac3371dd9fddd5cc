-- ===== src/JsonBuilder.antt =====
-- src/json_builder.c: a writer of JSON into a buffer, with the commas between members.
pub mod Bounded
pub mod Balanced
use star_bridge.Base.{
  ℕ, zero, suc, ◌+◌, ◌-◌, min, Bool, true, false, not, ◌||◌, List, [], ◌∷◌, ◌++◌, ltb, leb, ◌==◌,
  if◌then◌else◌, Bytes, length, get_or, set, codes,
}
use star_bridge.Sessions.{ℤ, pos, negsuc}
use star_bridge.Frame.Build.{decimal}

-- `JsonBuilder`: `text` is what stands in the buffer before its terminator, `depth` may be negative.
-- `stray` says that a write went outside the array of flags: from then on the program may do anything,
-- and the other fields say nothing about it.
pub record JsonBuilder : Type 0 where
  pub max : ℕ
  pub text : Bytes
  pub depth : ℤ
  pub failed : Bool
  pub first : List Bool
  pub stray : Bool

-- `jsonb_init`
unfoldable pub jsonb_init : ℕ → JsonBuilder
jsonb_init max = record {
  max = max;
  text = [];
  depth = pos 0;
  failed = false;
  first =
      true ∷ true ∷ true ∷ true ∷ true ∷ true ∷ true ∷ true ∷ true ∷ true ∷ true ∷ true ∷ true
      ∷ true ∷ true ∷ true ∷ [];
  stray = false;
}

-- `jsonb_put`
unfoldable pub jsonb_put : Bytes → JsonBuilder → JsonBuilder
jsonb_put s b =
    if b.failed
    then b
    else if leb b.max (length b.text + length s)
    then record b { failed = true }
    else record b { text = b.text ++ s }

-- The index that `jsonb_comma` makes of the depth.
unfoldable pub comma_index : ℤ → ℕ
comma_index (pos d) = min d 15
comma_index (negsuc d) = 0

-- `jsonb_comma`
unfoldable pub jsonb_comma : JsonBuilder → JsonBuilder
jsonb_comma b =
    let d = comma_index b.depth in
    let b' = if get_or b.first d true then b else jsonb_put (codes ",") b in
    record b' { first = set b'.first d false }

-- `b->depth++` and `b->depth--`
unfoldable pub deeper : ℤ → ℤ
deeper (pos d) = pos (d + 1)
deeper (negsuc zero) = pos 0
deeper (negsuc (suc d)) = negsuc d

unfoldable pub shallower : ℤ → ℤ
shallower (pos zero) = negsuc 0
shallower (pos (suc d)) = pos d
shallower (negsuc d) = negsuc (d + 1)

-- `if (b->depth < 16) b->first[b->depth] = true`, inside the array; below 0 it is a stray write.
unfoldable pub mark_first : ℤ → List Bool → List Bool
mark_first (pos d) first = set first d true
mark_first (negsuc d) first = first

abbrev pub is_negative : ℤ → Bool
is_negative (pos d) = false
is_negative (negsuc d) = true

-- `jsonb_object_begin` and `jsonb_array_begin`, by the bracket.
unfoldable pub jsonb_begin : Bytes → JsonBuilder → JsonBuilder
jsonb_begin bracket b =
    let b' = jsonb_put bracket b in
    record b' {
      first = mark_first b'.depth b'.first;
      stray = b'.stray || is_negative b'.depth;
      depth = deeper b'.depth;
    }

-- `jsonb_object_end` and `jsonb_array_end`
unfoldable pub jsonb_end : Bytes → JsonBuilder → JsonBuilder
jsonb_end bracket b = jsonb_put bracket (record b { depth = shallower b.depth })

-- `jsonb_quoted`
unfoldable pub jsonb_quoted : Bytes → JsonBuilder → JsonBuilder
jsonb_quoted s b = jsonb_put (codes "\"") (jsonb_put s (jsonb_put (codes "\"") b))

-- What `jsonb_string_escape` writes for a byte.
unfoldable pub escape_of : ℕ → Bytes
escape_of c =
    if c == b'"' || c == b'\\'
    then b'\\' ∷ c ∷ []
    else if c == 10
    then b'\\' ∷ b'n' ∷ []
    else if c == 13
    then b'\\' ∷ b'r' ∷ []
    else if c == 9
    then b'\\' ∷ b't' ∷ []
    else c ∷ []

-- Its loop.
unfoldable pub put_value : Bytes → JsonBuilder → JsonBuilder
put_value [] b = b
put_value (c ∷ s) b = put_value s (jsonb_put (escape_of c) b)

-- `%ld`; 19 digits are enough for a long of 64 bits.
unfoldable pub show_long : ℤ → Bytes
show_long (pos n) = decimal 19 n
show_long (negsuc n) = b'-' ∷ decimal 19 (n + 1)

abbrev pub show_truth : Bool → Bytes
show_truth true = codes "true"
show_truth false = codes "false"

-- The calls of json_builder.h.
pub data BuilderCall : Type 0 where
  object_begin object_end array_begin array_end : BuilderCall
  string string_escape raw : Bytes → Bytes → BuilderCall
  number : Bytes → ℤ → BuilderCall
  bool : Bytes → Bool → BuilderCall
  raw_value element_string element_raw : Bytes → BuilderCall
  element_number : ℤ → BuilderCall
  element_bool : Bool → BuilderCall

-- The comma, the key and the colon of a member.
unfoldable pub jsonb_key : Bytes → JsonBuilder → JsonBuilder
jsonb_key key b = jsonb_put (codes ":") (jsonb_quoted key (jsonb_comma b))

-- The functions `jsonb_*`, by their calls.
unfoldable pub jsonb_call : BuilderCall → JsonBuilder → JsonBuilder
jsonb_call object_begin b = jsonb_begin (codes "{") b
jsonb_call object_end b = jsonb_end (codes "}") b
jsonb_call array_begin b = jsonb_begin (codes "[") b
jsonb_call array_end b = jsonb_end (codes "]") b
jsonb_call (string key value) b = jsonb_quoted value (jsonb_key key b)
jsonb_call (string_escape key value) b =
    jsonb_put (codes "\"")
      (put_value value (jsonb_put (codes ":\"") (jsonb_quoted key (jsonb_comma b))))
jsonb_call (raw key value) b = jsonb_put value (jsonb_key key b)
jsonb_call (number key value) b = jsonb_put (show_long value) (jsonb_key key b)
jsonb_call (bool key value) b = jsonb_put (show_truth value) (jsonb_key key b)
jsonb_call (raw_value value) b = jsonb_put value b
jsonb_call (element_string value) b = jsonb_quoted value (jsonb_comma b)
jsonb_call (element_raw value) b = jsonb_put value (jsonb_comma b)
jsonb_call (element_number value) b = jsonb_put (show_long value) (jsonb_comma b)
jsonb_call (element_bool value) b = jsonb_put (show_truth value) (jsonb_comma b)

-- Calls one after the other.
unfoldable pub jsonb_calls : List BuilderCall → JsonBuilder → JsonBuilder
jsonb_calls [] b = b
jsonb_calls (call ∷ calls) b = jsonb_calls calls (jsonb_call call b)
