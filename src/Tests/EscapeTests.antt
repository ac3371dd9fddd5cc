-- ===== src/Tests/EscapeTests.antt =====
-- A text with a quote and a newline.
use star_bridge.Base.{◌<◌, ◌≡◌, inl, inr, some, ◌∷◌, ◌++◌, All, arith, length, Bytes, codes}
use star_bridge.Tools.Json.{decode_string}
use star_bridge.Escape.{json_escape}
use star_bridge.Escape.Whole.{IsSimple, decode_string-json_escape, length-json_escape}

abbrev text : Bytes
text = codes "a\"\n"

text-IsSimple : All IsSimple text
unfolding IsSimple
text-IsSimple = (
  inl (omega arith),
  (inl (omega arith), (inr (omega arith, omega arith, λ e. omega (arith, e)), tt)),
)

decode_string-json_escape_example :
    decode_string 8 (b'"' ∷ (json_escape 16 text ++ (b'"' ∷ codes "}"))) ≡ some (text, codes "}")
decode_string-json_escape_example =
    decode_string-json_escape 8 16 text (codes "}") text-IsSimple (omega arith) (omega arith)

length-json_escape_example : length (json_escape 10 text) < 10
length-json_escape_example = length-json_escape 10 text (omega arith)
