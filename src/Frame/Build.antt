-- ===== src/Frame/Build.antt =====
-- The builders of JSON envelopes of src/native_frame.c.
pub mod Sizes
pub mod RequestSize
pub mod RequestText
use star_bridge.Base.{
  ℕ, zero, suc, ◌+◌, ◌-◌, ◌*◌, ◌/◌, ◌%◌, Bool, true, false, not, ◌&&◌, ◌||◌, Option, none, some,
  List, [], ◌∷◌, ◌++◌, ltb, leb, ◌==◌, if◌then◌else◌, Bytes, length, take, codes, str_eq, is_empty,
}
use star_bridge.Sessions.{ℤ, pos, negsuc}
use star_bridge.Escape.{json_escape}

-- A buffer that is filled by `off += snprintf(buf + off, alloc - off, ...)`. `text` is what stands in
-- it before its terminator and `off` what the lengths add up to. `overrun` says that a write went
-- outside, which is undefined in C; nothing that follows is then of use.
pub record Buffer : Type 0 where
  pub alloc : ℕ
  pub text : Bytes
  pub off : ℕ
  pub overrun : Bool

abbrev pub fresh : ℕ → Buffer
fresh alloc = record { alloc = alloc; text = []; off = 0; overrun = false }

-- `off += (size_t)snprintf(buf + off, alloc - off, ...)` with the text that is printed. With `off`
-- above `alloc` the size wraps around.
unfoldable pub put : Bytes → Buffer → Buffer
put s b = record b {
  text = b.text ++ take (b.alloc - b.off - 1) s;
  off = b.off + length s;
  overrun = b.overrun || ltb b.alloc b.off;
}

-- What the loops write for a byte.
unfoldable pub escaped_byte : ℕ → Bytes
escaped_byte c =
    if c == b'"' || c == b'\\'
    then b'\\' ∷ c ∷ []
    else if c == b'\n'
    then b'\\' ∷ b'n' ∷ []
    else if ltb c 32
    then []
    else c ∷ []

-- The loops that escape a text into the buffer, `*p && off + 6 < alloc`.
unfoldable pub put_escaped : Bytes → Buffer → Buffer
put_escaped [] b = b
put_escaped (c ∷ s) b =
    let b' : Buffer = record b {
      text = b.text ++ escaped_byte c;
      off = b.off + length (escaped_byte c);
    } in
    let rest = put_escaped s b' in if ltb (b.off + 6) b.alloc then rest else b

-- What a tool result starts with.
unfoldable pub result_head : Bytes → Bytes → Bytes
result_head request_id tool_name =
    codes "{\"type\":\"tool_result\",\"id\":\""
    ++ (json_escape 256 request_id
        ++ (codes "\",\"tool\":{\"name\":\""
            ++ (json_escape 256 tool_name ++ codes "\",\"result\":")))

-- The result, or its replacement if it is NULL or empty.
abbrev pub result_body : Bytes → Bytes
result_body result = if is_empty result then codes "\"{}\"" else result

-- `frame_build_tool_result`
unfoldable pub frame_build_tool_result : Bytes → Bytes → Bytes → Buffer
frame_build_tool_result request_id tool_name result =
    put (codes "}}")
      (put (result_body result) (put (result_head request_id tool_name) (fresh 4096)))

-- `frame_build_tool_error`
unfoldable pub frame_build_tool_error : Bytes → Bytes → Bytes → Buffer
frame_build_tool_error request_id tool_name message =
    let head = result_head request_id tool_name ++ codes "{\"status\":\"error\",\"message\":\"" in
    put (codes "\"}}}") (put_escaped message (put head (fresh 4096)))

-- Decimal digits; ten are enough for an int.
unfoldable pub decimal : ℕ → ℕ → Bytes
decimal zero n = []
decimal (suc digits) n =
    let rest = decimal digits (n / 10) in
    if ltb n 10 then (b'0' + n) ∷ [] else rest ++ ((b'0' + n % 10) ∷ [])

-- `%d`
unfoldable pub show_int : ℤ → Bytes
show_int (pos n) = decimal 10 n
show_int (negsuc n) = b'-' ∷ decimal 10 (n + 1)

abbrev pub show_bool : Bool → Bytes
show_bool true = codes "true"
show_bool false = codes "false"

-- A member whose value is escaped by `json_escape` into 256 bytes, if it is given.
unfoldable pub put_member : Bytes → Bytes → Buffer → Buffer
put_member name value b =
    if is_empty value then b else put (name ++ (json_escape 256 value ++ codes "\"")) b

-- A member whose value is JSON already, if the test holds.
abbrev pub put_raw : Bool → Bytes → Bytes → Buffer → Buffer
put_raw true name value b = put (name ++ value) b
put_raw false name value b = b

-- The arguments of `frame_build_request`; a NULL text is empty.
pub record Request : Type 0 where
  pub request_id : Bytes
  pub input : Bytes
  pub system_instructions : Bytes
  pub tools_json : Bytes
  pub reasoning_effort : Bytes
  pub previous_response_id : Bytes
  pub auto_load_resume_session : Bool
  pub context_tokens : ℤ
  pub reset_session : Bool
  pub tool_history_json : Bytes

-- The system instructions, and the quote that ends the input or them.
unfoldable pub put_system : Bytes → Buffer → Buffer
put_system [] b = put (codes "\"") b
put_system (c ∷ s) b = put (codes "\"") (put_escaped (c ∷ s) (put (codes "\",\"system\":\"") b))

-- The options that are printed for every request.
abbrev pub options_text : Request → Bytes
options_text r =
    codes ",\"auto_load_resume_session\":"
    ++ (show_bool r.auto_load_resume_session
        ++ (codes ",\"context_tokens\":"
            ++ (show_int r.context_tokens
                ++ (codes ",\"reset_session\":" ++ show_bool r.reset_session))))

-- `frame_build_request`
unfoldable pub frame_build_request : Request → Buffer
frame_build_request r =
    let start = fresh (length r.input * 2 + length r.tool_history_json + 8192) in
    let head =
      codes "{\"type\":\"request\",\"id\":\""
      ++ (json_escape 256 r.request_id ++ codes "\",\"input\":\"") in
    let b₁ = put_system r.system_instructions (put_escaped r.input (put head start)) in
    let b₂ = put_member (codes ",\"reasoning_effort\":\"") r.reasoning_effort b₁ in
    let b₃ = put_member (codes ",\"previous_response_id\":\"") r.previous_response_id b₂ in
    let b₄ = put (options_text r) b₃ in
    let b₅ = put_raw (not (is_empty r.tools_json)) (codes ",\"tools\":") r.tools_json b₄ in
    let b₆ =
      put
        (codes
          ",\"tool_permission_mode\":\"auto_allow_safe\",\"do_not_prompt_for_read_only_tools\":true")
        b₅ in
    let b₇ =
      put
        (codes
          ",\"accepted_events\":[\"compaction.started\",\"compaction.summary\",\"compaction.completed\"]")
        b₆ in
    let b₈ =
      put_raw (not (is_empty r.tool_history_json) && not (str_eq r.tool_history_json (codes "[]")))
        (codes ",\"tool_history\":") r.tool_history_json b₇ in
    put (codes "}") b₈

-- `frame_build_response`; the status is "completed" for NULL.
unfoldable pub frame_build_response : Bytes → Option Bytes → Bytes → Bytes → Buffer
frame_build_response request_id status text_chunk tool_intent_json =
    let shown : Bytes = elim status [ none ↦ codes "completed" | some s ↦ s ] in
    let head =
      codes "{\"type\":\"response\",\"id\":\""
      ++ (json_escape 256 request_id
          ++ (codes "\",\"status\":\"" ++ (json_escape 256 shown ++ codes "\""))) in
    let b₁ = put head (fresh 4096) in
    let b₂ =
      if is_empty text_chunk
      then b₁
      else put (codes "\"") (put_escaped text_chunk (put (codes ",\"text\":\"") b₁)) in
    let b₃ =
      put_raw (not (is_empty tool_intent_json)) (codes ",\"tool_intent\":") tool_intent_json b₂ in
    put (codes "}") b₃
