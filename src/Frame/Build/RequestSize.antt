-- ===== src/Frame/Build/RequestSize.antt =====
-- That a request fits in its buffer.
use star_bridge.Base.{
  ℕ, zero, suc, ◌+◌, ◌*◌, ◌<◌, ◌≤◌, ◌≡◌, refl, ◌∙◌, ◌/◌, ◌%◌, Bool, true, false, not, ◌&&◌, [], ◌∷◌,
  ◌++◌, arith, Bytes, length, length-append, codes, str_eq, is_empty,
}
use star_bridge.Sessions.{ℤ, pos, negsuc}
use star_bridge.Escape.{json_escape}
use star_bridge.Escape.Whole.{length-json_escape}
use star_bridge.Frame.Build.{
  Buffer, fresh, put, put_escaped, decimal, show_int, show_bool, put_member, put_raw, Request,
  put_system, options_text, frame_build_request,
}
use star_bridge.Frame.Build.Sizes.{
  IsSound, put-IsSound, length-put, fresh-IsSound, Escaped, put_escaped-Escaped,
}

-- A buffer of `alloc` bytes that holds at most `n`.
record Holds (alloc n : ℕ) (b : Buffer) : Type 0 where
  sound : IsSound b
  size : b.alloc ≡ alloc
  used : b.off ≤ n

put-Holds :
    {alloc n : ℕ} {b : Buffer} (s : Bytes) (k : ℕ)
    → length s ≤ k
    → n + k < alloc
    → Holds alloc n b
    → Holds alloc (n + k) (put s b)
put-Holds {alloc} {n} {b} s k le room v =
    let (off, same) = length-put s b in
    record {
      sound = put-IsSound s b v.sound (omega (arith, v.size, v.used));
      size = same ∙ v.size;
      used = omega (arith, off, v.used);
    }

put_escaped-Holds :
    {alloc n : ℕ} {b : Buffer} (s : Bytes)
    → Holds alloc n b
    → Holds alloc (n + 2 * length s) (put_escaped s b)
put_escaped-Holds {alloc} {n} {b} s v =
    let e : Escaped b (put_escaped s b) (length s) = put_escaped-Escaped s b v.sound in
    record { sound = e.sound; size = e.same ∙ v.size; used = omega (arith, e.capped, v.used) }

weaken : {alloc n : ℕ} {b : Buffer} (k : ℕ) → Holds alloc n b → Holds alloc (n + k) b
weaken k v = record { sound = v.sound; size = v.size; used = omega (arith, v.used) }

put_member-Holds :
    {alloc n : ℕ} {b : Buffer} (name value : Bytes)
    → length name ≤ 40
    → n + 300 < alloc
    → Holds alloc n b
    → Holds alloc (n + 300) (put_member name value b)
unfolding put_member
put_member-Holds name [] le room v = weaken 300 v
put_member-Holds name (c ∷ value) le room v =
    let e : Bytes = json_escape 256 (c ∷ value) in
    put-Holds (name ++ (e ++ codes "\"")) 300
      (omega (
        arith,
        length-append name (e ++ codes "\""),
        length-append e (codes "\""),
        length-json_escape 256 (c ∷ value) (omega arith),
      ))
      room v

put_raw-Holds :
    {alloc n : ℕ} {b : Buffer} (test : Bool) (name value : Bytes)
    → length name ≤ 40
    → n + (40 + length value) < alloc
    → Holds alloc n b
    → Holds alloc (n + (40 + length value)) (put_raw test name value b)
put_raw-Holds false name value le room v = weaken (40 + length value) v
put_raw-Holds true name value le room v =
    put-Holds (name ++ value) (40 + length value) (omega (arith, length-append name value)) room v

length-decimal : (digits n : ℕ) → length (decimal digits n) ≤ digits
unfolding decimal
length-decimal zero n = omega arith
length-decimal (suc digits) n = ground (
  arith,
  length-decimal digits (n / 10),
  length-append (decimal digits (n / 10)) ((b'0' + n % 10) ∷ []),
)

length-show_int : (n : ℤ) → length (show_int n) ≤ 11
unfolding show_int
length-show_int (pos n) = omega (arith, length-decimal 10 n)
length-show_int (negsuc n) = omega (arith, length-decimal 10 (n + 1))

length-show_bool : (b : Bool) → length (show_bool b) ≤ 5
length-show_bool true = omega arith
length-show_bool false = omega arith

length-options_text : (r : Request) → length (options_text r) ≤ 120
length-options_text r =
    let a : Bytes = show_bool r.auto_load_resume_session in
    let n : Bytes = show_int r.context_tokens in
    let z : Bytes = show_bool r.reset_session in
    let tail : Bytes = codes ",\"reset_session\":" ++ z in
    let middle : Bytes = codes ",\"context_tokens\":" ++ (n ++ tail) in
    omega (
      arith,
      length-append a middle,
      length-append n tail,
      length-show_bool r.auto_load_resume_session,
      length-show_int r.context_tokens,
      length-show_bool r.reset_session,
    )

pub length-head :
    (id : Bytes)
    → length
        (codes "{\"type\":\"request\",\"id\":\"" ++ (json_escape 256 id ++ codes "\",\"input\":\""))
      ≤ 300
length-head id = omega (
  arith,
  length-append (json_escape 256 id) (codes "\",\"input\":\""),
  length-json_escape 256 id (omega arith),
)

-- The arguments as the bridge gives them: no system instructions and no tools.
unfoldable pub bridge_request : Request → Request
bridge_request r = record r { system_instructions = []; tools_json = [] }

-- Building a request without system instructions and tools never writes outside the buffer that is
-- allocated for it, and its offset is the length of the text that stands there with the terminator
-- behind it, whatever the input, the history and the other arguments. The fields that are printed
-- into buffers of fixed size may be cut.
pub frame_build_request-IsSound : (r : Request) → IsSound (frame_build_request (bridge_request r))
unfolding frame_build_request put_system bridge_request
frame_build_request-IsSound r =
    let alloc : ℕ = length r.input * 2 + length r.tool_history_json + 8192 in
    let n : ℕ = 300 + 2 * length r.input in
    let start : Holds alloc 0 (fresh alloc) = record {
      sound = fresh-IsSound alloc;
      size = refl;
      used = omega arith;
    } in
    let h₀ =
      put-Holds {alloc = alloc} {n = 0} _ 300 (length-head r.request_id) (omega arith) start in
    let h₁ = put_escaped-Holds {alloc = alloc} {n = 300} r.input h₀ in
    let h₂ = put-Holds {alloc = alloc} {n = n} (codes "\"") 1 (omega arith) (omega arith) h₁ in
    let h₃ =
      put_member-Holds {alloc = alloc} {n = n + 1} (codes ",\"reasoning_effort\":\"")
        r.reasoning_effort (omega arith) (omega arith) h₂ in
    let h₄ =
      put_member-Holds {alloc = alloc} {n = n + 1 + 300} (codes ",\"previous_response_id\":\"")
        r.previous_response_id (omega arith) (omega arith) h₃ in
    let h₅ =
      put-Holds {alloc = alloc} {n = n + 1 + 300 + 300} (options_text r) 120 (length-options_text r)
        (omega arith) h₄ in
    let h₆ =
      put-Holds {alloc = alloc} {n = n + 1 + 300 + 300 + 120}
        (codes
          ",\"tool_permission_mode\":\"auto_allow_safe\",\"do_not_prompt_for_read_only_tools\":true")
        100 (omega arith) (omega arith) h₅ in
    let h₇ =
      put-Holds {alloc = alloc} {n = n + 1 + 300 + 300 + 120 + 100}
        (codes
          ",\"accepted_events\":[\"compaction.started\",\"compaction.summary\",\"compaction.completed\"]")
        100 (omega arith) (omega arith) h₆ in
    let h₈ =
      put_raw-Holds {alloc = alloc} {n = n + 1 + 300 + 300 + 120 + 100 + 100}
        (not (is_empty r.tool_history_json) && not (str_eq r.tool_history_json (codes "[]")))
        (codes ",\"tool_history\":") r.tool_history_json (omega arith) (omega arith) h₇ in
    (put-Holds {alloc = alloc}
      {n = n + 1 + 300 + 300 + 120 + 100 + 100 + (40 + length r.tool_history_json)} (codes "}") 1
      (omega arith) (omega arith) h₈).sound
