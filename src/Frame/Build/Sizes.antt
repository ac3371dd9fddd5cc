-- ===== src/Frame/Build/Sizes.antt =====
-- Which envelopes fit in their buffers.
use star_bridge.Base.{
  ℕ, ◌+◌, ◌-◌, ◌*◌, ◌<◌, ◌≤◌, ◌≡◌, refl, false, [], ◌∷◌, ◌++◌, ltb, arith, Bytes, length, take,
  length-append, length-take, codes, Bool-cases, inl, inr,
}
use star_bridge.Escape.{json_escape}
use star_bridge.Escape.Whole.{length-json_escape}
use star_bridge.Frame.Build.{
  Buffer, fresh, put, escaped_byte, put_escaped, frame_build_tool_result, result_head, result_body,
  frame_build_tool_error,
}

-- No write went outside, and the text is all that was printed.
pub record IsSound (b : Buffer) : Type 0 where
  pub inside : b.overrun ≡ false
  pub complete : length b.text ≡ b.off

pub put-IsSound :
    (s : Bytes) (b : Buffer) → IsSound b → b.off + length s < b.alloc → IsSound (put s b)
unfolding put
put-IsSound s b v room = record {
  inside = ground (arith, v.inside);
  complete = omega (
    arith,
    length-append b.text (take (b.alloc - b.off - 1) s),
    length-take (b.alloc - b.off - 1) s,
    v.complete,
  );
}

length-escaped_byte : (c : ℕ) → length (escaped_byte c) ≤ 2
unfolding escaped_byte
length-escaped_byte c = ground arith

-- The loops stop early enough for six more bytes at the most.
pub record Escaped (b b' : Buffer) (len : ℕ) : Type 0 where
  pub same : b'.alloc ≡ b.alloc
  pub sound : IsSound b'
  pub capped : b'.off ≤ b.off + 2 * len
  pub below : b.off + 4 < b.alloc → b'.off + 4 < b.alloc

pub put_escaped-Escaped :
    (s : Bytes) (b : Buffer) → IsSound b → Escaped b (put_escaped s b) (length s)
unfolding put_escaped
put_escaped-Escaped [] b v = record { same = refl; sound = v; capped = omega arith; below = λ h. h }
put_escaped-Escaped (c ∷ s) b v = elim (Bool-cases (ltb (b.off + 6) b.alloc)) [
  | inr full ↦ rw full (record { same = refl; sound = v; capped = omega arith; below = λ h. h })
  | inl room ↦
      let b' : Buffer = record b {
        text = b.text ++ escaped_byte c;
        off = b.off + length (escaped_byte c);
      } in
      let v' : IsSound b' = record {
        inside = v.inside;
        complete = omega (arith, length-append b.text (escaped_byte c), v.complete);
      } in
      let later : Escaped b' (put_escaped s b') (length s) = put_escaped-Escaped s b' v' in
      rw room (record {
        same = later.same;
        sound = later.sound;
        capped = omega (arith, later.capped, length-escaped_byte c);
        below = λ h. later.below (ground (arith, length-escaped_byte c));
      })
]

length-result_head :
    (request_id tool_name : Bytes) → length (result_head request_id tool_name) < 600
unfolding result_head
length-result_head request_id tool_name =
    let id : Bytes = json_escape 256 request_id in
    let name : Bytes = json_escape 256 tool_name in
    let middle : Bytes = codes "\",\"tool\":{\"name\":\"" in
    let end : Bytes = codes "\",\"result\":" in
    omega (
      arith,
      length-json_escape 256 request_id (omega arith),
      length-json_escape 256 tool_name (omega arith),
      length-append id (middle ++ (name ++ end)),
      length-append name end,
    )

-- A tool result writes outside its 4096 bytes just when its envelope without the two closing braces
-- has more than 4096 bytes.
pub frame_build_tool_result-overrun :
    (request_id tool_name result : Bytes)
    → (frame_build_tool_result request_id tool_name result).overrun
      ≡ ltb 4096 (length (result_head request_id tool_name) + length (result_body result))
unfolding frame_build_tool_result put
frame_build_tool_result-overrun request_id tool_name result =
    let low : ltb 4096 (length (result_head request_id tool_name)) ≡ false =
      ground (arith, length-result_head request_id tool_name) in
    ground (arith, low)

pub length-put :
    (s : Bytes) (b : Buffer) → ((put s b).off ≡ b.off + length s) × ((put s b).alloc ≡ b.alloc)
unfolding put
length-put s b = (refl, refl)

pub fresh-IsSound : (n : ℕ) → IsSound (fresh n)
fresh-IsSound n = record { inside = refl; complete = refl }

-- A tool error is built inside its buffer, with nothing lost from what was printed, whatever the
-- identifier, the name and the message.
pub frame_build_tool_error-IsSound :
    (request_id tool_name message : Bytes)
    → IsSound (frame_build_tool_error request_id tool_name message)
unfolding frame_build_tool_error
frame_build_tool_error-IsSound request_id tool_name message =
    let head : Bytes =
      result_head request_id tool_name ++ codes "{\"status\":\"error\",\"message\":\"" in
    let short : length head < 700 = omega (
      arith,
      length-result_head request_id tool_name,
      length-append (result_head request_id tool_name)
          (codes "{\"status\":\"error\",\"message\":\""),
    ) in
    let first : IsSound (put head (fresh 4096)) =
      put-IsSound head (fresh 4096) (fresh-IsSound 4096) (omega (arith, short)) in
    let (off, alloc) = length-put head (fresh 4096) in
    let e : Escaped (put head (fresh 4096)) (put_escaped message (put head (fresh 4096)))
        (length message) =
      put_escaped-Escaped message (put head (fresh 4096)) first in
    put-IsSound (codes "\"}}}") (put_escaped message (put head (fresh 4096))) e.sound
      (omega (arith, e.below (omega (arith, off, alloc, short)), e.same, alloc))
