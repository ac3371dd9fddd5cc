-- ===== src/Frame/Read.antt =====
-- `read_all`, `read_all_deadline` and `frame_read`.
use star_bridge.Base.{
  ℕ, suc, ◌+◌, ◌-◌, min, Bool, true, false, not, ◌&&◌, List, [], ◌∷◌, ◌++◌, Bytes, take, drop,
  length, ltb, ◌==◌, if◌then◌else◌, is_empty,
}
use star_bridge.Frame.Io.{
  Read, chunk, interrupted, failed, Poll, ready, no_data, poll_interrupted, hangup, poll_failed,
  Source, Received, received, read_failed, waiting, of_le32,
}

-- `FRAME_MAX_PAYLOAD`
abbrev pub frame_max_payload : ℕ
frame_max_payload = 16777216

-- The values of `*error_out`.
pub data FrameError : Type 0 where
  timeout read_error truncated_header truncated_payload payload_too_large out_of_memory : FrameError

-- A buffer, NULL with an error, NULL with no error (where `strdup` fails), or not returned yet.
pub data FrameResult : Type 0 where
  frame : Bytes → FrameResult
  frame_error : FrameError → FrameResult
  no_frame : FrameResult
  frame_waiting : FrameResult

-- The loop of `read_all`: `need` is `count - off`, `got` is `buf[0..off)`.
unfoldable pub read_all : List Read → ℕ → Bytes → Source → Received × Source
read_all [] need got s =
    if need == 0 then (received got false, s) else (waiting, record s { reads = [] })
read_all (chunk n ∷ r) need got s =
    let bytes = take (min (suc n) need) s.wire in
    let rest =
      read_all r (need - length bytes) (got ++ bytes)
        (record s { wire = drop (min (suc n) need) s.wire; reads = r }) in
    if need == 0
    then (received got false, s)
    else if is_empty bytes
    then (received got false, record s { reads = r })
    else rest
read_all (interrupted ∷ r) need got s =
    let rest = read_all r need got (record s { reads = r }) in
    if need == 0 then (received got false, s) else rest
read_all (failed ∷ r) need got s =
    if need == 0 then (received got false, s) else (read_failed, record s { reads = r })

-- A deadline in milliseconds; a negative one waits for ever.
pub data Deadline : Type 0 where
  blocking : Deadline
  within : ℕ → Deadline

-- The loop of `read_all_deadline`, at a deadline `total` that is not negative. Each read costs a
-- nominal 10 ms of `remaining`, whatever time has passed.
unfoldable pub read_polled : List Poll → ℕ → ℕ → ℕ → Bytes → Source → Received × Source
read_polled [] total remaining need got s =
    if need == 0
    then (received got false, s)
    else if ltb 0 total && remaining == 0
    then (received got true, s)
    else (waiting, s)
read_polled (ready (chunk n) ∷ r) total remaining need got s =
    let bytes = take (min (suc n) need) s.wire in
    let s' = record s { wire = drop (min (suc n) need) s.wire; polls = r } in
    let rest = read_polled r total (remaining - 10) (need - length bytes) (got ++ bytes) s' in
    if need == 0
    then (received got false, s)
    else if ltb 0 total && remaining == 0
    then (received got true, s)
    else if is_empty bytes
    then (received got false, record s { polls = r })
    else if total == 0
    then (received (got ++ bytes) false, s')
    else rest
read_polled (ready interrupted ∷ r) total remaining need got s =
    let rest = read_polled r total remaining need got (record s { polls = r }) in
    if need == 0
    then (received got false, s)
    else if ltb 0 total && remaining == 0
    then (received got true, s)
    else rest
read_polled (ready failed ∷ r) total remaining need got s =
    if need == 0
    then (received got false, s)
    else if ltb 0 total && remaining == 0
    then (received got true, s)
    else (read_failed, record s { polls = r })
read_polled (no_data ∷ r) total remaining need got s =
    if need == 0
    then (received got false, s)
    else (received got true, if ltb 0 total && remaining == 0 then s else record s { polls = r })
read_polled (poll_interrupted ∷ r) total remaining need got s =
    let rest = read_polled r total remaining need got (record s { polls = r }) in
    if need == 0
    then (received got false, s)
    else if ltb 0 total && remaining == 0
    then (received got true, s)
    else rest
read_polled (hangup ∷ r) total remaining need got s =
    if need == 0
    then (received got false, s)
    else if ltb 0 total && remaining == 0
    then (received got true, s)
    else (read_failed, record s { polls = r })
read_polled (poll_failed ∷ r) total remaining need got s =
    if need == 0
    then (received got false, s)
    else if ltb 0 total && remaining == 0
    then (received got true, s)
    else (read_failed, record s { polls = r })

-- `read_all_deadline`
unfoldable pub read_all_deadline : Deadline → ℕ → Source → Received × Source
read_all_deadline blocking count s = read_all s.reads count [] s
read_all_deadline (within ms) count s = read_polled s.polls ms ms count [] s

-- The deadline that is left for the payload.
abbrev pub payload_deadline : Deadline → Deadline
payload_deadline blocking = blocking
payload_deadline (within ms) = within (ms - 10)

-- The last part of `frame_read`: the payload of `len` bytes.
unfoldable pub finish_payload : ℕ → Received → FrameResult
finish_payload len (received got timed_out) =
    if is_empty got
    then frame_error (if timed_out then timeout else read_error)
    else if ltb (length got) len
    then frame_error (if timed_out then timeout else truncated_payload)
    else frame got
finish_payload len read_failed = frame_error read_error
finish_payload len waiting = frame_waiting

module _ (malloc_ok : ℕ → Bool) where
  -- From the validation of the length on; `malloc_ok n` says whether `malloc(n)` succeeds.
  unfoldable pub read_payload : Deadline → ℕ → Source → FrameResult × Source
  read_payload deadline len s =
      let (payload, s') = read_all_deadline (payload_deadline deadline) len s in
      if ltb frame_max_payload len
      then (frame_error payload_too_large, s)
      else if len == 0
      then ((if malloc_ok 1 then frame [] else no_frame), s)
      else if not (malloc_ok (len + 1))
      then (frame_error out_of_memory, s)
      else (finish_payload len payload, s')

  -- What `frame_read` makes of the header.
  unfoldable pub after_header : Deadline → Received × Source → FrameResult × Source
  after_header deadline (received header timed_out, s) =
      if is_empty header
      then (frame_error (if timed_out then timeout else read_error), s)
      else if ltb (length header) 4
      then (frame_error (if timed_out then timeout else truncated_header), s)
      else read_payload deadline (of_le32 header) s
  after_header deadline (read_failed, s) = (frame_error read_error, s)
  after_header deadline (waiting, s) = (frame_waiting, s)

  -- `frame_read`
  unfoldable pub frame_read : Deadline → Source → FrameResult × Source
  frame_read deadline s = after_header deadline (read_all_deadline deadline 4 s)
