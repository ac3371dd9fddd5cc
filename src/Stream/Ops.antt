-- ===== src/Stream/Ops.antt =====
-- The functions of responses_stream_state.c, each with the new state and the value it returns.
use star_bridge.Base.{
  ℕ, ◌+◌, ◌*◌, Bool, true, false, Option, none, some, List, [], ◌∷◌, ◌++◌, ltb, leb, if◌then◌else◌,
  Bytes, length, get_or, set, codes, is_empty, copy_bounded,
}
use star_bridge.Escape.{json_escape}
use star_bridge.Stream.State.{
  ContentPartType, output_text, reasoning_summary, function_call, ContentPart, blank_part,
  OutputItem, blank_item, is_kind, StreamTerminalState, Event, headers, heartbeat, done_marker,
  created, item_added, part_added, text_delta, reasoning_delta, arguments_delta, text_done,
  part_done, item_done, response_completed, error_event, response_failed, Stream, text_size,
  max_output_items, max_content_parts,
}

-- `json_escape` into the 131072 bytes that the formatters have.
unfoldable pub event_text : Bytes → Bytes
event_text text = json_escape 131072 text

abbrev pub Result : Type 0
Result = Stream × Bool

-- `responses_stream_init`. Whether the client takes the headers is decided by the kernel.
unfoldable pub init : Bytes → Bytes → Bool → Stream
init id model headers_ok = record {
  id = copy_bounded 64 id;
  model = copy_bounded 128 model;
  sequence_number = 0;
  headers_ok = headers_ok;
  headers_sent = false;
  items = [];
  cur_item = none;
  cur_part = none;
  terminal_state = StreamTerminalState.active;
  error_message = [];
  incomplete_details = [];
  out = [];
}

-- `responses_stream_send_headers`
unfoldable pub send_headers : Stream → Result
send_headers s =
    if s.headers_sent
    then (s, true)
    else if s.headers_ok
    then (record s { headers_sent = true; out = s.out ++ (headers ∷ []) }, true)
    else (s, false)

-- `seq = s->sequence_number++` and `send_sse_event`.
abbrev pub emit : (ℕ → Event) → Stream → Stream
emit event s = record s {
  sequence_number = s.sequence_number + 1;
  out = s.out ++ (event s.sequence_number ∷ []);
}

-- `send_heartbeat`
abbrev pub beat : Stream → Stream
beat s = record s { out = s.out ++ (heartbeat ∷ []) }

-- `responses_stream_send_done_marker`
abbrev pub done_marker_sent : Stream → Stream
done_marker_sent s = record s { out = s.out ++ (done_marker ∷ []) }

-- `responses_stream_emit_created`
unfoldable pub emit_created : Stream → Result
unfolding send_headers
emit_created s =
    let (s', sent) = send_headers s in
    if sent then (beat (emit (λ n. created) s'), true) else (s', false)

-- `responses_stream_emit_output_item_added`, which `responses_stream_start_item` calls.
unfoldable pub start_item : Stream → Result
start_item s =
    let idx = length s.items in
    let s' = beat (emit (item_added idx) s) in
    if leb max_output_items idx then (s, false) else (
      record s' { items = s.items ++ (blank_item ∷ []); cur_item = some idx; cur_part = none },
      true,
    )

abbrev pub item_at : Stream → ℕ → OutputItem
item_at s i = get_or s.items i blank_item

abbrev pub part_at : Stream → ℕ → ℕ → ContentPart
part_at s i p = get_or (item_at s i).parts p blank_part

abbrev pub set_item : Stream → ℕ → OutputItem → Stream
set_item s i item = record s { items = set s.items i item }

abbrev pub set_part : Stream → ℕ → ℕ → ContentPart → Stream
set_part s i p part = set_item s i (record (item_at s i) { parts = set (item_at s i).parts p part })

-- `responses_stream_emit_content_part_added`
unfoldable pub add_part : ContentPartType → Stream → Result
add_part kind s = elim s.cur_item [
  | none ↦ (s, false)
  | some i ↦
      let item = item_at s i in
      let idx = length item.parts in
      let s' = beat (emit (part_added i idx) s) in
      let part = record blank_part { kind = kind; seq_start = s.sequence_number } in
      if leb (length s.items) i
      then (s, false)
      else if leb max_content_parts idx
      then (s, false)
      else (
        record (set_item s' i (record item { parts = item.parts ++ (part ∷ []) })) {
          cur_part = some idx;
        },
        true,
      )
]

-- The name that `responses_stream_start_part` gives the current part of a function call; `none` is
-- a NULL name.
unfoldable pub set_name : ContentPartType → Option Bytes → Stream → Stream
set_name function_call (some n) s = elim s.cur_item [
  | none ↦ s
  | some i ↦ elim s.cur_part [
    | none ↦ s
    | some p ↦ set_part s i p (record (part_at s i p) { name = copy_bounded 64 n })
  ]
]
set_name _ _ s = s

-- `responses_stream_start_part`
unfoldable pub start_part : ContentPartType → Option Bytes → Stream → Result
start_part kind name s =
    let (s', ok) = add_part kind s in if ok then (set_name kind name s', true) else (s', false)

-- What a delta leaves in an accumulator: all of it, or nothing if it does not fit.
unfoldable pub accumulate : Bytes → Bytes → Bytes
accumulate current delta =
    if ltb (length current + length delta) text_size then current ++ delta else current

-- The checks that the delta functions begin with, and the current item and part.
abbrev pub with_part : Stream → (ℕ → ℕ → Result) → Result
with_part s body = elim s.cur_item [
  | none ↦ (s, false)
  | some i ↦ elim s.cur_part [ none ↦ (s, false) | some p ↦ body i p ]
]

-- `responses_stream_emit_text_delta`
unfoldable pub emit_text_delta : Bytes → Stream → Result
emit_text_delta delta s = with_part s (λ i p.
    let part = part_at s i p in
    if is_kind part.kind output_text
    then (
      set_part (emit (text_delta i p (event_text delta)) s) i p
          (record part { text = accumulate part.text delta }),
      true,
    )
    else (s, false))

-- `responses_stream_emit_reasoning_delta`
unfoldable pub emit_reasoning_delta : Bytes → Stream → Result
emit_reasoning_delta delta s = with_part s (λ i p.
    let part = part_at s i p in
    if is_kind part.kind reasoning_summary
    then (
      set_part (emit (reasoning_delta i p (event_text delta)) s) i p
          (record part { text = accumulate part.text delta }),
      true,
    )
    else (s, false))

-- `responses_stream_emit_function_call_delta`
unfoldable pub emit_arguments_delta : Bytes → Stream → Result
emit_arguments_delta delta s = with_part s (λ i p.
    let part = part_at s i p in
    if is_kind part.kind function_call
    then (
      set_part (emit (arguments_delta i p (event_text delta)) s) i p
          (record part { arguments = accumulate part.arguments delta }),
      true,
    )
    else (s, false))

-- `responses_stream_emit_text_done`
unfoldable pub emit_text_done : Stream → Result
emit_text_done s = with_part s (λ i p.
    let part = part_at s i p in
    if is_kind part.kind output_text
    then (beat (emit (text_done i p (event_text part.text)) s), true)
    else (s, false))

-- `responses_stream_emit_content_part_done`
unfoldable pub emit_part_done : Stream → Result
emit_part_done s =
    with_part s (λ i p. (beat (emit (part_done i p (event_text (part_at s i p).text)) s), true))

-- `responses_stream_emit_output_item_done`
unfoldable pub emit_item_done : Stream → Result
emit_item_done s = elim s.cur_item [
  | none ↦ (s, false)
  | some i ↦ if leb (length s.items) i then (s, false) else (
    set_item (beat (emit (item_done i (event_text (part_at s i 0).text)) s)) i
        (record (item_at s i) { completed = true }),
    true,
  )
]

-- The text of the first part of the first item, empty if there is none.
unfoldable pub final_text : List OutputItem → Bytes
final_text [] = []
final_text (item ∷ items) = elim item.parts [ [] ↦ [] | part ∷ parts ↦ part.text ]

-- `responses_stream_emit_completed`
unfoldable pub emit_completed : Stream → Result
emit_completed s =
    let incomplete : Option Bytes =
      if is_empty s.incomplete_details
      then none
      else some (json_escape (length s.incomplete_details * 2 + 32) s.incomplete_details) in
    let s' = beat (emit (response_completed (event_text (final_text s.items)) incomplete) s) in
    (
      record s' {
        terminal_state = StreamTerminalState.completed;
        out = s'.out ++ (done_marker ∷ []);
      },
      true,
    )

-- `responses_stream_emit_error`
unfoldable pub emit_error : Bytes → Stream → Result
emit_error message s = (
  record (beat (emit (error_event (event_text message)) s)) {
    terminal_state = StreamTerminalState.error;
    error_message = copy_bounded 256 message;
  },
  true,
)

-- `responses_stream_emit_failed`
unfoldable pub emit_failed : Bytes → Stream → Result
emit_failed reason s =
    let r = if is_empty reason then codes "failed" else reason in
    (
      record (beat (emit (response_failed (json_escape 1024 r)) s)) {
        terminal_state = StreamTerminalState.error;
        error_message = copy_bounded 256 r;
      },
      true,
    )

-- `responses_stream_is_active`
unfoldable pub is_active : Stream → Bool
is_active s = elim s.terminal_state [ StreamTerminalState.active ↦ true | _ ↦ false ]
