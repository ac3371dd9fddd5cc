-- ===== src/Stream/State.antt =====
-- The data of responses_stream_state.h, and the events as values.
use star_bridge.Base.{ℕ, Bool, true, false, Option, List, [], ◌∷◌, Bytes}

-- `ContentPartType`
pub data ContentPartType : Type 0 where
  output_text reasoning_summary function_call : ContentPartType

-- `kind == k`
abbrev pub is_kind : ContentPartType → ContentPartType → Bool
is_kind output_text output_text = true
is_kind reasoning_summary reasoning_summary = true
is_kind function_call function_call = true
is_kind _ _ = false

-- `ContentPart`
pub record ContentPart : Type 0 where
  pub kind : ContentPartType
  pub text : Bytes
  pub name : Bytes
  pub arguments : Bytes
  pub seq_start : ℕ

-- A part after `memset`.
abbrev pub blank_part : ContentPart
blank_part = record { kind = output_text; text = []; name = []; arguments = []; seq_start = 0 }

-- `OutputItem`, without its id "msg_<index>" and its constant role. `content_count` is the length
-- of `parts`, and `completed` says whether the status is "completed" or "in_progress".
pub record OutputItem : Type 0 where
  pub completed : Bool
  pub parts : List ContentPart

abbrev pub blank_item : OutputItem
blank_item = record { completed = false; parts = [] }

-- `StreamTerminalState`
pub data StreamTerminalState : Type 0 where
  active completed cancelled error disconnected : StreamTerminalState

-- What is written to the client. An event carries the indices, the escaped texts and, last, the sequence
-- number that its formatter in codex_stream_events.c prints; `created` is always printed with the
-- number 0. The id and the model of the response, the time and the usage are left out. The formatters
-- cut the whole of an event at 131071 bytes, and that of response.failed at 2047: the model is the
-- program for the events that are shorter.
pub data Event : Type 0 where
  headers : Event
  heartbeat : Event
  done_marker : Event
  created : Event
  item_added : ℕ → ℕ → Event
  part_added : ℕ → ℕ → ℕ → Event
  text_delta : ℕ → ℕ → Bytes → ℕ → Event
  reasoning_delta : ℕ → ℕ → Bytes → ℕ → Event
  arguments_delta : ℕ → ℕ → Bytes → ℕ → Event
  text_done : ℕ → ℕ → Bytes → ℕ → Event
  part_done : ℕ → ℕ → Bytes → ℕ → Event
  item_done : ℕ → Bytes → ℕ → Event
  response_completed : Bytes → Option Bytes → ℕ → Event
  error_event : Bytes → ℕ → Event
  response_failed : Bytes → ℕ → Event

-- `ResponsesStreamState`, without `fd`, `gzip_supported` and `usage`, which no function changes after
-- the start. `item_count` is the length of `items`; `none` is the index -1. The sequence number is an
-- int: the model is the program for fewer than 2^31 events.
pub record Stream : Type 0 where
  pub id : Bytes
  pub model : Bytes
  pub sequence_number : ℕ
  pub headers_ok : Bool
  pub headers_sent : Bool
  pub items : List OutputItem
  pub cur_item : Option ℕ
  pub cur_part : Option ℕ
  pub terminal_state : StreamTerminalState
  pub error_message : Bytes
  pub incomplete_details : Bytes
  pub out : List Event

-- The bytes that an accumulator of a part has room for, with its terminator.
abbrev pub text_size : ℕ
text_size = 131072

-- `RESPONSES_MAX_OUTPUT_ITEMS` and `RESPONSES_MAX_CONTENT_PARTS`.
abbrev pub max_output_items : ℕ
max_output_items = 16

abbrev pub max_content_parts : ℕ
max_content_parts = 16

-- The sequence numbers that the events are printed with.
abbrev pub seqs : List Event → List ℕ
seqs [] = []
seqs (headers ∷ l) = seqs l
seqs (heartbeat ∷ l) = seqs l
seqs (done_marker ∷ l) = seqs l
seqs (created ∷ l) = 0 ∷ seqs l
seqs (item_added i n ∷ l) = n ∷ seqs l
seqs (part_added i p n ∷ l) = n ∷ seqs l
seqs (text_delta i p t n ∷ l) = n ∷ seqs l
seqs (reasoning_delta i p t n ∷ l) = n ∷ seqs l
seqs (arguments_delta i p t n ∷ l) = n ∷ seqs l
seqs (text_done i p t n ∷ l) = n ∷ seqs l
seqs (part_done i p t n ∷ l) = n ∷ seqs l
seqs (item_done i t n ∷ l) = n ∷ seqs l
seqs (response_completed t d n ∷ l) = n ∷ seqs l
seqs (error_event m n ∷ l) = n ∷ seqs l
seqs (response_failed r n ∷ l) = n ∷ seqs l
