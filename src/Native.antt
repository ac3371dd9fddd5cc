-- ===== src/Native.antt =====
-- src/native_response.c: the parser of native frames, over cJSON's interface, and the readers of
-- src/json_utils.c that it uses.
pub mod Fields
pub mod Laws
use star_bridge.Base.{
  ℕ, ◌+◌, ◌-◌, ◌==◌, Bool, true, false, Option, none, some, List, [], ◌∷◌, Bytes, length, take,
  drop, codes, starts_with, str_eq, is_empty, copy_bounded, if◌then◌else◌,
}
use star_bridge.Sessions.{ℤ, pos}

-- What the source uses of cJSON, a library outside the repository's own code. `string_value` is the
-- string of a string item, `number_value` the number of a number item cast to an int, and
-- `print_unformatted` is `none` for NULL.
pub record CJson (Item : Type 0) : Type 0 where
  pub parse : Bytes → Option Item
  pub get_object_item : Item → Bytes → Option Item
  pub string_value : Item → Option Bytes
  pub number_value : Item → Option ℤ
  pub is_object : Item → Bool
  pub print_unformatted : Item → Option Bytes

-- `NativeEventType`
pub data NativeEventType : Type 0 where
  unknown ack response text_delta tool_intent error compaction health ping pong ready shutdown
        cancelled shutdown_ack :
      NativeEventType

-- `NativeEvent`, with the fields of its union but for the copies of the id and of the type: `status`,
-- `text`, the two numbers and `usage_json` of a response, `tool_name` and `tool_args` of a tool intent,
-- `status` and `message` of an error, `message` of a compaction.
pub record NativeEvent : Type 0 where
  pub kind : NativeEventType
  pub type_str : Bytes
  pub id : Bytes
  pub status : Bytes
  pub text : Bytes
  pub prompt_tokens : ℤ
  pub completion_tokens : ℤ
  pub usage_json : Bytes
  pub tool_name : Bytes
  pub tool_args : Bytes
  pub message : Bytes

-- The event after `memset`.
abbrev pub no_event : NativeEvent
no_event = record {
  kind = unknown;
  type_str = [];
  id = [];
  status = [];
  text = [];
  prompt_tokens = pos 0;
  completion_tokens = pos 0;
  usage_json = [];
  tool_name = [];
  tool_args = [];
  message = [];
}

-- `native_event_type_from_string`
unfoldable pub native_event_type_from_string : Bytes → NativeEventType
native_event_type_from_string s =
    if str_eq s (codes "ack")
    then ack
    else if str_eq s (codes "response")
    then response
    else if str_eq s (codes "text_delta")
    then text_delta
    else if str_eq s (codes "tool_intent")
    then tool_intent
    else if str_eq s (codes "error")
    then error
    else if str_eq s (codes "health")
    then health
    else if str_eq s (codes "ping")
    then ping
    else if str_eq s (codes "pong")
    then pong
    else if str_eq s (codes "ready")
    then ready
    else if str_eq s (codes "shutdown")
    then shutdown
    else if str_eq s (codes "cancelled")
    then cancelled
    else if str_eq s (codes "shutdown_ack")
    then shutdown_ack
    else if str_eq s (codes "compaction.started")
    then compaction
    else if str_eq s (codes "compaction.summary")
    then compaction
    else if str_eq s (codes "compaction.completed")
    then compaction
    else unknown

-- `native_event_is_lifecycle`
unfoldable pub native_event_is_lifecycle : NativeEventType → Bool
native_event_is_lifecycle health = true
native_event_is_lifecycle ping = true
native_event_is_lifecycle pong = true
native_event_is_lifecycle ready = true
native_event_is_lifecycle shutdown = true
native_event_is_lifecycle shutdown_ack = true
native_event_is_lifecycle _ = false

-- What stands behind a word in a text (`strstr(s, word) + strlen(word)`).
unfoldable pub behind : Bytes → Bytes → Option Bytes
behind word [] = if is_empty word then some [] else none
behind word (c ∷ s) =
    let rest = behind word s in
    if starts_with (c ∷ s) word then some (drop (length word) (c ∷ s)) else rest

-- The loop that looks for the end of the usage object, with the depth that it has counted.
unfoldable pub cut_object : ℕ → Bytes → Bytes
cut_object depth [] = []
cut_object depth (c ∷ s) =
    let next = if c == b'{' then depth + 1 else if c == b'}' then depth - 1 else depth in
    let rest = cut_object next s in if next == 0 then c ∷ [] else c ∷ rest

module _ {Item : Type 0} (J : CJson Item) where
  -- `json_get_string`, into a buffer of `size` bytes that holds `dest`.
  unfoldable pub json_get_string : Item → Bytes → ℕ → Bytes → Bytes
  json_get_string obj field size dest = elim (J.get_object_item obj field) [
    | none ↦ dest
    | some item ↦ elim (J.string_value item) [ none ↦ dest | some s ↦ copy_bounded size s ]
  ]

  -- `json_get_int`
  unfoldable pub json_get_int : Item → Bytes → ℤ
  json_get_int obj field = elim (J.get_object_item obj field) [
    | none ↦ pos 0
    | some item ↦ elim (J.number_value item) [ none ↦ pos 0 | some n ↦ n ]
  ]

  -- `json_get_object`
  unfoldable pub json_get_object : Item → Bytes → Option Item
  json_get_object obj field = elim (J.get_object_item obj field) [
    | none ↦ none
    | some item ↦ if J.is_object item then some item else none
  ]

  -- `r->text`, from one field or else from another.
  unfoldable pub text_of : Item → Bytes → Bytes → ℕ → Bytes
  text_of obj field other size =
      let first = json_get_string obj field size [] in
      let second = json_get_string obj other size first in if is_empty first then second else first

  -- `extract_tool_from_obj`: the name and the arguments. `stale` is what the local buffer holds before
  -- anything is written to it.
  unfoldable pub extract_tool_from_obj : Bytes → Item → Bytes × Bytes
  extract_tool_from_obj stale obj = elim (json_get_object obj (codes "tool")) [
    | none ↦ ([], [])
    | some tool ↦
        let args = json_get_string tool (codes "args") 4096 stale in
        let input = json_get_string tool (codes "input") 4096 args in
        (
          json_get_string tool (codes "name") 128 [],
          if is_empty args then copy_bounded 4096 input else copy_bounded 4096 args,
        )
  ]

  -- What the arguments of a response's tool intent leave in a buffer that holds `dest`.
  unfoldable pub arguments_of : Item → Bytes → Bytes
  arguments_of intent dest = elim (J.get_object_item intent (codes "arguments")) [
    | none ↦ dest
    | some item ↦ elim (J.string_value item) [
      | some s ↦ copy_bounded 4096 s
      | none ↦ elim (J.print_unformatted item) [ none ↦ dest | some raw ↦ copy_bounded 4096 raw ]
    ]
  ]

  -- `r->usage_json`. The string of an object is never read, so that the local buffer holds `stale`;
  -- if that is empty, the object is looked for in the frame, from byte `off` on at most 4095 bytes.
  unfoldable pub usage_of : Bytes → Bytes → Item → Bytes
  usage_of stale frame obj = elim (json_get_object obj (codes "usage")) [
    | none ↦ []
    | some usage ↦
        let ubuf = json_get_string obj (codes "usage") 4096 stale in
        let copied : Bytes = elim (behind (codes "\"usage\":") frame) [
          | none ↦ []
          | some rest ↦ cut_object 1 (take 4095 rest)
        ] in
        if is_empty ubuf then copied else copy_bounded 4096 ubuf
  ]

  -- The case of a response. The name and the arguments of a tool intent lie in the union over the
  -- status and over the text from its byte 64 on.
  unfoldable pub parse_response : Bytes → Bytes → Item → NativeEvent → NativeEvent
  parse_response stale frame obj e =
      let status = json_get_string obj (codes "status") 64 [] in
      let text = text_of obj (codes "text") (codes "output") 4096 in
      elim (J.get_object_item obj (codes "tool_intent")) [
        | some intent ↦ record e {
          kind = tool_intent;
          tool_name = json_get_string intent (codes "name") 128 status;
          tool_args = arguments_of intent (drop 64 text);
        }
        | none ↦ record e {
          status = status;
          text = text;
          prompt_tokens = json_get_int obj (codes "prompt_tokens");
          completion_tokens = json_get_int obj (codes "completion_tokens");
          usage_json = usage_of stale frame obj;
        }
      ]

  -- `c->message`
  unfoldable pub compaction_message : Item → Bytes
  compaction_message obj =
      let first = text_of obj (codes "message") (codes "text") 512 in
      let second = json_get_string obj (codes "summary") 512 first in
      if is_empty first then second else first

  -- The `switch`.
  unfoldable pub parse_kind : Bytes → Bytes → NativeEventType → Item → NativeEvent → NativeEvent
  parse_kind stale frame response obj e = parse_response stale frame obj e
  parse_kind stale frame text_delta obj e = record e {
    text = text_of obj (codes "text") (codes "delta") 4096;
  }
  parse_kind stale frame tool_intent obj e =
      let tool = extract_tool_from_obj stale obj in
      record e { tool_name = tool.0; tool_args = tool.1 }
  parse_kind stale frame error obj e = record e {
    status = json_get_string obj (codes "status") 64 [];
    message = json_get_string obj (codes "message") 512 [];
  }
  parse_kind stale frame compaction obj e = record e { message = compaction_message obj }
  parse_kind stale frame ack obj e = record e {
    status = json_get_string obj (codes "status") 64 [];
  }
  parse_kind stale frame _ obj e = e

  -- `native_parse_frame`: the event that it leaves. `stale` is what the one local buffer that a case of
  -- the `switch` has holds before anything is written to it.
  unfoldable pub native_parse_frame : Bytes → Bytes → NativeEvent
  native_parse_frame stale frame = elim (J.parse frame) [
    | none ↦ no_event
    | some obj ↦
        let name = json_get_string obj (codes "type") 64 [] in
        let e = record no_event {
          kind = native_event_type_from_string name;
          type_str = name;
          id = json_get_string obj (codes "id") 64 [];
        } in
        if is_empty name
        then no_event
        else parse_kind stale frame (native_event_type_from_string name) obj e
  ]
