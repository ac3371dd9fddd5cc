-- ===== src/Native/Laws.antt =====
-- The sizes of what the parser leaves.
use star_bridge.Base.{
  ◌<◌, Option, none, some, [], Bytes, length, length-drop, drop, codes, is_empty, if◌then◌else◌,
  if-both, arith,
}
use star_bridge.Native.{
  CJson, NativeEventType, unknown, ack, response, text_delta, tool_intent, error, compaction,
  health, ping, pong, ready, shutdown, cancelled, shutdown_ack, NativeEvent, no_event,
  native_event_type_from_string, json_get_string, json_get_int, text_of, arguments_of, usage_of,
  parse_response, compaction_message, parse_kind, native_parse_frame,
}
use star_bridge.Native.Fields.{
  Below, length-json_get_string, length-text_of, length-extract_tool_from_obj, length-arguments_of,
  length-field, length-usage_of,
}

-- The texts of an event fit in the fields of its struct, with their terminators.
pub record Fits (e : NativeEvent) : Type 0 where
  pub type_str : length e.type_str < 64
  pub id : length e.id < 64
  pub status : length e.status < 64
  pub text : length e.text < 4096
  pub tool_name : length e.tool_name < 128
  pub tool_args : length e.tool_args < 4096
  pub message : length e.message < 512
  pub usage_json : length e.usage_json < 4096

module _ {Item : Type 0} (J : CJson Item) where
  parse_response-Fits :
      (stale frame : Bytes) (obj : Item) (e : NativeEvent)
      → Fits e
      → Fits (parse_response J stale frame obj e)
  unfolding parse_response
  parse_response-Fits stale frame obj e v = go (J.get_object_item obj (codes "tool_intent"))
    where
      status : Bytes
      status = json_get_string J obj (codes "status") 64 []

      text : Bytes
      text = text_of J obj (codes "text") (codes "output") 4096

      short : Below 64 status
      short = length-field J obj (codes "status") 64 (omega arith)

      whole : Below 4096 text
      whole = length-text_of J obj (codes "text") (codes "output") 4096 (omega arith)

      go :
          (o : Option Item)
          → Fits (elim o [
            | some intent ↦ record e {
              kind = tool_intent;
              tool_name = json_get_string J intent (codes "name") 128 status;
              tool_args = arguments_of J intent (drop 64 text);
            }
            | none ↦ record e {
              status = status;
              text = text;
              prompt_tokens = json_get_int J obj (codes "prompt_tokens");
              completion_tokens = json_get_int J obj (codes "completion_tokens");
              usage_json = usage_of J stale frame obj;
            }
          ])
      go none = record {
        type_str = v.type_str;
        id = v.id;
        status = short;
        text = whole;
        tool_name = v.tool_name;
        tool_args = v.tool_args;
        message = v.message;
        usage_json = length-usage_of J stale frame obj;
      }
      go (some intent) = record {
        type_str = v.type_str;
        id = v.id;
        status = v.status;
        text = v.text;
        tool_name =
            length-json_get_string J intent (codes "name") 128 status 128 (omega arith)
              (omega arith) (omega (arith, short));
        tool_args =
            length-arguments_of J intent (drop 64 text) (omega (arith, whole, length-drop 64 text));
        message = v.message;
        usage_json = v.usage_json;
      }

  length-compaction_message : (obj : Item) → Below 512 (compaction_message J obj)
  unfolding compaction_message
  length-compaction_message obj =
      let first : Bytes = text_of J obj (codes "message") (codes "text") 512 in
      let h : Below 512 first =
        length-text_of J obj (codes "message") (codes "text") 512 (omega arith) in
      if-both (Below 512) (is_empty first)
        (length-json_get_string J obj (codes "summary") 512 first 512 (omega arith) (omega arith) h)
        h

  -- New texts of an event that fits.
  with_texts :
      {e : NativeEvent} (text message : Bytes)
      → Below 4096 text
      → Below 512 message
      → Fits e
      → Fits (record e { text = text; message = message })
  with_texts text message t m v = record {
    type_str = v.type_str;
    id = v.id;
    status = v.status;
    text = t;
    tool_name = v.tool_name;
    tool_args = v.tool_args;
    message = m;
    usage_json = v.usage_json;
  }

  parse_kind-Fits :
      (stale frame : Bytes) (kind : NativeEventType) (obj : Item) (e : NativeEvent)
      → Fits e
      → Fits (parse_kind J stale frame kind obj e)
  unfolding parse_kind
  parse_kind-Fits stale frame response obj e v = parse_response-Fits stale frame obj e v
  parse_kind-Fits stale frame text_delta obj e v =
      with_texts _ e.message
        (length-text_of J obj (codes "text") (codes "delta") 4096 (omega arith)) v.message v
  parse_kind-Fits stale frame tool_intent obj e v =
      let (name, args) = length-extract_tool_from_obj J stale obj in
      record {
        type_str = v.type_str;
        id = v.id;
        status = v.status;
        text = v.text;
        tool_name = name;
        tool_args = args;
        message = v.message;
        usage_json = v.usage_json;
      }
  parse_kind-Fits stale frame error obj e v =
      let w =
        with_texts e.text _ v.text (length-field J obj (codes "message") 512 (omega arith)) v in
      record {
        type_str = v.type_str;
        id = v.id;
        status = length-field J obj (codes "status") 64 (omega arith);
        text = v.text;
        tool_name = v.tool_name;
        tool_args = v.tool_args;
        message = w.message;
        usage_json = v.usage_json;
      }
  parse_kind-Fits stale frame compaction obj e v =
      with_texts e.text _ v.text (length-compaction_message obj) v
  parse_kind-Fits stale frame ack obj e v = record {
    type_str = v.type_str;
    id = v.id;
    status = length-field J obj (codes "status") 64 (omega arith);
    text = v.text;
    tool_name = v.tool_name;
    tool_args = v.tool_args;
    message = v.message;
    usage_json = v.usage_json;
  }
  parse_kind-Fits stale frame unknown obj e v = v
  parse_kind-Fits stale frame health obj e v = v
  parse_kind-Fits stale frame ping obj e v = v
  parse_kind-Fits stale frame pong obj e v = v
  parse_kind-Fits stale frame ready obj e v = v
  parse_kind-Fits stale frame shutdown obj e v = v
  parse_kind-Fits stale frame cancelled obj e v = v
  parse_kind-Fits stale frame shutdown_ack obj e v = v

  no_event-Fits :
      (type_str id : Bytes) (kind : NativeEventType)
      → Below 64 type_str
      → Below 64 id
      → Fits (record no_event { kind = kind; type_str = type_str; id = id })
  no_event-Fits type_str id kind t i = record {
    type_str = t;
    id = i;
    status = omega arith;
    text = omega arith;
    tool_name = omega arith;
    tool_args = omega arith;
    message = omega arith;
    usage_json = omega arith;
  }

  -- Whatever frame the engine sends, and whatever the parser's local buffer held before, each text that
  -- the parser leaves fits in its field of the event with its terminator; this includes the tool name
  -- and arguments of a response, which lie over its status and text, and the copy of its usage object.
  pub native_parse_frame-Fits : (stale frame : Bytes) → Fits (native_parse_frame J stale frame)
  unfolding native_parse_frame
  native_parse_frame-Fits stale frame = go (J.parse frame)
    where
      blank : Fits no_event
      blank = no_event-Fits [] [] unknown (omega arith) (omega arith)

      go :
          (o : Option Item)
          → Fits (elim o [
            | none ↦ no_event
            | some obj ↦
                let name = json_get_string J obj (codes "type") 64 [] in
                let e = record no_event {
                  kind = native_event_type_from_string name;
                  type_str = name;
                  id = json_get_string J obj (codes "id") 64 [];
                } in
                if is_empty name
                then no_event
                else parse_kind J stale frame (native_event_type_from_string name) obj e
          ])
      go none = blank
      go (some obj) =
          let name : Bytes = json_get_string J obj (codes "type") 64 [] in
          let kind : NativeEventType = native_event_type_from_string name in
          let id : Bytes = json_get_string J obj (codes "id") 64 [] in
          if-both Fits (is_empty name) blank (
            parse_kind-Fits stale frame kind obj
              (record no_event { kind = kind; type_str = name; id = id })
              (no_event-Fits name id kind (length-field J obj (codes "type") 64 (omega arith))
                (length-field J obj (codes "id") 64 (omega arith))))
