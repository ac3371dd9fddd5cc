-- ===== src/Lib.antt =====
-- Star Bridge: the bridge between HTTP clients that speak the Responses API and a native engine.
--
-- A request comes in over HTTP, is turned into a turn of a session, and goes to the engine as a
-- length-prefixed frame over a pipe or a Unix socket. What the engine answers comes back as frames
-- and leaves as server-sent events of one streamed response. On the way the engine may ask for a
-- tool, which the tool policy admits or refuses and the tool runner starts.
--
-- Files and what they model (paths from the root of the repository):
-- - Base: shared names; lists over native numbers, C strings as lists of bytes, Boolean tests.
-- - Ring: src/ring_buffer.c. `Ring` is the storage with head and tail, all of size_t, so they wrap
--   at 2^64. Ring/Window: the stored bytes as a window; Ring/Refine: the abstract view, a
--   sequence of at most capacity - 1 bytes.
-- - Frame: src/native_frame.c, frame_read and frame_write. What read, poll and write return is a
--   script (Frame/Io), with short reads, interruptions, hang-ups and failures. Frame/Read and
--   Frame/Write are the functions; Frame/RoundTrip and Frame/Sound are about them. The scripts
--   bound the loops; `waiting` and `none` mean that the script ended first.
--   Frame/Build: frame_build_request, frame_build_response, frame_build_tool_result and
--   frame_build_tool_error. A buffer knows its size, what stands in it, and whether a write went
--   outside; Frame/Build/Sizes and Frame/Build/RequestSize are about that,
--   Frame/Build/RequestText about what a request carries of its input. malloc does not fail there.
-- - Tools: src/tool_policy.c and src/tool_runner.c. Tools/Json is the parser of a JSON object with
--   one string field, which both files contain; Tools/Json/Grammar says which texts it accepts.
--   Tools/Policy holds the decisions, Tools/Runner tool_runner_run up to the start of the
--   child process; the registered callback and pipe(2) are parameters.
-- - Stream: src/responses_stream_state.c. Stream/State is its data, Stream/Ops its functions,
--   Stream/Run the calls as data and responses_stream_run_text (Stream/Transcript says what it should
--   write), on fuel: a byte of text per unit is
--   enough when the chunk size is not 0. What is written to the client is a list of events, their
--   texts escaped as src/codex_stream_events.c escapes them; the JSON around the texts is not modelled, nor
--   is the cut of an event that is longer than its buffer of 131072 bytes.
-- - History: src/tool_history.c, the text and the entries. History/Window sees both as
--   windows on all that was appended, History/Bounds is about their sizes,
--   History/Render writes the entries as JSON.
-- - Sessions: src/config_manager.c, the keys of sessions and the session index in memory.
--   Sessions/Lookup sees the index as a map, Sessions/Keys is about the keys. The hash is that of a
--   64-bit unsigned long, and 16 hexadecimal digits are enough to print it.
-- - Connection: src/native_connection.c. The calls of the system are a list; what uds_connect
--   (src/uds_transport.c) returns is a parameter. The retry loop is recursion on the attempts that
--   are left. Connection/Close and Connection/Reconnect are about closing and retrying.
-- - Capability: src/capability_router.c. Capability/Scan finds words in a text, Capability/Intent has
--   the word lists and the analyses, Capability/Route the decision and its summary,
--   Capability/Active what a decision activates.
-- - Escape: src/json_utils.c, json_escape. Escape/Whole compares it with the escape of every byte
--   and with the decoder of Tools/Json.
--
-- - Native: src/native_response.c, native_parse_frame over a record with the functions of cJSON that
--   it calls, and the readers of src/json_utils.c. A response with a tool intent keeps what the union of the
--   event keeps: its status lies under the tool name, its text under the arguments. The copies of the id
--   and of the type in the structs of the union are left out. Native/Laws is about the sizes of the fields.
-- - Turn: src/turn_context.c. `Turn` is TurnContext with the flags of the engine, the tool
--   history and the locals of the loop; `Env` is what a turn does not change. The outside is a script:
--   each round of the loop finds the clients that wait at the listening socket, the read of a frame
--   and whether there is memory. What a turn does is a list of effects: frames to the engine, children,
--   answers, events without a stream, analytics. Turn/State holds these and the helpers of
--   src/server.c and src/bridge_core.c, Turn/Control handle_midturn_control_plane (Turn/Control/Words reads a
--   request line as two words, Turn/Control/Clients says what clients ask for), Turn/Tool the tool
--   intents (over Tools, History and Frame/Build), Turn/Save the save of the session (over Sessions),
--   Turn/Fields extract_json_string_field and atoi, Turn/Ack turn_await_ack, Turn/Events
--   turn_process_events and turn_cleanup. A loop whose script ends first is `more`;
--   Turn/Events/Termination says which scripts are long enough. A round in a script is one whose
--   calls have returned: the source reads a client of the control plane without a timeout. Turn/Sound carries an invariant
--   through the helpers and Turn/Kept the fields that they leave alone; Turn/Events/Ends and
--   Turn/Events/Loop carry the invariant through the loop, Turn/Events/Outcome states what follows.
--   Turn/States has the session calls of src/bridge_core.c, Turn/Begin turn_begin: `Opening` is what it only
--   reads, `Begin` what changes, with the frames about session states that it sends;
--   Turn/Begin/Compatible and Turn/Begin/Loads follow those that load a state or switch to one. The file of the index is
--   read once, and its writing is left out, as is the git metadata of a new session.
--   Trace texts and the duration in the analytics are left out.
--
-- - Http: src/server.c, what it reads off the head of a request. A pointer into the request is the
--   rest of the text from there. Http/Length reads Content-Length into a 64-bit long,
--   Http/Host validates the host; Http/Host/Spelling says which host the value of a header spells, and
--   Http/Host/Entries sees the allowlist as a list of names.
--   The loops are on the length of what they scan.
-- - JsonBuilder: src/json_builder.c, whose functions are calls on one builder. JsonBuilder/Bounded compares
--   buffers of different sizes. A write outside the array of flags, which only an end without a begin
--   leads to, is a flag of the model; JsonBuilder/Balanced excludes it.
--
-- Not modelled: the start and heartbeat of the engine,
-- the files of the configuration, the routes of the HTTP server, and the translation of
-- requests and responses. Nor are sockets, threads, processes, files and the agent.
pub mod Base
pub mod Ring
pub mod Frame
pub mod Tools
pub mod Stream
pub mod History
pub mod Sessions
pub mod Connection
pub mod Capability
pub mod Escape
pub mod Native
pub mod Turn
pub mod Http
pub mod JsonBuilder
mod Tests
