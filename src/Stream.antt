-- ===== src/Stream.antt =====
-- src/responses_stream_state.c and its header: the server-sent events of one streamed response.
-- `out` is what has been written to the client, newest last. A write of an event is not checked by
-- the source; only the write of the headers is, and `headers_ok` says how that one ends.
pub mod State
pub mod Ops
pub mod Run
pub mod Numbered
pub mod Fits
pub mod Within
pub mod Bounds
pub mod Transcript
pub mod Lifecycle
