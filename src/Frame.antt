-- ===== src/Frame.antt =====
-- src/native_frame.c and include/native_frame.h: the length-prefixed frames between the bridge and
-- the agent. `Io` is the C library underneath, `Read` and `Write` are the two routines.
pub mod Io
pub mod Read
pub mod Write
pub mod Build
pub mod RoundTrip
pub mod Sound
