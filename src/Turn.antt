-- ===== src/Turn.antt =====
-- src/turn_context.c: a turn of the framed protocol, from its request's acknowledgement to its end.
pub mod State
pub mod Control
pub mod Tool
pub mod Save
pub mod Fields
pub mod Ack
pub mod States
pub mod Begin
pub mod Events
pub mod Sound
pub mod Kept
