-- ===== src/Turn/Begin/Loads.antt =====
-- What `turn_begin` asks of the engine.
use star_bridge.Turn.States.{Begin}
