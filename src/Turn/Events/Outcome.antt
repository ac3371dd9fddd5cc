-- ===== src/Turn/Events/Outcome.antt =====
-- What a turn has done when its loop returns.
use mathlib.Core.Path.{subst}
use star_bridge.Base.{◌<◌, ◌≡◌, sym, Bool, List, [], arith, length, All}
use star_bridge.Native.{CJson}
use star_bridge.Turn.State.{Poll, Env, Turn, turn_started}
use star_bridge.Turn.Sound.{Allowed, Sound}
use star_bridge.Turn.Events.{done, turn_process_events}
use star_bridge.Turn.Events.Ends.{Ended, Result}
use star_bridge.Turn.Events.Loop.{event_loop-Result}

-- A turn as the loop finds it: the caller's buffer holds a terminator, and nothing is done or counted.
pub record IsFresh (env : Env) (t : Turn) : Type 0 where
  pub room : length t.out_buf < env.out_max
  pub no_calls : t.tool_calls ≡ 0
  pub nothing : t.out ≡ []

module _ {Item : Type 0} (J : CJson Item) (env : Env) (script : List Poll) (t : Turn) {ok : Bool}
    {t' : Turn} where
  -- A turn that starts with room for a terminator, no tool calls and nothing done, and whose loop
  -- returns, has written its one analytics line last, with the status "completed" or
  -- "incomplete" if and only if the loop returns true, the tool calls it has counted and the length of
  -- its output; or it returns false and has written none. Either way its buffers hold their terminators
  -- and every child was a validated command.
  pub turn_process_events-Ended :
      IsFresh env t → turn_process_events J env script t ≡ done ok t' → Ended env ok t'
  unfolding turn_process_events
  turn_process_events-Ended fresh e =
      subst (Result env) e (event_loop-Result J env script (turn_started env t) start)
    where
      start : Sound env 64 (turn_started env t)
      start = record {
        text = fresh.room;
        notices_fit = omega arith;
        counted_twice = fresh.no_calls;
        few = omega arith;
        allowed = subst (All (Allowed env)) (sym fresh.nothing) tt;
      }
