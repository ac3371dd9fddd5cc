-- ===== src/Turn/Save/Sound.antt =====
-- The save after a turn keeps what holds of a running turn.
use star_bridge.Base.{
  Bool, not, ◌||◌, Option, none, some, leb, length, Bytes, is_empty, if-both, copy_bounded, ℕ, List,
}
use star_bridge.Sessions.{compute_session_key, session_index_lookup}
use star_bridge.Turn.State.{Env, Turn, Read, Poll, sent, log}
use star_bridge.Turn.Sound.{Sound, log-Sound, engine_read_frame_timeout-Sound}
use star_bridge.Turn.Save.{next_read, save_state_text, engine_save_session_state, save_after_turn}

module _ {env : Env} {limit : ℕ} where
  engine_save_session_state-Sound :
      (key state_id : Bytes) (read : Read) (t : Turn)
      → Sound env limit t
      → Sound env limit (engine_save_session_state env key state_id read t).1
  unfolding engine_save_session_state
  engine_save_session_state-Sound key state_id read t v =
      if-both (λ (r : Bool × Turn). Sound env limit r.1)
        (not env.framed_mode || leb 1024 (length (save_state_text key state_id))) v
        (engine_read_frame_timeout-Sound read (log (sent (save_state_text key state_id)) t)
          (log-Sound _ t tt v))

  pub save_after_turn-Sound :
      (script : List Poll) (t : Turn)
      → Sound env limit t
      → Sound env limit (save_after_turn env script t)
  unfolding save_after_turn
  save_after_turn-Sound script t v =
      if-both (Sound env limit) (is_empty env.last_session_id || not env.auto_save_kv_cache) v (
        if-both (Sound env limit) (is_empty key) v (go (session_index_lookup (some key) env.index)))
    where
      key : Bytes
      key = compute_session_key (some env.workspace) (some env.last_session_id)

      t' : Turn
      t' = record t { session_id = copy_bounded 256 env.last_session_id; session_key = key }

      go :
          (state : Option Bytes)
          → Sound env limit (elim state [
            | none ↦ t'
            | some state_id ↦ (engine_save_session_state env key state_id (next_read script) t').1
          ])
      go none = v
      go (some state_id) = engine_save_session_state-Sound key state_id (next_read script) t' v
