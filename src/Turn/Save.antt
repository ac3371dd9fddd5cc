-- ===== src/Turn/Save.antt =====
-- The session state that is saved after a turn: `engine_save_session_state` of src/bridge_core.c and
-- its caller in `turn_process_events`.
pub mod Sound
use star_bridge.Base.{
  ℕ, ◌&&◌, ◌||◌, Bool, true, false, not, Option, none, some, List, [], ◌∷◌, ◌++◌, leb,
  if◌then◌else◌, Bytes, length, codes, contains, is_empty, copy_bounded,
}
use star_bridge.Escape.{json_escape}
use star_bridge.Sessions.{compute_session_key, session_index_lookup}
use star_bridge.Turn.State.{Env, Turn, Read, Poll, sent, log, engine_read_frame_timeout}

-- The read that the next round of a script finds, or none when the script ends.
abbrev pub next_read : List Poll → Read
next_read [] = Read.no_frame
next_read (p ∷ ps) = p.read

-- The frame of `engine_save_session_state`.
unfoldable pub save_state_text : Bytes → Bytes → Bytes
save_state_text key state_id =
    codes "{\"type\":\"save_state\",\"key\":\""
    ++ (json_escape 256 key
        ++ (codes "\",\"state_id\":\"" ++ (json_escape 256 state_id ++ codes "\"}")))

-- `engine_save_session_state`, with the read that finds the acknowledgement.
unfoldable pub engine_save_session_state : Env → Bytes → Bytes → Read → Turn → Bool × Turn
engine_save_session_state env key state_id read t =
    let (ack, t') =
      engine_read_frame_timeout env read (log (sent (save_state_text key state_id)) t) in
    let accepted : Bool = elim ack [
      | none ↦ false
      | some s ↦
          contains s (codes "\"type\":\"ack\"") && contains s (codes "\"status\":\"accepted\"")
    ] in
    if not env.framed_mode || leb 1024 (length (save_state_text key state_id))
    then (false, t)
    else (accepted, t')

-- The save after a response, if the session has an entry in the index.
unfoldable pub save_after_turn : Env → List Poll → Turn → Turn
save_after_turn env script t =
    let key = compute_session_key (some env.workspace) (some env.last_session_id) in
    let t' = record t { session_id = copy_bounded 256 env.last_session_id; session_key = key } in
    if is_empty env.last_session_id || not env.auto_save_kv_cache
    then t
    else if is_empty key
    then t'
    else elim (session_index_lookup (some key) env.index) [
      | none ↦ t'
      | some state_id ↦ (engine_save_session_state env key state_id (next_read script) t').1
    ]
