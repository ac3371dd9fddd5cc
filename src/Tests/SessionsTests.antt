-- ===== src/Tests/SessionsTests.antt =====
-- Two sessions of one workspace.
use star_bridge.Base.{true, Bytes, ◌<◌, ◌≡◌, refl, ◌≢◌, false, none, some, [], arith, length, codes}
use star_bridge.Sessions.{
  pos, SessionIndex, Update, session_index_update, session_index_lookup, finish_update,
  refresh_entry, session_key_for, compute_session_key, key_text, hash_from, hex, hex_digit,
}
use star_bridge.Sessions.Lookup.{
  Outcome, session_index_update-Outcome, session_index_lookup-session_index_update,
}
use star_bridge.Sessions.Keys.{compute_session_key-injective, session_key_for-compute_session_key}

abbrev empty_index : SessionIndex
empty_index = record { entries = []; dirty = false }

abbrev update : Update
update = record {
  state_id = codes "state-1";
  workspace_root = some (codes "/w");
  model_id = none;
  context_budget = pos 4096;
  now = codes "1700000000";
}

session_index_update-Outcome_example :
    Outcome
      (codes "5ec4_main")
      update
      empty_index
      (session_index_update (codes "5ec4_main") update empty_index)
session_index_update-Outcome_example =
    session_index_update-Outcome (codes "5ec4_main") update empty_index (omega arith)

key_is_there : 0 < length (compute_session_key (some (codes "/w")) (some (codes "main")))
unfolding compute_session_key key_text hash_from hex hex_digit
key_is_there = omega arith

compute_session_key-injective_example : codes "main" ≡ codes "main"
compute_session_key-injective_example =
    compute_session_key-injective (codes "/w") (codes "main") (codes "main") key_is_there refl

session_key_for-compute_session_key_example :
    session_key_for (some (codes "/w")) (some (codes "main")) 256
    ≡ compute_session_key (some (codes "/w")) (some (codes "main"))
session_key_for-compute_session_key_example =
    session_key_for-compute_session_key (codes "/w") (codes "main")

stores : (session_index_update (codes "5ec4_main") update empty_index).1 ≡ true
unfolding session_index_update finish_update refresh_entry
stores = refl

session_index_lookup-session_index_update_example :
    (session_index_lookup
        (some (codes "5ec4_main"))
        (session_index_update (codes "5ec4_main") update empty_index).0
      ≡ some (codes "state-1"))
    × ((k : Bytes)
        → k ≢ codes "5ec4_main"
        → session_index_lookup
            (some k)
            (session_index_update (codes "5ec4_main") update empty_index).0
          ≡ session_index_lookup (some k) empty_index)
session_index_lookup-session_index_update_example =
    session_index_lookup-session_index_update (codes "5ec4_main") update empty_index (omega arith)
      (omega arith) stores
