-- ===== src/Sessions.antt =====
-- src/config_manager.c: the keys of sessions and the session index, without its file.
pub mod Lookup
pub mod Keys
use star_bridge.Base.{
  ℕ, zero, suc, ◌+◌, ◌*◌, ◌/◌, ◌%◌, ◌-◌, ◌^◌, Bool, true, false, ◌&&◌, Option, none, some, List, [],
  ◌∷◌, ◌++◌, ltb, leb, if◌then◌else◌, Bytes, length, codes, str_eq, is_empty, copy_bounded,
}

-- An int.
pub data ℤ : Type 0 where
  pos : ℕ → ℤ
  negsuc : ℕ → ℤ

-- `n > 0`
abbrev is_positive : ℤ → Bool
is_positive (pos n) = ltb 0 n
is_positive (negsuc n) = false

-- `h = h * 131 + c` over the workspace, in an unsigned long of 64 bits.
unfoldable pub hash_from : ℕ → Bytes → ℕ
hash_from h [] = h
hash_from h (c ∷ s) = hash_from ((h * 131 + c) % 2 ^ 64) s

-- A digit of `%lx`.
unfoldable pub hex_digit : ℕ → ℕ
hex_digit d = if ltb d 10 then 48 + d else 87 + d

-- `%lx`; 16 digits are enough for 64 bits.
unfoldable pub hex : ℕ → ℕ → Bytes
hex zero n = []
hex (suc digits) n =
    let rest = hex digits (n / 16) in
    if ltb n 16 then hex_digit n ∷ [] else rest ++ (hex_digit (n % 16) ∷ [])

-- What `"%lx_%s"` prints for a workspace and a session.
unfoldable pub key_text : Bytes → Bytes → Bytes
key_text workspace session_id = hex 16 (hash_from 0 workspace) ++ (b'_' ∷ session_id)

-- `session_key_for`, into a buffer of `max_len` bytes. A key that does not fit in 255 bytes is
-- empty.
unfoldable pub session_key_for : Option Bytes → Option Bytes → ℕ → Bytes
session_key_for (some workspace) (some session_id) max_len =
    if ltb (length (key_text workspace session_id)) 256
    then copy_bounded max_len (key_text workspace session_id)
    else []
session_key_for _ _ max_len = []

-- `compute_session_key`: the new `global_config.session_key`.
unfoldable pub compute_session_key : Option Bytes → Option Bytes → Bytes
compute_session_key (some workspace) (some session_id) =
    if ltb (length (key_text workspace session_id)) 256 then key_text workspace session_id else []
compute_session_key _ _ = []

-- `SessionIndexEntry`
pub record SessionIndexEntry : Type 0 where
  pub key : Bytes
  pub state_id : Bytes
  pub workspace_root : Bytes
  pub model_id : Bytes
  pub context_budget : ℤ
  pub updated_at : Bytes

-- `s_index` and `s_index_dirty`.
pub record SessionIndex : Type 0 where
  pub entries : List SessionIndexEntry
  pub dirty : Bool

-- `SESSION_INDEX_MAX_ENTRIES`
abbrev pub max_entries : ℕ
max_entries = 64

-- The entry that the loops over the index stop at.
unfoldable pub find_entry : Bytes → List SessionIndexEntry → Option SessionIndexEntry
find_entry key [] = none
find_entry key (e ∷ es) = let rest = find_entry key es in if str_eq e.key key then some e else rest

-- `session_index_lookup`
unfoldable pub session_index_lookup : Option Bytes → SessionIndex → Option Bytes
session_index_lookup none ix = none
session_index_lookup (some key) ix = elim (find_entry key ix.entries) [
  | none ↦ none
  | some e ↦ some e.state_id
]

abbrev unless_empty : Bytes → Option Bytes
unless_empty [] = none
unless_empty (c ∷ s) = some (c ∷ s)

-- `session_index_get_workspace`
pub session_index_get_workspace : Option Bytes → SessionIndex → Option Bytes
session_index_get_workspace none ix = none
session_index_get_workspace (some key) ix = elim (find_entry key ix.entries) [
  | none ↦ none
  | some e ↦ unless_empty e.workspace_root
]

-- `session_index_get_model_id`
pub session_index_get_model_id : Option Bytes → SessionIndex → Option Bytes
session_index_get_model_id none ix = none
session_index_get_model_id (some key) ix = elim (find_entry key ix.entries) [
  | none ↦ none
  | some e ↦ unless_empty e.model_id
]

-- The arguments of `session_index_update` after the key; `none` is NULL. `now` is the text of the
-- time.
pub record Update : Type 0 where
  pub state_id : Bytes
  pub workspace_root : Option Bytes
  pub model_id : Option Bytes
  pub context_budget : ℤ
  pub now : Bytes

-- The text that an argument puts into a buffer, and the old one if it is NULL or empty.
abbrev given : ℕ → Option Bytes → Bytes → Bytes
given size none old = old
given size (some []) old = old
given size (some (c ∷ s)) old = copy_bounded size (c ∷ s)

-- The update of an entry that exists.
unfoldable pub refresh : Update → SessionIndexEntry → SessionIndexEntry
refresh u e = record e {
  state_id = copy_bounded 128 u.state_id;
  workspace_root = given 1024 u.workspace_root e.workspace_root;
  model_id = given 128 u.model_id e.model_id;
  context_budget = if is_positive u.context_budget then u.context_budget else e.context_budget;
  updated_at = copy_bounded 32 u.now;
}

-- A new entry.
unfoldable pub new_entry : Bytes → Update → SessionIndexEntry
new_entry key u = record {
  key = copy_bounded 256 key;
  state_id = copy_bounded 128 u.state_id;
  workspace_root = given 1024 u.workspace_root [];
  model_id = given 128 u.model_id [];
  context_budget = u.context_budget;
  updated_at = copy_bounded 32 u.now;
}

-- The loop of `session_index_update`: the entries with the first one of the key refreshed, if there
-- is one.
unfoldable pub refresh_entry :
    Bytes → Update → List SessionIndexEntry → Option (List SessionIndexEntry)
refresh_entry key u [] = none
refresh_entry key u (e ∷ es) =
    let rest : Option (List SessionIndexEntry) = elim (refresh_entry key u es) [
      | none ↦ none
      | some es' ↦ some (e ∷ es')
    ] in
    if str_eq e.key key then some (refresh u e ∷ es) else rest

-- What `session_index_update` does after its loop.
unfoldable pub finish_update :
    Bytes → Update → SessionIndex → Option (List SessionIndexEntry) → SessionIndex × Bool
finish_update key u ix (some entries) = (record { entries = entries; dirty = true }, true)
finish_update key u ix none =
    if leb max_entries (length ix.entries)
    then (ix, false)
    else (record { entries = ix.entries ++ (new_entry key u ∷ []); dirty = true }, true)

-- `session_index_update`, with a key and a state that are not NULL.
unfoldable pub session_index_update : Bytes → Update → SessionIndex → SessionIndex × Bool
session_index_update key u ix = finish_update key u ix (refresh_entry key u ix.entries)
