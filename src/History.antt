-- ===== src/History.antt =====
-- src/tool_history.c: the text and the entries of past tool calls.
pub mod Window
pub mod Bounds
pub mod Render
use star_bridge.Base.{
  ℕ, ◌+◌, ◌-◌, min, Bool, true, false, ◌||◌, Option, none, some, List, [], ◌∷◌, ◌++◌, ltb, leb,
  ◌==◌, if◌then◌else◌, Bytes, length, take, drop, codes, str_eq, is_empty, copy_bounded, contains,
}

-- `ToolStatus`
pub data ToolStatus : Type 0 where
  ok error denied timeout unknown : ToolStatus

-- `tool_status_to_string`
unfoldable pub tool_status_to_string : ToolStatus → Bytes
tool_status_to_string ok = codes "ok"
tool_status_to_string error = codes "error"
tool_status_to_string denied = codes "denied"
tool_status_to_string timeout = codes "timeout"
tool_status_to_string unknown = codes "unknown"

-- `tool_status_from_string`; `none` is NULL.
unfoldable pub tool_status_from_string : Option Bytes → ToolStatus
tool_status_from_string none = unknown
tool_status_from_string (some s) =
    if str_eq s (codes "ok") || str_eq s (codes "OK")
    then ok
    else if str_eq s (codes "error") || str_eq s (codes "ERROR")
    then error
    else if str_eq s (codes "denied") || str_eq s (codes "DENIED")
    then denied
    else if str_eq s (codes "timeout") || str_eq s (codes "TIMEOUT")
    then timeout
    else unknown

-- `ToolHistoryEntry`
pub record ToolHistoryEntry : Type 0 where
  pub tool_name : Bytes
  pub args : Bytes
  pub status : ToolStatus

-- The static variables: the text, the entries, `g_history_max` and `g_history_drop_count`.
pub record History : Type 0 where
  pub text : Bytes
  pub entries : List ToolHistoryEntry
  pub limit : ℕ
  pub dropped : ℕ

-- The variables when the program starts.
abbrev pub no_history : History
no_history = record { text = []; entries = []; limit = 20; dropped = 0 }

-- `sizeof(g_tool_history)`
abbrev pub history_size : ℕ
history_size = 2048

-- `MAX_HISTORY_ENTRIES`
abbrev pub max_history_entries : ℕ
max_history_entries = 64

-- What is kept of the text so that a line of `len` bytes fits after it.
unfoldable pub make_room : Bytes → ℕ → Bytes
make_room text len =
    let drop_count = length text + len + 1 - history_size in
    if leb history_size (length text + len + 1)
    then (if leb (length text) drop_count then [] else drop drop_count text)
    else text

-- What stands before the first space, and what stands after it if there is one (`strchr`).
unfoldable pub cut_space : Bytes → Bytes × Option Bytes
cut_space [] = ([], none)
cut_space (c ∷ s) =
    let rest = cut_space s in if c == b' ' then ([], some s) else (c ∷ rest.0, rest.1)

-- The entry of a line "TOOL_RESULT <tool> <args>" or "TOOL_ERROR <tool> <msg>"; `none` without a
-- space.
unfoldable pub entry_of : Bytes → Option ToolHistoryEntry
entry_of line = elim (cut_space (copy_bounded 1024 line)).1 [
  | none ↦ none
  | some after ↦
      let cut = cut_space after in
      some (record {
        tool_name = copy_bounded 64 cut.0;
        args = elim cut.1 [ none ↦ [] | some detail ↦ copy_bounded 256 detail ];
        status = if contains line (codes "TOOL_ERROR") then error else ok;
      })
]

-- `g_history_max` for a configured number of entries; 0 stands for 0 and below.
unfoldable pub limit_of : ℕ → ℕ
limit_of configured = min (if ltb 0 configured then configured else 20) max_history_entries

-- The eviction of the oldest entries and the addition of one.
unfoldable pub add_entry : History → Option ToolHistoryEntry → History
add_entry h none = h
add_entry h (some entry) =
    let evict = length h.entries + 1 - h.limit in
    if leb h.limit (length h.entries)
    then record h { entries = drop evict h.entries ++ (entry ∷ []); dropped = h.dropped + evict }
    else record h { entries = h.entries ++ (entry ∷ []) }

-- `tool_history_append`
unfoldable pub tool_history_append : ℕ → Bytes → History → History
tool_history_append configured line h =
    let kept = record h {
      text = make_room h.text (length line) ++ line;
      limit = limit_of configured;
    } in
    if is_empty line
    then h
    else if leb history_size (length line + 1)
    then record h { text = copy_bounded history_size line }
    else add_entry kept (entry_of line)

-- Lines appended one after the other.
unfoldable pub append_lines : ℕ → List Bytes → History → History
append_lines configured [] h = h
append_lines configured (line ∷ lines) h =
    append_lines configured lines (tool_history_append configured line h)

-- `tool_history_count`
unfoldable pub tool_history_count : History → ℕ
tool_history_count h = length h.entries

-- `tool_history_reset`
unfoldable pub tool_history_reset : History → History
tool_history_reset h = record h { text = []; entries = []; dropped = 0 }
