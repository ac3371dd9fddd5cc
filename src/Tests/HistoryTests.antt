-- ===== src/Tests/HistoryTests.antt =====
-- The tool history on three lines.
use star_bridge.Base.{
  List, [], ◌∷◌, arith, Bytes, codes, some, ◌≡◌, refl, str_eq, contains, starts_with,
}
use star_bridge.History.{
  tool_status_from_string, tool_status_to_string, denied, tool_history_count, make_room, entry_of,
  cut_space, limit_of, add_entry, no_history, append_lines, tool_history_append, tool_history_reset,
}
use star_bridge.History.Window.{join, parsed, IsWindow, append_lines-IsWindow}
use star_bridge.History.Bounds.{IsBounded, tool_history_append-IsBounded, no_history-IsBounded}

abbrev lines : List Bytes
lines = codes "TOOL_RESULT read a.txt" ∷ codes "TOOL_ERROR list denied" ∷ codes "note" ∷ []

append_lines-IsWindow_example :
    IsWindow 1 (append_lines 1 lines (tool_history_reset no_history)) (join lines) (parsed lines)
append_lines-IsWindow_example =
    append_lines-IsWindow 1 lines no_history (omega arith, (omega arith, (omega arith, tt)))

tool_history_append-IsBounded_example :
    IsBounded (tool_history_append 100 (codes "TOOL_RESULT read a.txt") no_history)
tool_history_append-IsBounded_example =
    tool_history_append-IsBounded 100 (codes "TOOL_RESULT read a.txt") no_history
      no_history-IsBounded

-- The status goes to a text and back.
reads_status : tool_status_from_string (some (tool_status_to_string denied)) ≡ denied
unfolding tool_status_from_string tool_status_to_string str_eq
reads_status = refl

counts_entries : tool_history_count (append_lines 1 lines no_history) ≡ 1
unfolding tool_history_count append_lines tool_history_append make_room entry_of cut_space limit_of
    add_entry contains starts_with
counts_entries = refl
