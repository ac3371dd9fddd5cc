-- ===== src/History/Render.antt =====
-- `tool_history_build_json` of src/tool_history.c: the entries as JSON.
use star_bridge.Base.{
  ℕ, ◌+◌, ◌-◌, ◌*◌, Bool, true, false, ◌&&◌, ◌||◌, List, [], ◌∷◌, ◌++◌, ltb, ◌==◌, if◌then◌else◌,
  Bytes, length, drop, codes,
}
use star_bridge.Sessions.{pos}
use star_bridge.Frame.Build.{Buffer, fresh, put, show_int}
use star_bridge.History.{History, ToolHistoryEntry, tool_status_to_string, limit_of}

-- The loops that escape a text into a local buffer of `size` bytes; `lines` says whether a line feed is
-- escaped.
unfoldable pub escape_entry : Bool → ℕ → Bytes → Bytes → Bytes
escape_entry lines size out [] = out
escape_entry lines size out (c ∷ s) =
    let quoted : Bytes =
      if c == b'"' || c == b'\\'
      then b'\\' ∷ c ∷ []
      else if lines && c == 10
      then b'\\' ∷ b'n' ∷ []
      else c ∷ [] in
    let rest = escape_entry lines size (out ++ quoted) s in
    if ltb (length out + 5) size then rest else out

-- The text of an entry.
unfoldable pub entry_text : ToolHistoryEntry → Bytes
entry_text e =
    codes "{\"tool\":\""
    ++ (escape_entry false 128 [] e.tool_name
        ++ (codes "\",\"args\":\""
            ++ (escape_entry true 160 [] e.args
                ++ (codes "\",\"status\":\"" ++ (tool_status_to_string e.status ++ codes "\"}")))))

-- The loop over the entries.
unfoldable pub put_entries : Bool → List ToolHistoryEntry → Buffer → Buffer
put_entries first [] b = b
put_entries first (e ∷ es) b =
    let rest = put_entries false es (put (entry_text e) (if first then b else put (codes ",") b)) in
    if ltb (b.off + 512) b.alloc then rest else b

-- `tool_history_build_json`: the last twelve entries, after a note on those that are left out.
unfoldable pub tool_history_build_json : History → Buffer
tool_history_build_json h =
    let start = length h.entries - 12 in
    let opened = put (codes "[") (fresh (limit_of h.limit * 1024 + 512)) in
    let noted =
      if ltb 0 (h.dropped + start) && ltb 0 (length h.entries)
      then put
          (codes "{\"truncated\":true,\"dropped\":"
            ++ (show_int (pos (h.dropped + start)) ++ codes "},"))
          opened
      else opened in
    put (codes "]") (put_entries true (drop start h.entries) noted)
