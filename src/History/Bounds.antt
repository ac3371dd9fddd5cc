-- ===== src/History/Bounds.antt =====
-- The sizes of the text and of the entries.
use star_bridge.Base.{
  ℕ, ◌+◌, ◌-◌, ◌<◌, ◌≤◌, Option, none, some, [], ◌∷◌, ◌++◌, arith, Bytes, length, drop,
  length-append, length-drop, length-take, Bool-cases, inl, inr, leb, copy_bounded,
}
use star_bridge.History.{
  ToolHistoryEntry, History, history_size, max_history_entries, no_history, make_room, entry_of,
  limit_of, add_entry, tool_history_append,
}
use star_bridge.History.Window.{make_room-take_right, length-take_right, limit_of-positive}

-- The text and the entries are within their arrays.
pub IsBounded : History → Type 0
IsBounded h = (length h.text < history_size) × (length h.entries ≤ max_history_entries)

make_room-length :
    (text line : Bytes)
    → length text < history_size
    → length line + 1 < history_size
    → length (make_room text (length line) ++ line) < history_size
make_room-length text line h h' =
    rw (make_room-take_right text line (omega arith) (omega arith))
      (omega (arith, length-take_right 2047 (text ++ line)))

add_entry-IsBounded :
    (h : History) (added : Option ToolHistoryEntry)
    → 0 < h.limit
    → h.limit ≤ max_history_entries
    → IsBounded h
    → IsBounded (add_entry h added)
unfolding IsBounded add_entry
add_entry-IsBounded h none pos le b = b
add_entry-IsBounded h (some entry) pos le (t, n) =
    let evict : ℕ = length h.entries + 1 - h.limit in
    ground (
      arith,
      length-drop evict h.entries,
      length-append (drop evict h.entries) (entry ∷ []),
      length-append h.entries (entry ∷ []),
    )

long-IsBounded :
    (line : Bytes) (h : History)
    → IsBounded h
    → IsBounded (record h { text = copy_bounded history_size line })
unfolding IsBounded
long-IsBounded line h (t, n) = (omega (arith, length-take 2047 line), n)

kept-IsBounded :
    (line : Bytes) (h : History) (limit : ℕ)
    → IsBounded h
    → length line + 1 < history_size
    → IsBounded (record h { text = make_room h.text (length line) ++ line; limit = limit })
unfolding IsBounded
kept-IsBounded line h limit (t, n) less = (make_room-length h.text line t less, n)

limit_of-le : (configured : ℕ) → limit_of configured ≤ max_history_entries
unfolding limit_of
limit_of-le configured = ground arith

-- Appending any line, under any configured number of entries, keeps the text below 2048 bytes and
-- the entries at most 64.
pub tool_history_append-IsBounded :
    (configured : ℕ) (line : Bytes) (h : History)
    → IsBounded h
    → IsBounded (tool_history_append configured line h)
unfolding tool_history_append
tool_history_append-IsBounded configured [] h b = b
tool_history_append-IsBounded configured (c ∷ line) h b =
    elim (Bool-cases (leb history_size (length (c ∷ line) + 1))) [
      | inl long ↦ rw long (long-IsBounded (c ∷ line) h b)
      | inr short ↦
          let less : length (c ∷ line) + 1 < history_size = ground arith in
          rw short (
            add_entry-IsBounded _ (entry_of (c ∷ line)) (limit_of-positive configured)
              (limit_of-le configured) (kept-IsBounded (c ∷ line) h (limit_of configured) b less))
    ]

pub no_history-IsBounded : IsBounded no_history
unfolding IsBounded
no_history-IsBounded = (omega arith, omega arith)
