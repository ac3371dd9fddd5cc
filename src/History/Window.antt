-- ===== src/History/Window.antt =====
-- The history as a window on all that was appended.
use star_bridge.Base.{
  ℕ, ◌+◌, ◌-◌, ◌<◌, ◌≤◌, ◌≡◌, refl, ap, sym, ◌∙◌, false, Option, none, some, List, [], ◌∷◌, ◌++◌,
  arith, Bytes, length, drop, All, take_right, take_right-append, take_right_all, length-append,
  length-drop, drop-append, drop-nil, append_assoc, append-nil, Bool-cases, inl, inr, leb, leb→le,
}
use star_bridge.History.{
  ToolHistoryEntry, History, history_size, make_room, entry_of, limit_of, add_entry, cut_space,
  tool_history_append, append_lines, tool_history_reset,
}

-- A line that the text has room for.
abbrev pub IsShort : Bytes → Type 0
IsShort line = length line < 2047

-- The lines one after the other.
pub join : List Bytes → Bytes
join [] = []
join (line ∷ lines) = line ++ join lines

abbrev pub entry_list : Option ToolHistoryEntry → List ToolHistoryEntry
entry_list none = []
entry_list (some entry) = entry ∷ []

-- The entries of the lines that have one.
pub parsed : List Bytes → List ToolHistoryEntry
parsed [] = []
parsed (line ∷ lines) = entry_list (entry_of line) ++ parsed lines

-- The history is the window on `text` and `entries`, all that was appended.
pub record IsWindow (configured : ℕ) (h : History) (text : Bytes) (entries : List ToolHistoryEntry)
    : Type 0 where
  pub text_kept : h.text ≡ take_right 2047 text
  pub entries_kept : h.entries ≡ take_right (limit_of configured) entries
  pub counted : h.dropped + length h.entries ≡ length entries

pub make_room-take_right :
    (text line : Bytes)
    → length text ≤ 2047
    → length line < 2047
    → make_room text (length line) ++ line ≡ take_right 2047 (text ++ line)
unfolding make_room
make_room-take_right text line h h' =
    elim (Bool-cases (leb history_size (length text + length line + 1))) [
      | inl full ↦
          let drop_count : ℕ = length text + length line + 1 - history_size in
          let over : history_size ≤ length text + length line + 1 = leb→le _ _ full in
          let less : leb (length text) drop_count ≡ false = ground arith in
          rw (full, less)
            (sym (drop-append drop_count text line (omega (arith, over)))
              ∙ ap (λ n. drop n (text ++ line)) (omega (arith, length-append text line, over)))
      | inr room ↦
          let under : length text + length line + 1 < history_size = ground arith in
          rw room (
            sym
              (take_right_all 2047 (text ++ line) (omega (arith, length-append text line, under))))
    ]

pub length-take_right : (n : ℕ) (text : Bytes) → length (take_right n text) ≤ n
length-take_right n text = omega (arith, length-drop (length text - n) text)

-- The text after a short line.
text-IsWindow :
    (kept text line : Bytes)
    → kept ≡ take_right 2047 text
    → IsShort line
    → make_room kept (length line) ++ line ≡ take_right 2047 (text ++ line)
text-IsWindow kept text line e h =
    make_room-take_right kept line (rw e (length-take_right 2047 text)) h
    ∙ ap (λ t. take_right 2047 (t ++ line)) e
    ∙ take_right-append 2047 text line

-- One entry more in a window of the last `n`.
module _ {ℓ} {A : Type ℓ} where
  push :
      (n : ℕ) (kept all : List A) (entry : A)
      → 0 < n
      → kept ≡ take_right n all
      → drop (length kept + 1 - n) kept ++ (entry ∷ []) ≡ take_right n (all ++ (entry ∷ []))
  push n kept all entry pos e =
      sym (drop-append (length kept + 1 - n) kept (entry ∷ []) (omega (arith, pos)))
      ∙ ap (λ k. drop k (kept ++ (entry ∷ []))) (omega (arith, length-append kept (entry ∷ [])))
      ∙ ap (λ k. take_right n (k ++ (entry ∷ []))) e
      ∙ take_right-append n all (entry ∷ [])

-- `add_entry` is a push in both branches.
add_entry-entries :
    (h : History) (entry : ToolHistoryEntry)
    → ((add_entry h (some entry)).entries
        ≡ drop (length h.entries + 1 - h.limit) h.entries ++ (entry ∷ []))
      × ((add_entry h (some entry)).dropped ≡ h.dropped + (length h.entries + 1 - h.limit))
unfolding add_entry
add_entry-entries h entry = elim (Bool-cases (leb h.limit (length h.entries))) [
  | inl full ↦ rw full (refl, refl)
  | inr room ↦
      let none_out : length h.entries + 1 - h.limit ≡ 0 = ground arith in
      rw (room, none_out) (refl, omega arith)
]

pub limit_of-positive : (configured : ℕ) → 0 < limit_of configured
unfolding limit_of
limit_of-positive configured = ground arith

add_entry-text : (h : History) (entry : ToolHistoryEntry) → (add_entry h (some entry)).text ≡ h.text
unfolding add_entry
add_entry-text h entry = ground arith

-- What `add_entry` does to a window, for a line with an entry and for one without.
add_entry-IsWindow :
    (configured : ℕ) (h : History) (text : Bytes) (entries : List ToolHistoryEntry)
    (added : Option ToolHistoryEntry)
    → h.limit ≡ limit_of configured
    → IsWindow configured h text entries
    → IsWindow configured (add_entry h added) text (entries ++ entry_list added)
unfolding add_entry
add_entry-IsWindow configured h text entries none e w = rw (append-nil entries) w
add_entry-IsWindow configured h text entries (some entry) e w =
    let (kept, out) = add_entry-entries h entry in
    let pos : 0 < h.limit = rw e (limit_of-positive configured) in
    let count : length (drop (length h.entries + 1 - h.limit) h.entries)
        ≡ length h.entries - (length h.entries + 1 - h.limit) =
      length-drop (length h.entries + 1 - h.limit) h.entries in
    let grown : length (drop (length h.entries + 1 - h.limit) h.entries ++ (entry ∷ []))
        ≡ length (drop (length h.entries + 1 - h.limit) h.entries) + 1 =
      length-append (drop (length h.entries + 1 - h.limit) h.entries) (entry ∷ []) in
    let grown' : length (entries ++ (entry ∷ [])) ≡ length entries + 1 =
      length-append entries (entry ∷ []) in
    record {
      text_kept = add_entry-text h entry ∙ w.text_kept;
      entries_kept =
          kept
          ∙ push h.limit h.entries entries entry pos (rw e w.entries_kept)
          ∙ ap (λ n. take_right n (entries ++ (entry ∷ []))) e;
      counted = omega (arith, out, ap length kept, count, grown, grown', w.counted, pos);
    }

entry_of-nil : entry_of [] ≡ none
unfolding entry_of cut_space
entry_of-nil = refl

-- A short line appended to a window.
append-IsWindow :
    (configured : ℕ) (h : History) (text : Bytes) (entries : List ToolHistoryEntry) (line : Bytes)
    → IsWindow configured h text entries
    → IsShort line
    → IsWindow configured
        (tool_history_append configured line h)
        (text ++ line)
        (entries ++ entry_list (entry_of line))
unfolding tool_history_append
append-IsWindow configured h text entries [] w short =
    rw (append-nil text, entry_of-nil, append-nil entries) w
append-IsWindow configured h text entries (c ∷ line) w short =
    let fits : leb history_size (length (c ∷ line) + 1) ≡ false = ground arith in
    let kept : History = record h {
      text = make_room h.text (length (c ∷ line)) ++ (c ∷ line);
      limit = limit_of configured;
    } in
    let window : IsWindow configured kept (text ++ (c ∷ line)) entries = record {
      text_kept = text-IsWindow h.text text (c ∷ line) w.text_kept short;
      entries_kept = w.entries_kept;
      counted = w.counted;
    } in
    rw fits (
      add_entry-IsWindow configured kept (text ++ (c ∷ line)) entries (entry_of (c ∷ line)) refl
        window)

lines-IsWindow :
    (configured : ℕ) (lines : List Bytes) (h : History) (text : Bytes)
    (entries : List ToolHistoryEntry)
    → IsWindow configured h text entries
    → All IsShort lines
    → IsWindow configured
        (append_lines configured lines h)
        (text ++ join lines)
        (entries ++ parsed lines)
unfolding append_lines join parsed
lines-IsWindow configured [] h text entries w short = rw (append-nil text, append-nil entries) w
lines-IsWindow configured (line ∷ lines) h text entries w (short, rest) =
    rw
      (
        ← append_assoc text line (join lines),
        ← append_assoc entries (entry_list (entry_of line)) (parsed lines),
      )
      (lines-IsWindow configured lines (tool_history_append configured line h) (text ++ line)
        (entries ++ entry_list (entry_of line))
        (append-IsWindow configured h text entries line w short) rest)

-- After a reset, lines of fewer than 2047 bytes appended under one configured number of entries
-- leave the last 2047 bytes of all of them as the text and the last entries as the entries, as many
-- as the configured number allows; and the entries that were dropped are counted.
pub append_lines-IsWindow :
    (configured : ℕ) (lines : List Bytes) (h : History)
    → All IsShort lines
    → IsWindow configured
        (append_lines configured lines (tool_history_reset h))
        (join lines)
        (parsed lines)
unfolding tool_history_reset
append_lines-IsWindow configured lines h short =
    lines-IsWindow configured lines (tool_history_reset h) [] []
      (record {
        text_kept = refl;
        entries_kept = sym (drop-nil (0 - limit_of configured));
        counted = omega arith;
      })
      short
