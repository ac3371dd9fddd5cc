-- ===== src/Stream/Fits.antt =====
-- The bounds of the items of a stream, and what each change of an item does to them.
use mathlib.Core.Path.{subst}
use star_bridge.Base.{
  ℕ, ◌+◌, ◌<◌, ◌≤◌, ◌≡◌, sym, true, Option, none, some, List, [], ◌∷◌, ◌++◌, Bytes, arith, length,
  get_or, set, All, All-append, All-set, All-get_or, length-set, length-append, get_or-set_self,
}
use star_bridge.Stream.State.{
  ContentPart, blank_part, OutputItem, blank_item, text_size, max_output_items, max_content_parts,
}
use star_bridge.Stream.Ops.{accumulate}

-- The strings of a part fit in their buffers, with the terminator.
unfoldable pub PartFits : ContentPart → Type 0
PartFits part =
    (length part.text < text_size) × (length part.arguments < text_size) × (length part.name < 64)

unfoldable pub ItemFits : OutputItem → Type 0
ItemFits item = (length item.parts ≤ max_content_parts) × All PartFits item.parts

-- The current part, if any, is one of the item's.
abbrev PartCursor : Option ℕ → OutputItem → Type 0
PartCursor none item = Unit {0}
PartCursor (some p) item = p < length item.parts

-- The current item is one of the items and the current part is one of its parts.
abbrev pub CursorFits : List OutputItem → Option ℕ → Option ℕ → Type 0
CursorFits items none none = Unit {0}
CursorFits items none (some p) = ⊥
CursorFits items (some i) q = (i < length items) × PartCursor q (get_or items i blank_item)

unfoldable pub ItemsFit : List OutputItem → Option ℕ → Option ℕ → Type 0
ItemsFit items cur_item cur_part =
    (length items ≤ max_output_items) × All ItemFits items × CursorFits items cur_item cur_part

pub length-accumulate :
    (current delta : Bytes)
    → length current < text_size
    → length (accumulate current delta) < text_size
unfolding accumulate
length-accumulate current delta h = ground (arith, length-append current delta)

blank_part-PartFits : PartFits blank_part
unfolding PartFits
blank_part-PartFits = (omega arith, omega arith, omega arith)

pub blank_item-ItemFits : ItemFits blank_item
unfolding ItemFits
blank_item-ItemFits = (omega arith, tt)

pub part_at-PartFits :
    (items : List OutputItem) (i p : ℕ)
    → All ItemFits items
    → PartFits (get_or (get_or items i blank_item).parts p blank_part)
unfolding ItemFits
part_at-PartFits items i p a =
    let fits : ItemFits (get_or items i blank_item) =
      All-get_or ItemFits items i blank_item a blank_item-ItemFits in
    All-get_or PartFits (get_or items i blank_item).parts p blank_part fits.1 blank_part-PartFits

-- Replacing the current item by one that fits.
set-ItemsFit :
    (items : List OutputItem) (i : ℕ) (q q' : Option ℕ) (item' : OutputItem)
    → ItemsFit items (some i) q
    → ItemFits item'
    → PartCursor q' item'
    → ItemsFit (set items i item') (some i) q'
unfolding ItemsFit
set-ItemsFit items i q q' item' (n, a, (hi, c)) fits c' =
    let len : length (set items i item') ≡ length items = length-set items i item' in
    (
      omega (arith, len),
      All-set ItemFits items i item' a fits,
      (
        omega (arith, len),
        subst (PartCursor q') (sym (get_or-set_self items i item' blank_item hi)) c',
      ),
    )

-- Replacing the current part by one that fits.
pub set_part-ItemsFit :
    (items : List OutputItem) (i p : ℕ) (part : ContentPart)
    → ItemsFit items (some i) (some p)
    → PartFits part
    → ItemsFit
        (set items i (record (get_or items i blank_item) {
          parts = set (get_or items i blank_item).parts p part;
        }))
        (some i)
        (some p)
unfolding ItemsFit ItemFits
set_part-ItemsFit items i p part (n, a, (hi, hp)) fits =
    let item : OutputItem = get_or items i blank_item in
    let old : ItemFits item = All-get_or ItemFits items i blank_item a blank_item-ItemFits in
    let len : length (set item.parts p part) ≡ length item.parts = length-set item.parts p part in
    set-ItemsFit items i (some p) (some p) (record item { parts = set item.parts p part })
      (n, a, (hi, hp)) (omega (arith, len, old.0), All-set PartFits item.parts p part old.1 fits)
      (omega (arith, len, hp))

-- A part more in the current item, if there is room.
pub append-ItemsFit :
    (items : List OutputItem) (i : ℕ) (q : Option ℕ) (part : ContentPart)
    → ItemsFit items (some i) q
    → PartFits part
    → length (get_or items i blank_item).parts < max_content_parts
    → ItemsFit
        (set items i (record (get_or items i blank_item) {
          parts = (get_or items i blank_item).parts ++ (part ∷ []);
        }))
        (some i)
        (some (length (get_or items i blank_item).parts))
unfolding ItemsFit ItemFits
append-ItemsFit items i q part (n, a, c) fits room =
    let item : OutputItem = get_or items i blank_item in
    let old : ItemFits item = All-get_or ItemFits items i blank_item a blank_item-ItemFits in
    let len : length (item.parts ++ (part ∷ [])) ≡ length item.parts + 1 =
      length-append item.parts (part ∷ []) in
    set-ItemsFit items i q (some (length item.parts))
      (record item { parts = item.parts ++ (part ∷ []) }) (n, a, c)
      (omega (arith, len, room), All-append PartFits item.parts (part ∷ []) old.1 (fits, tt))
      (omega (arith, len))

PartCursor-done :
    (q : Option ℕ) (item : OutputItem)
    → PartCursor q item
    → PartCursor q (record item { completed = true })
PartCursor-done none item c = c
PartCursor-done (some p) item c = c

pub item_done-ItemsFit :
    (items : List OutputItem) (i : ℕ) (q : Option ℕ)
    → ItemsFit items (some i) q
    → ItemsFit (set items i (record (get_or items i blank_item) { completed = true })) (some i) q
unfolding ItemsFit ItemFits
item_done-ItemsFit items i q (n, a, (hi, c)) =
    let old : ItemFits (get_or items i blank_item) =
      All-get_or ItemFits items i blank_item a blank_item-ItemFits in
    set-ItemsFit items i q q (record (get_or items i blank_item) { completed = true })
      (n, a, (hi, c)) old (PartCursor-done q (get_or items i blank_item) c)
