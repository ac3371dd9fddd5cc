-- ===== src/Stream/Within.antt =====
-- A stream within its arrays and buffers, and the operations that start an item or a part.
use star_bridge.Base.{
  ℕ, ◌+◌, ◌<◌, ◌≡◌, refl, false, Option, none, some, [], ◌∷◌, ◌++◌, Bytes, arith, length, get_or,
  All-append, length-append, length-take, leb, take, Bool-cases, Option-cases, inl, inr,
}
use star_bridge.Stream.State.{
  ContentPartType, ContentPart, output_text, reasoning_summary, function_call, blank_part,
  blank_item, Stream, Event, max_output_items, max_content_parts,
}
use star_bridge.Stream.Ops.{
  emit, beat, Result, with_part, part_at, set_part, start_item, add_part, start_part, set_name,
}
use star_bridge.Stream.Fits.{
  PartFits, ItemsFit, ItemFits, part_at-PartFits, set_part-ItemsFit, append-ItemsFit,
  blank_item-ItemFits,
}

unfoldable pub NamesFit : Bytes → Bytes → Bytes → Type 0
NamesFit id model error_message =
    (length id < 64) × (length model < 128) × (length error_message < 256)

-- What stands in the arrays and buffers is within their sizes.
unfoldable pub IsWithin : Stream → Type 0
IsWithin s = ItemsFit s.items s.cur_item s.cur_part × NamesFit s.id s.model s.error_message

pub start_item-IsWithin : (s : Stream) → IsWithin s → IsWithin (start_item s).0
unfolding IsWithin start_item ItemsFit
start_item-IsWithin s ((n, a, c), h) = elim (Bool-cases (leb max_output_items (length s.items))) [
  | inl full ↦ rw full ((n, a, c), h)
  | inr room ↦
      let len : length (s.items ++ (blank_item ∷ [])) ≡ length s.items + 1 =
        length-append s.items (blank_item ∷ []) in
      rw room (
        (
          (ground (arith, len, room)),
          All-append ItemFits s.items (blank_item ∷ []) a (blank_item-ItemFits, tt),
          (omega (arith, len), tt),
        ),
        h,
      )
]

add_part-IsWithin :
    (kind : ContentPartType) (s : Stream) → IsWithin s → IsWithin (add_part kind s).0
unfolding IsWithin add_part PartFits
add_part-IsWithin kind s (f, h) = elim (Option-cases s.cur_item) [
  | inl e ↦ rw e (rw e at f, h)
  | inr (i, e) ↦ elim (Bool-cases (leb (length s.items) i)) [
    | inl over ↦ rw (e, over) (rw e at f, h)
    | inr here ↦
        elim (Bool-cases (leb max_content_parts (length (get_or s.items i blank_item).parts))) [
          | inl full ↦ rw (e, here, full) (rw e at f, h)
          | inr room ↦
              rw (e, here, room)
                (
                  append-ItemsFit s.items i s.cur_part
                      (record blank_part { kind = kind; seq_start = s.sequence_number }) (rw e at f)
                      (omega arith, omega arith, omega arith) (ground arith),
                  h,
                )
        ]
  ]
]

pub emit-IsWithin : (event : ℕ → Event) (s : Stream) → IsWithin s → IsWithin (emit event s)
unfolding IsWithin
emit-IsWithin event s w = w

beat-IsWithin : (s : Stream) → IsWithin s → IsWithin (beat s)
unfolding IsWithin
beat-IsWithin s w = w

-- To follow a function that needs a current item and part.
cursor-cases :
    (s : Stream) (c d : Option ℕ)
    → s.cur_item ≡ c
    → s.cur_part ≡ d
    → (body : ℕ → ℕ → Stream) → IsWithin s
    → ((i p : ℕ) → s.cur_item ≡ some i → s.cur_part ≡ some p → IsWithin (body i p))
    → IsWithin (elim c [ none ↦ s | some i ↦ elim d [ none ↦ s | some p ↦ body i p ] ])
cursor-cases s none d e e' body w h = w
cursor-cases s (some i) none e e' body w h = w
cursor-cases s (some i) (some p) e e' body w h = h i p e e'

pub with_part-IsWithin :
    (s : Stream) (body : ℕ → ℕ → Result)
    → IsWithin s
    → ((i p : ℕ) → s.cur_item ≡ some i → s.cur_part ≡ some p → IsWithin (body i p).0)
    → IsWithin (with_part s body).0
with_part-IsWithin s body w h = go s.cur_item s.cur_part refl refl
  where
    go :
        (c d : Option ℕ)
        → s.cur_item ≡ c
        → s.cur_part ≡ d
        → IsWithin (
            let r : Result = elim c [
              | none ↦ (s, false)
              | some i ↦ elim d [ none ↦ (s, false) | some p ↦ body i p ]
            ] in
            r.0)
    go none d e e' = w
    go (some i) none e e' = w
    go (some i) (some p) e e' = h i p e e'

pub set_part-IsWithin :
    (s : Stream) (i p : ℕ) (part : ContentPart)
    → IsWithin s
    → s.cur_item ≡ some i
    → s.cur_part ≡ some p
    → PartFits part
    → IsWithin (set_part s i p part)
unfolding IsWithin
set_part-IsWithin s i p part (f, h) e e' fits =
    let g : ItemsFit s.items (some i) (some p) = rw e' at (rw e at f) in
    (rw (e, e') (set_part-ItemsFit s.items i p part g fits), h)

-- The current part fits.
pub current-PartFits : (s : Stream) (i p : ℕ) → IsWithin s → PartFits (part_at s i p)
unfolding IsWithin ItemsFit
current-PartFits s i p (f, h) = part_at-PartFits s.items i p f.1

name-IsWithin :
    (n : Bytes) (s : Stream) (i p : ℕ)
    → IsWithin s
    → s.cur_item ≡ some i
    → s.cur_part ≡ some p
    → IsWithin (set_part s i p (record (part_at s i p) { name = take 63 n }))
unfolding PartFits
name-IsWithin n s i p w e e' =
    let fits : PartFits (part_at s i p) = current-PartFits s i p w in
    set_part-IsWithin s i p (record (part_at s i p) { name = take 63 n }) w e e'
      (fits.0, fits.1, omega (arith, length-take 63 n))

set_name-IsWithin :
    (kind : ContentPartType) (name : Option Bytes) (s : Stream)
    → IsWithin s
    → IsWithin (set_name kind name s)
unfolding set_name
set_name-IsWithin function_call (some n) s w =
    cursor-cases s s.cur_item s.cur_part refl refl
      (λ i p. set_part s i p (record (part_at s i p) { name = take 63 n })) w
      (λ i p. name-IsWithin n s i p w)
set_name-IsWithin function_call none s w = w
set_name-IsWithin output_text name s w = w
set_name-IsWithin reasoning_summary name s w = w

pub start_part-IsWithin :
    (kind : ContentPartType) (name : Option Bytes) (s : Stream)
    → IsWithin s
    → IsWithin (start_part kind name s).0
unfolding start_part
start_part-IsWithin kind name s w =
    let w' : IsWithin (add_part kind s).0 = add_part-IsWithin kind s w in
    elim (Bool-cases (add_part kind s).1) [
      | inl ok ↦ rw ok (set_name-IsWithin kind name (add_part kind s).0 w')
      | inr e ↦ rw e w'
    ]
