-- ===== src/Native/Fields.antt =====
-- The sizes of the fields that the parser of native frames reads.
use star_bridge.Base.{
  ℕ, ◌+◌, ◌-◌, ◌==◌, ◌<◌, ◌≤◌, Option, none, some, [], ◌∷◌, Bytes, length, take, length-take, codes,
  is_empty, copy_bounded, if◌then◌else◌, if-both, arith,
}
use star_bridge.Native.{
  CJson, json_get_string, json_get_object, text_of, extract_tool_from_obj, arguments_of, behind,
  cut_object, usage_of,
}

length-copy_bounded : (size : ℕ) (s : Bytes) → 0 < size → length (copy_bounded size s) < size
length-copy_bounded size s h = omega (arith, length-take (size - 1) s)

abbrev pub Below : ℕ → Bytes → Type 0
Below size s = length s < size

length-cut_object : (depth : ℕ) (s : Bytes) → length (cut_object depth s) ≤ length s
unfolding cut_object
length-cut_object depth [] = omega arith
length-cut_object depth (c ∷ s) =
    let next : ℕ = if c == b'{' then depth + 1 else if c == b'}' then depth - 1 else depth in
    if-both (λ (t : Bytes). length t ≤ length (c ∷ s)) (next == 0) (omega arith)
      (omega (arith, length-cut_object next s))

module _ {Item : Type 0} (J : CJson Item) where
  pub length-json_get_string :
      (obj : Item) (field : Bytes) (size : ℕ) (dest : Bytes) (bound : ℕ)
      → size ≤ bound
      → 0 < size
      → length dest < bound
      → length (json_get_string J obj field size dest) < bound
  unfolding json_get_string
  length-json_get_string obj field size dest bound le h d = go (J.get_object_item obj field)
    where
      got :
          (o : Option Bytes)
          → length (let r : Bytes = elim o [ none ↦ dest | some s ↦ copy_bounded size s ] in r)
            < bound
      got none = d
      got (some s) = omega (arith, length-copy_bounded size s h)

      go :
          (o : Option Item)
          → length (
              let r : Bytes = elim o [
                | none ↦ dest
                | some item ↦ elim (J.string_value item) [
                  | none ↦ dest
                  | some s ↦ copy_bounded size s
                ]
              ] in
              r)
            < bound
      go none = d
      go (some item) = got (J.string_value item)

  pub length-text_of :
      (obj : Item) (field other : Bytes) (size : ℕ)
      → 0 < size
      → length (text_of J obj field other size) < size
  unfolding text_of
  length-text_of obj field other size h =
      let first = length-json_get_string obj field size [] size (omega arith) h (omega arith) in
      if-both (Below size) (is_empty (json_get_string J obj field size []))
        (length-json_get_string obj other size _ size (omega arith) h first) first

  pub length-extract_tool_from_obj :
      (stale : Bytes) (obj : Item)
      → (length (extract_tool_from_obj J stale obj).0 < 128)
        × (length (extract_tool_from_obj J stale obj).1 < 4096)
  unfolding extract_tool_from_obj
  length-extract_tool_from_obj stale obj = go (json_get_object J obj (codes "tool"))
    where
      go :
          (o : Option Item)
          → (let r : Bytes × Bytes = elim o [
            | none ↦ ([], [])
            | some tool ↦
                let args = json_get_string J tool (codes "args") 4096 stale in
                let input = json_get_string J tool (codes "input") 4096 args in
                (
                  json_get_string J tool (codes "name") 128 [],
                  if is_empty args then copy_bounded 4096 input else copy_bounded 4096 args,
                )
          ] in
              Below 128 r.0 × Below 4096 r.1)
      go none = (omega arith, omega arith)
      go (some tool) = (
        length-json_get_string tool (codes "name") 128 [] 128 (omega arith) (omega arith)
            (omega arith),
        if-both (Below 4096) (is_empty (json_get_string J tool (codes "args") 4096 stale))
            (length-copy_bounded 4096 _ (omega arith)) (length-copy_bounded 4096 _ (omega arith)),
      )

  pub length-arguments_of :
      (intent : Item) (dest : Bytes) → Below 4096 dest → Below 4096 (arguments_of J intent dest)
  unfolding arguments_of
  length-arguments_of intent dest h = go (J.get_object_item intent (codes "arguments"))
    where
      printed :
          (o : Option Bytes)
          → Below 4096 (elim o [ none ↦ dest | some raw ↦ copy_bounded 4096 raw ])
      printed none = h
      printed (some raw) = length-copy_bounded 4096 raw (omega arith)

      shown :
          (item : Item) (o : Option Bytes)
          → Below 4096 (elim o [
            | some s ↦ copy_bounded 4096 s
            | none ↦ elim (J.print_unformatted item) [
              | none ↦ dest
              | some raw ↦ copy_bounded 4096 raw
            ]
          ])
      shown item none = printed (J.print_unformatted item)
      shown item (some s) = length-copy_bounded 4096 s (omega arith)

      go :
          (o : Option Item)
          → Below 4096 (elim o [
            | none ↦ dest
            | some item ↦ elim (J.string_value item) [
              | some s ↦ copy_bounded 4096 s
              | none ↦ elim (J.print_unformatted item) [
                | none ↦ dest
                | some raw ↦ copy_bounded 4096 raw
              ]
            ]
          ])
      go none = h
      go (some item) = shown item (J.string_value item)

  pub length-field :
      (obj : Item) (field : Bytes) (size : ℕ)
      → 0 < size
      → Below size (json_get_string J obj field size [])
  length-field obj field size h = length-json_get_string obj field size [] size (omega arith) h h

  pub length-usage_of : (stale frame : Bytes) (obj : Item) → Below 4096 (usage_of J stale frame obj)
  unfolding usage_of
  length-usage_of stale frame obj = go (json_get_object J obj (codes "usage"))
    where
      ubuf : Bytes
      ubuf = json_get_string J obj (codes "usage") 4096 stale

      found :
          (o : Option Bytes)
          → Below 4096 (
              let r : Bytes = elim o [ none ↦ [] | some rest ↦ cut_object 1 (take 4095 rest) ] in r)
      found none = omega arith
      found (some rest) = omega (arith, length-cut_object 1 (take 4095 rest), length-take 4095 rest)

      go :
          (o : Option Item)
          → Below 4096 (elim o [
            | none ↦ []
            | some usage ↦
                let copied : Bytes = elim (behind (codes "\"usage\":") frame) [
                  | none ↦ []
                  | some rest ↦ cut_object 1 (take 4095 rest)
                ] in
                if is_empty ubuf then copied else copy_bounded 4096 ubuf
          ])
      go none = omega arith
      go (some usage) =
          if-both (Below 4096) (is_empty ubuf) (found (behind (codes "\"usage\":") frame))
            (length-copy_bounded 4096 ubuf (omega arith))
