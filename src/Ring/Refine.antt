-- ===== src/Ring/Refine.antt =====
-- A ring of capacity c is a log that keeps its last c - 1 bytes.
use star_bridge.Base.{
  ℕ, suc, ◌+◌, ◌-◌, ◌%◌, ◌^◌, ◌≤◌, ◌<◌, ◌≡◌, refl, ap, ◌∙◌, sym, [], ◌∷◌, ◌++◌, arith, Bytes,
  length, take, drop, take_right, take_all, drop_all, take_right_all, take_right-append,
  length-append, length-set, set, append-nil, append_assoc, ◌==◌, false,
}
use star_bridge.Ring.{Ring, put_byte, put_bytes, ring_append, ring_read, ring_available}
use star_bridge.Ring.Window.{
  window, length-window, window-set, window_cong, drop-window, copy_out-window,
}

-- One slot always stays free.
pub record IsValid (r : Ring) : Type 0 where
  pub capacity_pos : 0 < r.capacity
  pub storage : r.capacity ≤ length r.buffer
  pub ordered : r.tail ≤ r.head
  pub not_full : r.head - r.tail < r.capacity
  pub bounded : r.head < 2 ^ 64
  pub small : r.capacity < 2 ^ 64

-- The unread bytes, oldest first.
abbrev pub contents : Ring → Bytes
contents r = window r.buffer r.capacity r.tail (r.head - r.tail)

length-contents : (r : Ring) → length (contents r) ≡ r.head - r.tail
length-contents r = length-window r.buffer r.capacity r.tail (r.head - r.tail)

put_byte-IsValid : {r : Ring} (x : ℕ) → IsValid r → r.head + 1 < 2 ^ 64 → IsValid (put_byte r x)
unfolding put_byte
put_byte-IsValid {r} x v h = ground (arith, length-set r.buffer (r.head % r.capacity) x)

-- The positions and the storage after a byte.
put_byte-head : (r : Ring) (x : ℕ) → r.head + 1 < 2 ^ 64 → (put_byte r x).head ≡ r.head + 1
unfolding put_byte
put_byte-head r x h = omega arith

put_byte-contents :
    {r : Ring} (x : ℕ)
    → IsValid r
    → r.head + 1 < 2 ^ 64
    → contents (put_byte r x) ≡ take_right (r.capacity - 1) (contents r ++ (x ∷ []))
unfolding put_byte
put_byte-contents {r} x v h =
    window_cong stored capacity {at' = tail + extra} {n' = suc used - extra} (ground arith)
      (ground arith)
    ∙ sym (drop-window stored capacity tail (suc used) extra)
    ∙ ap (drop extra)
        (window-set buffer capacity x used tail (head % capacity) v.storage v.not_full slot)
    ∙ ap (λ (m : ℕ). drop (m - (capacity - 1)) (contents r ++ (x ∷ []))) count
  where
    open r use {buffer, capacity, head, tail}

    stored : Bytes
    stored = set buffer (head % capacity) x

    used : ℕ
    used = head - tail

    extra : ℕ
    extra = suc used - (capacity - 1)

    slot : head % capacity ≡ (tail + used) % capacity
    slot = ap (λ (k : ℕ). k % capacity) (omega (arith, v))

    count : suc used ≡ length (contents r ++ (x ∷ []))
    count = omega (arith, length-append (contents r) (x ∷ []), length-contents r)

capacity-put_byte : (r : Ring) (x : ℕ) → (put_byte r x).capacity ≡ r.capacity
unfolding put_byte
capacity-put_byte r x = refl

put_bytes-contents :
    (r : Ring) (bytes : Bytes)
    → IsValid r
    → r.head + length bytes < 2 ^ 64
    → IsValid (put_bytes r bytes)
      × ((put_bytes r bytes).head ≡ r.head + length bytes)
      × (contents (put_bytes r bytes) ≡ take_right (r.capacity - 1) (contents r ++ bytes))
unfolding put_bytes
put_bytes-contents r [] v h = (
  v,
  omega arith,
  sym (
      ap (take_right (r.capacity - 1)) (append-nil (contents r))
      ∙ take_right_all (r.capacity - 1) (contents r) (omega (arith, length-contents r))),
)
put_bytes-contents r (x ∷ bytes) v h =
    let valid = put_byte-IsValid x v (omega arith) in
    let rest = put_bytes-contents (put_byte r x) bytes valid (omega (arith, put_byte-head r x)) in
    (
      rest.0,
      omega (arith, put_byte-head r x),
      rest.2
          ∙ ap (λ (c : ℕ). take_right (c - 1) (contents (put_byte r x) ++ bytes))
              (capacity-put_byte r x)
          ∙ ap (λ (old : Bytes). take_right (r.capacity - 1) (old ++ bytes))
              (put_byte-contents x v (omega arith))
          ∙ take_right-append (r.capacity - 1) (contents r ++ (x ∷ [])) bytes
          ∙ ap (take_right (r.capacity - 1)) (append_assoc (contents r) (x ∷ []) bytes),
    )

-- As long as the write position stays below 2^64, `ring_append` keeps a valid ring valid, and
-- leaves in it the last `capacity - 1` bytes of what it held followed by what was appended.
pub ring_append-contents :
    (r : Ring) (bytes : Bytes)
    → IsValid r
    → r.head + length bytes < 2 ^ 64
    → IsValid (ring_append r bytes)
      × (contents (ring_append r bytes) ≡ take_right (r.capacity - 1) (contents r ++ bytes))
unfolding ring_append
ring_append-contents r bytes v h =
    let appended = put_bytes-contents r bytes v h in
    let used : (r.capacity == 0) ≡ false = ground (arith, v.capacity_pos) in
    rw used (appended.0, appended.2)

-- `ring_read` into a destination of `max_len` bytes takes the oldest `max_len - 1` unread bytes,
-- or all if there are fewer, leaves the others in the ring, and keeps it valid.
pub ring_read-contents :
    (r : Ring) (max_len : ℕ)
    → IsValid r
    → ((ring_read r max_len).0 ≡ take (max_len - 1) (contents r))
      × (contents (ring_read r max_len).1 ≡ drop (max_len - 1) (contents r))
      × IsValid (ring_read r max_len).1
unfolding ring_read ring_available
ring_read-contents r max_len v = ground (
  arith,
  copy_out-window buffer capacity tail (max_len - 1) held,
  copy_out-window buffer capacity tail held held,
  drop-window buffer capacity tail held (max_len - 1),
  drop-window buffer capacity tail held held,
  take_all held (contents r),
  take_all (max_len - 1) (contents r),
  drop_all held (contents r),
  drop_all (max_len - 1) (contents r),
  length-contents r,
)
  where
    open r use {buffer, capacity, head, tail}

    held : ℕ
    held = head - tail
