-- ===== src/Ring.antt =====
-- src/ring_buffer.c: a byte ring over caller-provided storage that overwrites the oldest bytes.
-- The pointers of a call are the fields of `Ring`; they are taken to be non-NULL. `size_t` is
-- 64 bits wide and wraps round.
pub mod Window
pub mod Refine
use star_bridge.Base.{
  ℕ, zero, suc, ◌+◌, ◌-◌, ◌%◌, ◌^◌, Bool, true, false, List, [], ◌∷◌, ltb, leb, ◌==◌, if◌then◌else◌,
  get_or, set, Bytes,
}

-- The storage with its capacity, the next write position and the next read position.
pub record Ring : Type 0 where
  pub buffer : Bytes
  pub capacity : ℕ
  pub head : ℕ
  pub tail : ℕ

abbrev add_size : ℕ → ℕ → ℕ
add_size a b = (a + b) % 2 ^ 64

abbrev sub_size : ℕ → ℕ → ℕ
sub_size a b = (a + 2 ^ 64 - b) % 2 ^ 64

-- One round of the loop of `ring_append`. `tail` is `*tail` as that round finds it.
unfoldable pub put_byte : Ring → ℕ → Ring
put_byte r byte =
    let head = add_size r.head 1 in
    record r {
      buffer = set r.buffer (r.head % r.capacity) byte;
      head = head;
      tail =
          if leb r.capacity (sub_size head r.tail)
          then add_size (sub_size head r.capacity) 1
          else r.tail;
    }

unfoldable pub put_bytes : Ring → Bytes → Ring
put_bytes r [] = r
put_bytes r (byte ∷ rest) = put_bytes (put_byte r byte) rest

-- `ring_append`
unfoldable pub ring_append : Ring → Bytes → Ring
ring_append r bytes = if r.capacity == 0 then r else put_bytes r bytes

-- `ring_available`
unfoldable pub ring_available : Ring → ℕ
ring_available r = sub_size r.head r.tail

-- The copying loop of `ring_read`: `count` bytes from read position `at` on.
unfoldable pub copy_out : Bytes → ℕ → ℕ → ℕ → Bytes
copy_out buffer capacity at zero = []
copy_out buffer capacity at (suc count) =
    get_or buffer (at % capacity) 0 ∷ copy_out buffer capacity (add_size at 1) count

-- `ring_read`: the bytes copied to `dest` before its terminator, and the ring afterwards.
unfoldable pub ring_read : Ring → ℕ → Bytes × Ring
ring_read r max_len =
    let available = ring_available r in
    let count = if leb max_len available then max_len - 1 else available in
    if max_len == 0
    then ([], r)
    else (copy_out r.buffer r.capacity r.tail count, record r { tail = add_size r.tail count })

-- `ring_reset`
pub ring_reset : Ring → Ring
ring_reset r = record r { head = 0; tail = 0 }
