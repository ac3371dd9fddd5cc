-- ===== src/Tests/RingTests.antt =====
-- ring_buffer.c on small rings.
use star_bridge.Base.{◌≡◌, refl, [], ◌∷◌, arith, take, drop, take_right}
use star_bridge.Ring.{Ring, ring_append, put_bytes, put_byte, ring_read}
use star_bridge.Ring.Refine.{IsValid, contents, ring_append-contents, ring_read-contents}

-- Two bytes, round the end of the storage.
abbrev wrapped : Ring
wrapped = record { buffer = 9 ∷ 0 ∷ 7 ∷ 8 ∷ []; capacity = 4; head = 5; tail = 3 }

wrapped-IsValid : IsValid wrapped
wrapped-IsValid = omega arith

contents-wrapped : contents wrapped ≡ 8 ∷ 9 ∷ []
contents-wrapped = refl

-- Of four unread bytes a ring of capacity 4 keeps three.
append_overwrites : contents (ring_append wrapped (1 ∷ 2 ∷ [])) ≡ 9 ∷ 1 ∷ 2 ∷ []
unfolding ring_append put_bytes put_byte
append_overwrites = refl

ring_append-contents_example :
    IsValid (ring_append wrapped (1 ∷ 2 ∷ []))
    × (contents (ring_append wrapped (1 ∷ 2 ∷ [])) ≡ take_right 3 (8 ∷ 9 ∷ 1 ∷ 2 ∷ []))
ring_append-contents_example =
    ring_append-contents wrapped (1 ∷ 2 ∷ []) wrapped-IsValid (omega arith)

ring_read-contents_example :
    ((ring_read wrapped 2).0 ≡ take 1 (8 ∷ 9 ∷ []))
    × (contents (ring_read wrapped 2).1 ≡ drop 1 (8 ∷ 9 ∷ []))
    × IsValid (ring_read wrapped 2).1
ring_read-contents_example = ring_read-contents wrapped 2 wrapped-IsValid
