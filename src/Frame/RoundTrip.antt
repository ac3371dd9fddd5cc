-- ===== src/Frame/RoundTrip.antt =====
-- What `frame_write` sends, `frame_read` returns, however reads and writes are split.
use native.Mathlib.Nat.{mod-eq_of_lt}
use star_bridge.Base.{
  ℕ, zero, suc, ◌+◌, ◌-◌, ◌%◌, ◌^◌, ◌≤◌, ◌<◌, ◌≡◌, refl, Bool, true, false, Option, some, List, [],
  ◌∷◌, ◌++◌, append_assoc, Bytes, take, drop, length, arith, ◌==◌, min, is_empty,
  take-append-take-drop, drop-drop, append-nil, ap, ◌∙◌, sym, length-drop, length-take,
  length-append, take_self-append, drop_self-append,
}
use star_bridge.Frame.Io.{
  Read, chunk, interrupted, failed, Source, Received, received, Sink, le32, of_le32, of_le32-le32,
  IsSteady, chunks,
}
use star_bridge.Frame.Read.{
  frame_max_payload, FrameResult, frame, read_all, read_all_deadline, finish_payload, read_payload,
  after_header, frame_read, blocking,
}
use star_bridge.Frame.Write.{frame_write, frame_write-sent}

-- A read of `need` bytes that are there succeeds, and leaves the rest and enough of the script.
record Filled (need : ℕ) (got : Bytes) (s : Source) (out : Received × Source) : Type 0 where
  result : out.0 ≡ received (got ++ take need s.wire) false
  left : out.1.wire ≡ drop need s.wire
  steady : IsSteady out.1.reads
  supply : chunks s.reads ≤ chunks out.1.reads + need

is_empty-take : (n : ℕ) (w : Bytes) → 0 < n → 0 < length w → is_empty (take n w) ≡ false
is_empty-take zero w h k = absurd (omega arith)
is_empty-take (suc n) [] h k = absurd (omega arith)
is_empty-take (suc n) (x ∷ w) h k = refl

-- A read that delivers `k` bytes of `need`, before a read that is filled.
Filled-chunk :
    (k need : ℕ) (got : Bytes) (s : Source) (r : List Read) (out : Received × Source)
    → (0 < k) × (k ≤ need)
    → need ≤ length s.wire
    → chunks s.reads ≡ suc (chunks r)
    → Filled
        (need - length (take k s.wire))
        (got ++ take k s.wire)
        (record s { wire = drop k s.wire; reads = r })
        out
    → Filled need got s out
Filled-chunk k need got s r out hk w c f = record {
  result =
      f.result
      ∙ ap (λ b. received b false)
          (append_assoc got (take k s.wire) _
            ∙ ap (λ b. got ++ b)
                (take-append-take-drop k (need - length (take k s.wire)) s.wire
                  ∙ ap (λ m. take m s.wire) count));
  left =
      f.left ∙ drop-drop (need - length (take k s.wire)) k s.wire ∙ ap (λ m. drop m s.wire) count;
  steady = f.steady;
  supply = omega (arith, f.supply, length-take k s.wire);
}
  where
    count : k + (need - length (take k s.wire)) ≡ need
    count = omega (arith, length-take k s.wire)

suc-ne-zero : (n : ℕ) → (suc n == 0) ≡ false
suc-ne-zero n = ground arith

read_all-zero :
    (r : List Read) (got : Bytes) (s : Source)
    → s.reads ≡ r
    → read_all r 0 got s ≡ (received got false, s)
unfolding read_all
read_all-zero [] got s e = refl
read_all-zero (chunk n ∷ r) got s e = refl
read_all-zero (interrupted ∷ r) got s e = refl
read_all-zero (failed ∷ r) got s e = refl

read_all-Filled :
    (r : List Read) (need : ℕ) (got : Bytes) (s : Source)
    → s.reads ≡ r
    → IsSteady r
    → need ≤ chunks r
    → need ≤ length s.wire
    → Filled need got s (read_all r need got s)
unfolding read_all
read_all-Filled r zero got s e st c w = rw (read_all-zero r got s e) (record {
  result = ap (λ b. received b false) (sym (append-nil got));
  left = refl;
  steady = rw e st;
  supply = omega arith;
})
read_all-Filled [] (suc need) got s e st c w = absurd (omega arith)
read_all-Filled (chunk n ∷ r) (suc need) got s e st c w =
    let k = min (suc n) (suc need) in
    rw (suc-ne-zero need, is_empty-take k s.wire (omega arith) (omega arith))
      (Filled-chunk k (suc need) got s r _ (omega arith) w (ap chunks e) (
        read_all-Filled r (suc need - length (take k s.wire)) (got ++ take k s.wire)
          (record s { wire = drop k s.wire; reads = r }) refl st
          (omega (arith, length-take k s.wire))
          (omega (arith, length-drop k s.wire, length-take k s.wire))))
read_all-Filled (interrupted ∷ r) (suc need) got s e st c w =
    let rest = read_all-Filled r (suc need) got (record s { reads = r }) refl st c w in
    rw (suc-ne-zero need) (record {
      result = rest.result;
      left = rest.left;
      steady = rest.steady;
      supply = omega (arith, rest.supply, ap chunks e);
    })
read_all-Filled (failed ∷ r) need got s e st c w = absurd st

after_header-received :
    (malloc_ok : ℕ → Bool) (header : Bytes) (out : Received × Source)
    → out.0 ≡ received header false
    → length header ≡ 4
    → after_header malloc_ok blocking out ≡ read_payload malloc_ok blocking (of_le32 header) out.1
unfolding after_header
after_header-received malloc_ok [] (p, s) e l = absurd (omega arith)
after_header-received malloc_ok (b ∷ header) (p, s) e l = ground arith

read_payload-received :
    (malloc_ok : ℕ → Bool) (len : ℕ) (payload : Bytes) (s : Source)
    → (read_all s.reads len [] s).0 ≡ received payload false
    → length payload ≡ len
    → (0 < len) × (len ≤ frame_max_payload)
    → malloc_ok (len + 1) ≡ true
    → read_payload malloc_ok blocking len s ≡ (frame payload, (read_all s.reads len [] s).1)
unfolding read_payload read_all_deadline finish_payload
read_payload-received malloc_ok len [] s e l b m = absurd (omega arith)
read_payload-received malloc_ok len (c ∷ payload) s e l b m = ground arith

-- However the reads are split, a blocking `frame_read` that finds four bytes of length and that
-- many bytes of payload returns the payload, and leaves what follows.
frame_read-le32 :
    (malloc_ok : ℕ → Bool) (payload more : Bytes) (s : Source)
    → s.wire ≡ le32 (length payload) ++ (payload ++ more)
    → (0 < length payload) × (length payload ≤ frame_max_payload)
    → malloc_ok (length payload + 1) ≡ true
    → IsSteady s.reads
    → 4 + length payload ≤ chunks s.reads
    → ((frame_read malloc_ok blocking s).0 ≡ frame payload)
      × ((frame_read malloc_ok blocking s).1.wire ≡ more)
unfolding frame_read read_all_deadline
frame_read-le32 malloc_ok payload more s e b m st c =
    let found =
      after_header-received malloc_ok (le32 len) (read_all s.reads 4 [] s) (header.result ∙ first)
        refl in
    let all = read_payload-received malloc_ok len payload s' (body.result ∙ second) refl b m in
    let whole =
      found
      ∙ ap (λ n. read_payload malloc_ok blocking n s') (of_le32-le32 len (omega arith))
      ∙ all in
    (
      ap (λ (p : FrameResult × Source). p.0) whole,
      ap (λ (p : FrameResult × Source). p.1.wire) whole
          ∙ body.left
          ∙ ap (drop len) header_left
          ∙ drop_self-append payload more,
    )
  where
    len : ℕ
    len = length payload

    header : Filled 4 [] s (read_all s.reads 4 [] s)
    header = read_all-Filled s.reads 4 [] s refl st (omega arith) (omega (arith, ap length e))

    s' : Source
    s' = (read_all s.reads 4 [] s).1

    first : received (take 4 s.wire) false ≡ received (le32 len) false
    first = ap (λ w. received (take 4 w) false) e

    header_left : s'.wire ≡ payload ++ more
    header_left = header.left ∙ ap (drop 4) e

    body : Filled len [] s' (read_all s'.reads len [] s')
    body =
        read_all-Filled s'.reads len [] s' refl header.steady (omega (arith, header.supply))
          (omega (arith, ap length header_left, length-append payload more))

    second : received (take len s'.wire) false ≡ received payload false
    second =
        ap (λ w. received (take len w) false) header_left
        ∙ ap (λ w. received w false) (take_self-append payload more)

-- What a `frame_write` that succeeds has put on an empty wire, a blocking `frame_read` on the
-- other side returns unchanged, and it leaves whatever was sent later. The payload is neither
-- empty nor above the maximum; the reads and writes may be split and interrupted in any way, as
-- long as no read fails and there are enough of them.
pub frame_read-frame_write :
    (malloc_ok : ℕ → Bool) (fd : Option ℕ) (payload more : Bytes) (k : Sink) (s : Source)
    → k.sent ≡ []
    → (frame_write fd payload k).0 ≡ some true
    → (0 < length payload) × (length payload ≤ frame_max_payload)
    → s.wire ≡ (frame_write fd payload k).1.sent ++ more
    → malloc_ok (length payload + 1) ≡ true
    → IsSteady s.reads
    → 4 + length payload ≤ chunks s.reads
    → ((frame_read malloc_ok blocking s).0 ≡ frame payload)
      × ((frame_read malloc_ok blocking s).1.wire ≡ more)
frame_read-frame_write malloc_ok fd payload more k s empty ok b e m st c =
    frame_read-le32 malloc_ok payload more s (e ∙ sent) b m st c
  where
    sent : (frame_write fd payload k).1.sent ++ more ≡ le32 (length payload) ++ (payload ++ more)
    sent =
        ap (λ w. w ++ more)
          ((frame_write-sent fd payload k ok).0
            ∙ ap (λ old. old ++ (le32 (length payload % 2 ^ 32) ++ payload)) empty
            ∙ ap (λ n. le32 n ++ payload)
                (mod-eq_of_lt {n = length payload} {m = 2 ^ 32} (omega arith)))
        ∙ append_assoc (le32 (length payload)) payload more
