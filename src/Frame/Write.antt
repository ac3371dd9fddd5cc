-- ===== src/Frame/Write.antt =====
-- `frame_write`. The payload pointer is taken to be non-NULL, and `len` to be its length.
use native.Mathlib.Nat.{mod-eq_of_lt}
use star_bridge.Base.{
  ℕ, suc, ◌%◌, ◌^◌, ◌≤◌, ◌≡◌, refl, Bool, true, false, Option, none, some, List, [], ◌∷◌, ◌++◌,
  append_assoc, Bytes, take, drop, length, arith, ltb, if◌then◌else◌, is_empty, take-append-drop,
  append-nil, ap, ◌∙◌, sym, Bool-cases, inl, inr, take_all, length-drop,
}
use star_bridge.Frame.Io.{Write, taken, write_interrupted, write_failed, Sink, le32}
use star_bridge.Frame.Read.{frame_max_payload}

-- The loop over the payload; `rest` is `json[off..len)`. The option is the value returned, if any.
unfoldable pub write_payload : List Write → Bytes → Sink → Option Bool × Sink
write_payload [] rest k = if is_empty rest then (some true, k) else (none, k)
write_payload (taken n ∷ r) rest k =
    let later =
      write_payload r (drop (suc n) rest)
        (record k { sent = k.sent ++ take (suc n) rest; writes = r }) in
    if is_empty rest then (some true, k) else later
write_payload (write_interrupted ∷ r) rest k =
    let later = write_payload r rest (record k { writes = r }) in
    if is_empty rest then (some true, k) else later
write_payload (write_failed ∷ r) rest k =
    if is_empty rest then (some true, k) else (some false, record k { writes = r })

-- The single write of the four bytes of `net_len`, and what follows it.
unfoldable pub write_frame : List Write → ℕ → Bytes → Sink → Option Bool × Sink
write_frame [] net_len json k = (none, k)
write_frame (taken n ∷ r) net_len json k =
    let k' = record k { sent = k.sent ++ take (suc n) (le32 net_len); writes = r } in
    if ltb (suc n) 4 then (some false, k') else write_payload r json k'
write_frame (write_interrupted ∷ r) net_len json k = (some false, record k { writes = r })
write_frame (write_failed ∷ r) net_len json k = (some false, record k { writes = r })

-- `frame_write`; `none` is a negative descriptor. The length is cast to `uint32_t` first.
unfoldable pub frame_write : Option ℕ → Bytes → Sink → Option Bool × Sink
unfolding write_frame
frame_write none json k = (some false, k)
frame_write (some fd) json k =
    let net_len = length json % 2 ^ 32 in
    if ltb frame_max_payload net_len then (some false, k) else write_frame k.writes net_len json k

write_payload-nil : (w : List Write) (k : Sink) → write_payload w [] k ≡ (some true, k)
unfolding write_payload
write_payload-nil [] k = refl
write_payload-nil (taken n ∷ r) k = refl
write_payload-nil (write_interrupted ∷ r) k = refl
write_payload-nil (write_failed ∷ r) k = refl

write_payload-sent :
    (w : List Write) (rest : Bytes) (k : Sink)
    → (write_payload w rest k).0 ≡ some true
    → (write_payload w rest k).1.sent ≡ k.sent ++ rest
unfolding write_payload
write_payload-sent w [] k h =
    ap (λ (p : Option Bool × Sink). p.1.sent) (write_payload-nil w k) ∙ sym (append-nil k.sent)
write_payload-sent [] (c ∷ rest) k h = cc
write_payload-sent (taken n ∷ r) (c ∷ rest) k h =
    write_payload-sent r (drop n rest) _ h
    ∙ append_assoc k.sent (c ∷ take n rest) (drop n rest)
    ∙ ap (λ b. k.sent ++ (c ∷ b)) (take-append-drop n rest)
write_payload-sent (write_interrupted ∷ r) (c ∷ rest) k h = write_payload-sent r (c ∷ rest) _ h
write_payload-sent (write_failed ∷ r) (c ∷ rest) k h = cc

write_frame-sent :
    (w : List Write) (net_len : ℕ) (json : Bytes) (k : Sink)
    → (write_frame w net_len json k).0 ≡ some true
    → (write_frame w net_len json k).1.sent ≡ k.sent ++ (le32 net_len ++ json)
unfolding write_frame
write_frame-sent [] net_len json k h = cc
write_frame-sent (taken n ∷ r) net_len json k h = elim (Bool-cases (ltb (suc n) 4)) [
  | inl short ↦ absurd (cc (rw short at h))
  | inr whole ↦ rw whole (
      write_payload-sent r json _ (rw whole at h)
      ∙ append_assoc k.sent (take (suc n) (le32 net_len)) json
      ∙ ap (λ header. k.sent ++ (header ++ json)) (take_all (suc n) (le32 net_len) (ground arith)))
]
write_frame-sent (write_interrupted ∷ r) net_len json k h = cc
write_frame-sent (write_failed ∷ r) net_len json k h = cc

pub frame_write-sent :
    (fd : Option ℕ) (json : Bytes) (k : Sink)
    → (frame_write fd json k).0 ≡ some true
    → ((frame_write fd json k).1.sent ≡ k.sent ++ (le32 (length json % 2 ^ 32) ++ json))
      × (length json % 2 ^ 32 ≤ frame_max_payload)
unfolding frame_write
frame_write-sent none json k h = cc
frame_write-sent (some fd) json k h =
    elim (Bool-cases (ltb frame_max_payload (length json % 2 ^ 32))) [
      | inl large ↦ absurd (cc (rw large at h))
      | inr fits ↦
          rw fits
            (write_frame-sent k.writes (length json % 2 ^ 32) json k (rw fits at h), ground arith)
    ]

-- The scripts in which no write fails, and the number of calls that take bytes.
abbrev pub IsFlowing : List Write → Type 0
IsFlowing [] = Unit {0}
IsFlowing (taken n ∷ r) = IsFlowing r
IsFlowing (write_interrupted ∷ r) = IsFlowing r
IsFlowing (write_failed ∷ r) = ⊥

abbrev pub takes : List Write → ℕ
takes [] = 0
takes (taken n ∷ r) = suc (takes r)
takes (write_interrupted ∷ r) = takes r
takes (write_failed ∷ r) = takes r

write_payload_completes :
    (w : List Write) (rest : Bytes) (k : Sink)
    → IsFlowing w
    → length rest ≤ takes w
    → (write_payload w rest k).0 ≡ some true
unfolding write_payload
write_payload_completes w [] k f h = ap (λ (p : Option Bool × Sink). p.0) (write_payload-nil w k)
write_payload_completes [] (c ∷ rest) k f h = absurd (omega arith)
write_payload_completes (taken n ∷ r) (c ∷ rest) k f h =
    write_payload_completes r (drop n rest) _ f (omega (arith, length-drop n rest))
write_payload_completes (write_interrupted ∷ r) (c ∷ rest) k f h =
    write_payload_completes r (c ∷ rest) _ f h
write_payload_completes (write_failed ∷ r) (c ∷ rest) k f h = absurd f

-- On an open descriptor a payload of at most the maximum is written, if the first write takes the
-- whole header, no later write fails, and as many later writes take something as there are bytes.
pub frame_write_completes :
    (fd n : ℕ) (w : List Write) (json : Bytes) (k : Sink)
    → k.writes ≡ taken n ∷ w
    → 3 ≤ n
    → IsFlowing w
    → length json ≤ takes w
    → length json ≤ frame_max_payload
    → (frame_write (some fd) json k).0 ≡ some true
unfolding frame_write
frame_write_completes fd n w json k first whole f enough fits = ground (
  arith,
  write_payload_completes w json
      (record k { sent = k.sent ++ take (suc n) (le32 (length json)); writes = w }) f enough,
  mod-eq_of_lt {n = length json} {m = 2 ^ 32} (omega arith),
)
