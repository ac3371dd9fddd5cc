-- ===== src/Ring/Window.antt =====
-- The bytes of a ring from one position on, and what a write does to them.
use native.Mathlib.Nat.{mod-add-mod, mod-eq_of_lt, mod-eq-sub-mod, mod-lt}
use star_bridge.Base.{
  ℕ, zero, suc, ◌+◌, ◌-◌, ◌%◌, ◌^◌, ◌≤◌, ◌<◌, ◌≡◌, refl, ap, ap₂, ◌∙◌, sym, ◌≢◌, [], ◌∷◌, ◌++◌,
  arith, dec_lt, Bytes, length, get_or, set, get_or-set_self, get_or-set_ne, take, drop,
}
use star_bridge.Ring.{copy_out}

-- `count` bytes from position `at` on; a position never wraps here.
abbrev pub window : Bytes → ℕ → ℕ → ℕ → Bytes
window buffer capacity at zero = []
window buffer capacity at (suc count) =
    get_or buffer (at % capacity) 0 ∷ window buffer capacity (at + 1) count

pub length-window : (buffer : Bytes) (c at n : ℕ) → length (window buffer c at n) ≡ n
length-window buffer c at zero = refl
length-window buffer c at (suc n) = ap suc (length-window buffer c (at + 1) n)

-- Fewer than `c` steps from a position do not come back to its slot.
add-mod-ne_lt : {c h k : ℕ} → h < c → suc k < c → (h + suc k) % c ≢ h
add-mod-ne_lt {c} {h} {k} hh hk = elim (dec_lt (h + suc k) c) [
  | yes p ↦ omega (arith, mod-eq_of_lt p)
  | no p ↦ omega (
    arith,
    mod-eq-sub-mod {n = h + suc k} {m = c} (omega arith),
    mod-eq_of_lt {n = h + suc k - c} {m = c} (omega arith),
  )
]

add-mod-ne : (c at k : ℕ) → suc k < c → (at + suc k) % c ≢ at % c
add-mod-ne c at k h e =
    add-mod-ne_lt {h = at % c} (mod-lt at (omega arith)) h (mod-add-mod at c (suc k) ∙ e)

-- A write just past a window of fewer than `c` bytes extends it by that byte.
pub window-set :
    (buffer : Bytes) (c x n at i : ℕ)
    → c ≤ length buffer
    → n < c
    → i ≡ (at + n) % c
    → window (set buffer i x) c at (suc n) ≡ window buffer c at n ++ (x ∷ [])
window-set buffer c x zero at i hs hn e =
    ap (λ v. v ∷ [])
      (ap (λ (j : ℕ). get_or (set buffer i x) j 0) here ∙ get_or-set_self buffer i x 0 inside)
  where
    here : at % c ≡ i
    here = ap (λ (k : ℕ). k % c) (let at_zero : at ≡ at + 0 = omega arith in at_zero) ∙ sym e

    inside : i < length buffer
    inside = omega (arith, mod-lt at hn, here)
window-set buffer c x (suc n) at i hs hn e =
    ap₂ ◌∷◌ (get_or-set_ne buffer x 0 (λ q. add-mod-ne c at n hn (sym e ∙ q))) (
      window-set buffer c x n (at + 1) i hs (omega arith) (e ∙ ap (λ (k : ℕ). k % c) (omega arith)))

pub window_cong :
    (buffer : Bytes) (c : ℕ) {at at' n n' : ℕ}
    → at ≡ at'
    → n ≡ n'
    → window buffer c at n ≡ window buffer c at' n'
window_cong buffer c p q = ap₂ (window buffer c) p q

pub drop-window :
    (buffer : Bytes) (c at n k : ℕ)
    → drop k (window buffer c at n) ≡ window buffer c (at + k) (n - k)
drop-window buffer c at n zero =
    window_cong buffer c {at' = at + 0} {n' = n - 0} (omega arith) (omega arith)
drop-window buffer c at zero (suc k) =
    window_cong buffer c {at = at + suc k} {at' = at + suc k} {n = 0} {n' = 0 - suc k} refl
      (omega arith)
drop-window buffer c at (suc n) (suc k) =
    drop-window buffer c (at + 1) n k
    ∙ window_cong buffer c {at' = at + suc k} {n' = suc n - suc k} (omega arith) (omega arith)

-- The copying loop reads a window, as long as its positions stay below 2^64.
pub copy_out-window :
    (buffer : Bytes) (c at n m : ℕ)
    → n ≤ m
    → at + m < 2 ^ 64
    → copy_out buffer c at n ≡ take n (window buffer c at m)
unfolding copy_out
copy_out-window buffer c at zero m le h = refl
copy_out-window buffer c at (suc n) zero le h = absurd (omega arith)
copy_out-window buffer c at (suc n) (suc m) le h = ap (◌∷◌ (get_or buffer (at % c) 0)) (
    ap (λ k. copy_out buffer c k n) (omega arith)
    ∙ copy_out-window buffer c (at + 1) n m (omega arith) (omega arith))
