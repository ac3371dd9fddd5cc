-- ===== src/Sessions/Keys.antt =====
-- When session keys tell sessions apart.
use star_bridge.Base.{
  ◌<◌, ◌≡◌, refl, ap, sym, ◌∙◌, some, ◌∷◌, arith, Bytes, length, drop, take_all, drop_self-append,
  ltb, ltb→lt, Bool-cases, inl, inr,
}
use star_bridge.Sessions.{hex, hash_from, key_text, session_key_for, compute_session_key}

key_text-injective : (workspace a b : Bytes) → key_text workspace a ≡ key_text workspace b → a ≡ b
unfolding key_text
key_text-injective workspace a b e =
    let h : Bytes = hex 16 (hash_from 0 workspace) in
    ap (drop 1)
      (sym (drop_self-append h (b'_' ∷ a)) ∙ ap (drop (length h)) e ∙ drop_self-append h (b'_' ∷ b))

-- A key that is not empty is the whole text.
compute_session_key-whole :
    (workspace session_id : Bytes)
    → 0 < length (compute_session_key (some workspace) (some session_id))
    → compute_session_key (some workspace) (some session_id) ≡ key_text workspace session_id
unfolding compute_session_key
compute_session_key-whole workspace session_id h =
    elim (Bool-cases (ltb (length (key_text workspace session_id)) 256)) [
      | inl fits ↦ rw fits refl
      | inr long ↦ absurd (omega (arith, rw long at h))
    ]

-- Two sessions of one workspace that have the same key, and not the empty one, are the same
-- session.
pub compute_session_key-injective :
    (workspace a b : Bytes)
    → 0 < length (compute_session_key (some workspace) (some a))
    → compute_session_key (some workspace) (some a) ≡ compute_session_key (some workspace) (some b)
    → a ≡ b
compute_session_key-injective workspace a b h e = key_text-injective workspace a b (
    sym (compute_session_key-whole workspace a h)
    ∙ e
    ∙ compute_session_key-whole workspace b (omega (arith, h, ap length e)))

-- The two functions that compute a key agree, when the buffer has 256 bytes.
pub session_key_for-compute_session_key :
    (workspace session_id : Bytes)
    → session_key_for (some workspace) (some session_id) 256
      ≡ compute_session_key (some workspace) (some session_id)
unfolding session_key_for compute_session_key
session_key_for-compute_session_key workspace session_id =
    elim (Bool-cases (ltb (length (key_text workspace session_id)) 256)) [
      | inl fits ↦
          rw fits (take_all 255 (key_text workspace session_id) (omega (arith, ltb→lt _ _ fits)))
      | inr long ↦ rw long refl
    ]
