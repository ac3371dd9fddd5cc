-- ===== src/Tools/Policy/Laws.antt =====
-- What the policy lets through.
use star_bridge.Base.{
  ◌<◌, ◌≡◌, refl, ap₂, sym, ◌∙◌, ◌⊎◌, inl, inr, true, false, not, ◌&&◌, some, [], ◌∷◌, Bytes,
  length, str_eq, str_eq_iff, codes, Bool-cases, Option-cases,
}
use star_bridge.Tools.Json.{object_field, read_key, skip_ws, expect}
use star_bridge.Tools.Json.Grammar.{IsObject, object_field-IsObject}
use star_bridge.Tools.Policy.{
  is_denied, is_safe_tool, requires_permission, exact_object_field, args_valid,
}

-- The tools whose arguments are checked, with the field that each takes.
pub data Checked : Bytes → Bytes → Type 0 where
  search_query :
      (name field : Bytes)
      → name ≡ codes "google_search"
      → field ≡ codes "query"
      → Checked name field
  browse_target :
      (name field : Bytes) → name ≡ codes "browse_url" → field ≡ codes "url" → Checked name field
  shell_line :
      (name field : Bytes)
      → name ≡ codes "shell_command"
      → field ≡ codes "command"
      → Checked name field

-- For a checked tool `args_valid` is the check of its field.
pub args_valid-Checked :
    (name field args : Bytes)
    → Checked name field
    → args_valid name args ≡ exact_object_field args field
unfolding args_valid str_eq exact_object_field object_field read_key skip_ws expect
args_valid-Checked name field [] (search_query _ _ n f) = rw (n, f)
args_valid-Checked name field [] (browse_target _ _ n f) = rw (n, f)
args_valid-Checked name field [] (shell_line _ _ n f) = rw (n, f)
args_valid-Checked name field (c ∷ args) (search_query _ _ n f) = rw (n, f)
args_valid-Checked name field (c ∷ args) (browse_target _ _ n f) = rw (n, f)
args_valid-Checked name field (c ∷ args) (shell_line _ _ n f) = rw (n, f)

pub exact_object_field-true :
    (args field : Bytes)
    → exact_object_field args field ≡ true
    → (value : Bytes) × (object_field 2048 args field ≡ some value)
unfolding exact_object_field
exact_object_field-true args field h = elim (Option-cases (object_field 2048 args field)) [
  | inl bad ↦ absurd (cc (rw (bad, exact_object_field) at h))
  | inr found ↦ found
]

-- Valid arguments of a checked tool are a JSON object with that tool's field and no other; its
-- value is a string, not empty, of fewer than 2048 bytes.
pub args_valid-IsObject :
    (name field args : Bytes)
    → Checked name field
    → args_valid name args ≡ true
    → (value : Bytes) × IsObject args field value × (0 < length value) × (length value < 2048)
args_valid-IsObject name field args c h =
    let (value, found) =
      exact_object_field-true args field (sym (args_valid-Checked name field args c) ∙ h) in
    let (object, pos, small) = object_field-IsObject 2048 args field value found in
    (value, object, pos, small)

-- A tool name is denied, safe, or wants permission, and only one of the three.
pub policy_exclusive :
    (name : Bytes)
    → ((is_denied name ≡ true) × (is_safe_tool name ≡ false) × (requires_permission name ≡ false))
      ⊎ ((is_denied name ≡ false) × (is_safe_tool name ≡ true) × (requires_permission name ≡ false))
      ⊎ ((is_denied name ≡ false) × (is_safe_tool name ≡ false) × (requires_permission name ≡ true))
unfolding requires_permission is_denied is_safe_tool str_eq
policy_exclusive name = elim (Bool-cases (is_denied name)) [
  | inl refused ↦
      let shell : name ≡ codes "shell" = (str_eq_iff name (codes "shell")).0 refused in
      rw shell (inl (refl, refl, refl))
  | inr allowed ↦ elim (Bool-cases (is_safe_tool name)) [
    | inl safe ↦ inr (inl (allowed, safe, ap₂ (λ s d. not s && not d) safe allowed))
    | inr other ↦ inr (inr (allowed, other, ap₂ (λ s d. not s && not d) other allowed))
  ]
]
