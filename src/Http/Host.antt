-- ===== src/Http/Host.antt =====
-- The host of an HTTP request: `host_is_allowed` and `validate_host_header`.
pub mod Entries
pub mod Spelling
pub mod LetIn
use mathlib.Core.Path.{subst}
use star_bridge.Base.{
  ℕ, zero, suc, ◌+◌, ◌-◌, ◌≤◌, ◌≡◌, refl, sym, ap, ◌∙◌, Bool, true, false, not, ◌&&◌, ◌||◌, Option,
  none, some, List, [], ◌∷◌, ◌++◌, ltb, leb, ◌==◌, if◌then◌else◌, Bytes, length, codes, str_eq,
  str_eq_iff, starts_with, is_empty, copy_bounded, take, arith, append-nil, append_assoc,
  Bool-cases, inl, inr,
}
use star_bridge.Http.{find_header_value, until_eol, skip_at_most, index_of}
use star_bridge.Http.Length.{skip_blanks}

-- The strings `bind_host` and `host_allowlist` of the configuration.
pub record HostConfig : Type 0 where
  pub bind_host : Bytes
  pub host_allowlist : Bytes

abbrev pub is_separator : ℕ → Bool
is_separator c = c == 32 || c == b','

unfoldable pub skip_separators : Bytes → Bytes
skip_separators [] = []
skip_separators (c ∷ s) = let rest = skip_separators s in if is_separator c then rest else c ∷ s

-- An entry and what follows it.
unfoldable pub entry_span : Bytes → Bytes × Bytes
entry_span [] = ([], [])
entry_span (c ∷ s) =
    let rest = entry_span s in if is_separator c then ([], c ∷ s) else (c ∷ rest.0, rest.1)

-- The loop over the allowlist; its length is enough fuel.
unfoldable pub allowlist_loop : Bytes → ℕ → Bytes → Bool
allowlist_loop host zero p = false
allowlist_loop host (suc fuel) p =
    let entry = entry_span (skip_separators p) in
    let rest = allowlist_loop host fuel entry.1 in
    if is_empty (skip_separators p) then false else if str_eq host entry.0 then true else rest

-- `host_is_allowed`
unfoldable pub host_is_allowed : HostConfig → Bytes → Bool
host_is_allowed config host =
    if is_empty host
    then false
    else str_eq host (codes "127.0.0.1")
      || str_eq host (codes "localhost")
      || str_eq host (codes "::1")
      || str_eq host (codes "::ffff:127.0.0.1")
      || not (is_empty config.bind_host) && str_eq host config.bind_host
      || allowlist_loop host (length config.host_allowlist) config.host_allowlist

-- What stands before a byte, if it occurs (`memchr`, `strchr`).
unfoldable pub before : ℕ → Bytes → Option Bytes
before b [] = none
before b (c ∷ s) =
    let rest : Option Bytes = elim (before b s) [ none ↦ none | some t ↦ some (c ∷ t) ] in
    if c == b then some [] else rest

-- A host in brackets, with them.
abbrev pub bracketed : Bytes → Option Bytes
bracketed p = elim (before b']' p) [
  | none ↦ none
  | some t ↦ some (copy_bounded 256 (t ++ (b']' ∷ [])))
]

-- The host of a line without brackets: what stands before a port.
unfoldable pub plain_host : Bytes → Bytes
plain_host p = elim (before b':' (until_eol p)) [
  | none ↦ copy_bounded 256 (until_eol p)
  | some t ↦ copy_bounded 256 (if is_empty t then until_eol p else t)
]

abbrev pub opens_bracket : Bytes → Bool
opens_bracket [] = false
opens_bracket (c ∷ s) = c == b'['

-- `validate_host_header`
unfoldable pub validate_host_header : HostConfig → Bytes → Bool
validate_host_header config raw =
    let checked : Bool = elim (find_header_value raw (codes "Host")) [
      | none ↦ false
      | some value ↦
          let p = skip_blanks value in
          let in_brackets : Bool = elim (bracketed p) [
            | none ↦ false
            | some host ↦
                if str_eq host (codes "[::1]")
                then true
                else if not (is_empty config.bind_host) && str_eq host config.bind_host
                then true
                else host_is_allowed config host
          ] in
          if opens_bracket p then in_brackets else host_is_allowed config (plain_host p)
    ] in
    if starts_with raw (codes "OPTIONS ") then true else checked
