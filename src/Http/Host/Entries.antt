-- ===== src/Http/Host/Entries.antt =====
-- The allowlist as the list of its entries.
use mathlib.Core.Path.{subst}
use star_bridge.Base.{
  ℕ, zero, suc, ◌+◌, ◌≤◌, ◌≡◌, refl, sym, ap, ◌∙◌, Bool, true, false, not, ◌&&◌, ◌||◌, List, [],
  ◌∷◌, ◌++◌, if◌then◌else◌, Bytes, length, codes, str_eq, is_empty, arith, append-nil, append_assoc,
}
use star_bridge.Http.Host.{
  HostConfig, is_separator, skip_separators, entry_span, allowlist_loop, host_is_allowed,
}

-- The entries of a list, by a scan that collects the current one.
unfoldable pub entries_from : Bytes → Bytes → List Bytes
entries_from current [] = current ∷ []
entries_from current (c ∷ s) =
    let split = entries_from [] s in
    let longer = entries_from (current ++ (c ∷ [])) s in
    if is_separator c then current ∷ split else longer

-- Whether a text is one of a list.
unfoldable pub one_of : Bytes → List Bytes → Bool
one_of host [] = false
one_of host (e ∷ es) = str_eq host e || one_of host es

length-entry_span : (s : Bytes) → length (entry_span s).1 ≤ length s
unfolding entry_span
length-entry_span [] = omega arith
length-entry_span (c ∷ s) = ground (arith, length-entry_span s)

-- An entry ends where the scan ends it.
entries_from-span :
    (host current s : Bytes)
    → one_of host (entries_from current s) ≡ (
        str_eq host (current ++ (entry_span s).0)
        || (let rest : Bool = elim (entry_span s).1 [
          | [] ↦ false
          | c ∷ t ↦ one_of host (entries_from [] t)
        ] in
            rest))
unfolding one_of entries_from entry_span
entries_from-span host current [] = ap (λ t. str_eq host t || false) (sym (append-nil current))
entries_from-span host current (c ∷ s) = ground (
  arith,
  append-nil current,
  append_assoc current (c ∷ []) (entry_span s).0,
  entries_from-span host (current ++ (c ∷ [])) s,
)

-- What follows an entry starts with a separator.
entry_span-rest :
    (host s : Bytes)
    → is_empty host ≡ false
    → one_of host (entries_from [] (entry_span s).1) ≡ (
        let rest : Bool = elim (entry_span s).1 [
          | [] ↦ false
          | c ∷ t ↦ one_of host (entries_from [] t)
        ] in
        rest)
unfolding one_of entries_from entry_span str_eq
entry_span-rest [] s h = ground arith
entry_span-rest (d ∷ host) [] h = refl
entry_span-rest (d ∷ host) (c ∷ s) h = ground (arith, entry_span-rest (d ∷ host) s h)

-- After its separators a text is shorter and starts with none.
skip_separators-shorter :
    (s : Bytes)
    → length (entry_span (skip_separators s)).1 + (if is_empty (skip_separators s) then 0 else 1)
      ≤ length s
unfolding skip_separators entry_span
skip_separators-shorter [] = omega arith
skip_separators-shorter (c ∷ s) = ground (arith, skip_separators-shorter s, length-entry_span s)

or_if : (a b : Bool) → (if a then true else b) ≡ (a || b)
or_if true b = refl
or_if false b = refl

-- A host that is not empty is not an empty bound host.
bound_host :
    (host bound : Bytes)
    → is_empty host ≡ false
    → (not (is_empty bound) && str_eq host bound) ≡ str_eq host bound
unfolding str_eq
bound_host [] bound h = ground arith
bound_host (c ∷ host) [] h = refl
bound_host (c ∷ host) (d ∷ bound) h = refl

-- Separators before an entry make empty entries only.
entries-skip_separators :
    (host s : Bytes)
    → is_empty host ≡ false
    → one_of host (entries_from [] (skip_separators s)) ≡ one_of host (entries_from [] s)
unfolding one_of entries_from skip_separators str_eq
entries-skip_separators host [] h = refl
entries-skip_separators [] (c ∷ s) h = ground arith
entries-skip_separators (d ∷ host) (c ∷ s) h =
    ground (arith, entries-skip_separators (d ∷ host) s h)

-- With enough fuel the loop finds the entries of the list.
allowlist_loop-entries :
    (host : Bytes) (fuel : ℕ) (p : Bytes)
    → is_empty host ≡ false
    → length p ≤ fuel
    → allowlist_loop host fuel p ≡ one_of host (entries_from [] p)
unfolding allowlist_loop one_of entries_from str_eq
allowlist_loop-entries [] fuel p h enough = ground arith
allowlist_loop-entries (d ∷ host) zero [] h enough = refl
allowlist_loop-entries (d ∷ host) zero (c ∷ p) h enough = absurd (omega arith)
allowlist_loop-entries (d ∷ host) (suc fuel) p h enough =
    go (skip_separators p) refl (λ rest le. allowlist_loop-entries (d ∷ host) fuel rest refl le)
  where
    own : Bytes
    own = d ∷ host

    go :
        (q : Bytes)
        → skip_separators p ≡ q
        → ((rest : Bytes)
            → length rest ≤ fuel
            → allowlist_loop own fuel rest ≡ one_of own (entries_from [] rest))
        → (if is_empty q
            then false
            else if str_eq own (entry_span q).0
            then true
            else allowlist_loop own fuel (entry_span q).1)
          ≡ one_of own (entries_from [] p)
    go [] e found =
        ap (λ x. one_of own (entries_from [] x)) (sym e) ∙ entries-skip_separators own p refl
    go (c ∷ q) e found =
        let (entry, rest) = entry_span (c ∷ q) in
        let shorter : length rest + 1 ≤ length p =
          subst (λ x. length (entry_span x).1 + (if is_empty x then 0 else 1) ≤ length p) e
            (skip_separators-shorter p) in
        or_if (str_eq own entry) (allowlist_loop own fuel rest)
        ∙ ap (◌||◌ (str_eq own entry))
            (found rest (omega (arith, shorter)) ∙ entry_span-rest own (c ∷ q) refl)
        ∙ sym (entries_from-span own [] (c ∷ q))
        ∙ ap (λ x. one_of own (entries_from [] x)) (sym e)
        ∙ entries-skip_separators own p refl

-- The names that are allowed whatever the configuration, the bound host if there is one, and the
-- entries of the allowlist.
abbrev pub allowed_hosts : HostConfig → List Bytes
allowed_hosts config =
    codes "127.0.0.1"
    ∷ codes "localhost"
    ∷ codes "::1"
    ∷ codes "::ffff:127.0.0.1"
    ∷ config.bind_host
    ∷ entries_from [] config.host_allowlist

-- The test of a host is whether it is not empty and one of the allowed hosts.
pub host_is_allowed-one_of :
    (config : HostConfig) (host : Bytes)
    → host_is_allowed config host ≡ (not (is_empty host) && one_of host (allowed_hosts config))
unfolding host_is_allowed one_of
host_is_allowed-one_of config [] = refl
host_is_allowed-one_of config (c ∷ host) =
    let own : Bytes = c ∷ host in
    ground (
      arith,
      bound_host own config.bind_host refl,
      allowlist_loop-entries own (length config.host_allowlist) config.host_allowlist refl
          (omega arith),
    )
