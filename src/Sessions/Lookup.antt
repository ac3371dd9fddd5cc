-- ===== src/Sessions/Lookup.antt =====
-- The session index as a map.
use mathlib.Core.Path.{subst}
use star_bridge.Base.{
  suc, ◌<◌, ◌≤◌, ◌≡◌, ◌≢◌, ◌⊎◌, refl, ap, sym, ◌∙◌, Bool, true, false, Option, none, some, List, [],
  ◌∷◌, ◌++◌, arith, Bytes, length, take, take_all, length-append, Bool-cases, Option-cases, inl,
  inr, leb, leb→le, if◌then◌else◌, str_eq, str_eq_iff,
}
use star_bridge.Sessions.{
  SessionIndexEntry, SessionIndex, Update, max_entries, find_entry, refresh, new_entry,
  refresh_entry, finish_update, session_index_update, session_index_lookup,
}

str_eq_refl : (s : Bytes) → str_eq s s ≡ true
str_eq_refl s = (str_eq_iff s s).1 refl

-- The entry that an update leaves under its key.
pub updated : Bytes → Update → Option SessionIndexEntry → SessionIndexEntry
updated key u none = new_entry key u
updated key u (some e) = refresh u e

refresh-key : (u : Update) (e : SessionIndexEntry) → (refresh u e).key ≡ e.key
unfolding refresh
refresh-key u e = refl

str_eq_ne : (a b : Bytes) → a ≢ b → str_eq a b ≡ false
str_eq_ne a b h = elim (Bool-cases (str_eq a b)) [
  | inl same ↦ absurd (h ((str_eq_iff a b).0 same))
  | inr other ↦ other
]

-- What the loop of an update does when it finds an entry `e`.
record Refreshed (key : Bytes) (u : Update) (es : List SessionIndexEntry) : Type 0 where
  entry : SessionIndexEntry
  entries : List SessionIndexEntry
  stops : refresh_entry key u es ≡ some entries
  found : find_entry key es ≡ some entry
  changed : find_entry key entries ≡ some (refresh u entry)
  same_length : length entries ≡ length es
  others : (k : Bytes) → k ≢ key → find_entry k entries ≡ find_entry k es

stops_here :
    (key : Bytes) (u : Update) (e : SessionIndexEntry) (es : List SessionIndexEntry)
    → str_eq e.key key ≡ true
    → Refreshed key u (e ∷ es)
unfolding refresh_entry find_entry refresh
stops_here key u e es here =
    let other : (k : Bytes) → k ≢ key → str_eq e.key k ≡ false =
      λ k ne. str_eq_ne e.key k (λ same. ne (sym same ∙ (str_eq_iff e.key key).0 here)) in
    record {
      entry = e;
      entries = refresh u e ∷ es;
      stops = rw here refl;
      found = rw here refl;
      changed = rw here refl;
      same_length = refl;
      others = λ k ne. rw (other k ne) refl;
    }

stops_later :
    (key : Bytes) (u : Update) (e : SessionIndexEntry) (es : List SessionIndexEntry)
    → str_eq e.key key ≡ false
    → Refreshed key u es
    → Refreshed key u (e ∷ es)
unfolding refresh_entry find_entry
stops_later key u e es other r = record {
  entry = r.entry;
  entries = e ∷ r.entries;
  stops = rw (other, r.stops) refl;
  found = rw other r.found;
  changed = rw other r.changed;
  same_length = ap suc r.same_length;
  others = λ k ne. ap (λ rest. if str_eq e.key k then some e else rest) (r.others k ne);
}

-- The loop finds an entry just when a lookup does, and refreshes that one alone.
refresh_entry-Refreshed :
    (key : Bytes) (u : Update) (es : List SessionIndexEntry)
    → ((refresh_entry key u es ≡ none) × (find_entry key es ≡ none)) ⊎ Refreshed key u es
unfolding refresh_entry find_entry
refresh_entry-Refreshed key u [] = inl (refl, refl)
refresh_entry-Refreshed key u (e ∷ es) = elim (Bool-cases (str_eq e.key key)) [
  | inl here ↦ inr (stops_here key u e es here)
  | inr other ↦ elim (refresh_entry-Refreshed key u es) [
    | inl (a, b) ↦ inl (rw (other, a) refl, rw other b)
    | inr r ↦ inr (stops_later key u e es other r)
  ]
]

find_entry-append :
    (k : Bytes) (es : List SessionIndexEntry) (e : SessionIndexEntry)
    → find_entry k (es ++ (e ∷ [])) ≡ (elim (find_entry k es) [
      | none ↦ if str_eq e.key k then some e else none
      | some e' ↦ some e'
    ])
unfolding find_entry
find_entry-append k [] e = refl
find_entry-append k (x ∷ es) e = elim (Bool-cases (str_eq x.key k)) [
  | inl here ↦ rw here refl
  | inr other ↦ rw other (find_entry-append k es e)
]

-- The index after an update of `key` that succeeds: the entry of the key is the new or refreshed
-- one, and every other key has the entry that it had.
pub record IsUpdated (key : Bytes) (u : Update) (ix ix' : SessionIndex) : Type 0 where
  pub its_own : find_entry key ix'.entries ≡ some (updated key u (find_entry key ix.entries))
  pub others : (k : Bytes) → k ≢ key → find_entry k ix'.entries ≡ find_entry k ix.entries
  pub marked : ix'.dirty ≡ true
  pub bounded : length ix.entries ≤ max_entries → length ix'.entries ≤ max_entries

update-found :
    (key : Bytes) (u : Update) (ix : SessionIndex) (r : Refreshed key u ix.entries)
    → IsUpdated key u ix (record { entries = r.entries; dirty = true })
unfolding updated
update-found key u ix r = record {
  its_own = r.changed ∙ ap (λ o. some (updated key u o)) (sym r.found);
  others = r.others;
  marked = refl;
  bounded = λ le. omega (arith, r.same_length, le);
}

-- Adding an entry of another key, or the first of its key, at the end.
append-other :
    (k : Bytes) (es : List SessionIndexEntry) (e : SessionIndexEntry)
    → str_eq e.key k ≡ false
    → find_entry k (es ++ (e ∷ [])) ≡ find_entry k es
append-other k es e other = find_entry-append k es e ∙ (elim (Option-cases (find_entry k es)) [
  | inl missing ↦ rw (missing, other) refl
  | inr (e', found) ↦ rw found refl
])

update-absent :
    (key : Bytes) (u : Update) (ix : SessionIndex)
    → length key < 256
    → find_entry key ix.entries ≡ none
    → length ix.entries < max_entries
    → IsUpdated key u ix (record { entries = ix.entries ++ (new_entry key u ∷ []); dirty = true })
unfolding updated new_entry
update-absent key u ix short missing room =
    let own : take 255 key ≡ key = take_all 255 key (omega arith) in
    record {
      its_own =
          find_entry-append key ix.entries (new_entry key u)
          ∙ rw (missing, own, str_eq_refl key) refl;
      others = λ k ne.
          append-other k ix.entries (new_entry key u)
            (rw own (str_eq_ne key k (λ same. ne (sym same))));
      marked = refl;
      bounded = λ le. omega (arith, length-append ix.entries (new_entry key u ∷ []), room);
    }

-- What an update may do: succeed and set the key, or fail for want of room and change nothing.
pub Outcome : Bytes → Update → SessionIndex → SessionIndex × Bool → Type 0
Outcome key u ix (ix', done) =
    ((done ≡ true) × IsUpdated key u ix ix')
    ⊎ ((done ≡ false)
        × (ix' ≡ ix)
        × (find_entry key ix.entries ≡ none)
        × (max_entries ≤ length ix.entries))

found-Outcome :
    (key : Bytes) (u : Update) (ix : SessionIndex) (r : Refreshed key u ix.entries)
    → Outcome key u ix (finish_update key u ix (some r.entries))
unfolding finish_update Outcome
found-Outcome key u ix r = inl (refl, update-found key u ix r)

finish_update-Outcome :
    (key : Bytes) (u : Update) (ix : SessionIndex)
    → length key < 256
    → find_entry key ix.entries ≡ none
    → Outcome key u ix (finish_update key u ix none)
unfolding finish_update Outcome
finish_update-Outcome key u ix short missing =
    elim (Bool-cases (leb max_entries (length ix.entries))) [
      | inl full ↦ rw full (inr (refl, refl, missing, leb→le _ _ full))
      | inr room ↦ rw room (inl (refl, update-absent key u ix short missing (ground arith)))
    ]

-- An update of a key of fewer than 256 bytes either succeeds, and then the key has its new or
-- refreshed entry, every other key has the entry that it had, and there are at most 64 entries if
-- there were; or the key is missing from an index of at least 64 entries, and then the update fails
-- and changes nothing.
pub session_index_update-Outcome :
    (key : Bytes) (u : Update) (ix : SessionIndex)
    → length key < 256
    → Outcome key u ix (session_index_update key u ix)
unfolding session_index_update
session_index_update-Outcome key u ix short = elim (refresh_entry-Refreshed key u ix.entries) [
  | inr r ↦
      subst (λ o. Outcome key u ix (finish_update key u ix o)) (sym r.stops)
        (found-Outcome key u ix r)
  | inl (absent, missing) ↦
      subst (λ o. Outcome key u ix (finish_update key u ix o)) (sym absent)
        (finish_update-Outcome key u ix short missing)
]

updated-state_id :
    (key : Bytes) (u : Update) (o : Option SessionIndexEntry)
    → length u.state_id < 128
    → (updated key u o).state_id ≡ u.state_id
unfolding updated new_entry refresh
updated-state_id key u none fits = take_all 127 u.state_id (omega arith)
updated-state_id key u (some e) fits = take_all 127 u.state_id (omega arith)

state_of : Option SessionIndexEntry → Option Bytes
state_of none = none
state_of (some e) = some e.state_id

session_index_lookup-state_of :
    (k : Bytes) (ix : SessionIndex)
    → session_index_lookup (some k) ix ≡ state_of (find_entry k ix.entries)
unfolding session_index_lookup state_of
session_index_lookup-state_of k ix = refl

lookup-IsUpdated :
    (key : Bytes) (u : Update) (ix ix' : SessionIndex)
    → length u.state_id < 128
    → IsUpdated key u ix ix'
    → (session_index_lookup (some key) ix' ≡ some u.state_id)
      × ((k : Bytes)
          → k ≢ key
          → session_index_lookup (some k) ix' ≡ session_index_lookup (some k) ix)
unfolding state_of
lookup-IsUpdated key u ix ix' fits w = (
  session_index_lookup-state_of key ix'
      ∙ ap state_of w.its_own
      ∙ ap some (updated-state_id key u (find_entry key ix.entries) fits),
  λ k ne.
      session_index_lookup-state_of k ix'
      ∙ ap state_of (w.others k ne)
      ∙ sym (session_index_lookup-state_of k ix),
)

-- After an update that succeeds, with a key of fewer than 256 bytes and a state of fewer than 128,
-- a lookup of the key gives that state, and a lookup of another key gives what it gave before.
pub session_index_lookup-session_index_update :
    (key : Bytes) (u : Update) (ix : SessionIndex)
    → length key < 256
    → length u.state_id < 128
    → (session_index_update key u ix).1 ≡ true
    → (session_index_lookup (some key) (session_index_update key u ix).0 ≡ some u.state_id)
      × ((k : Bytes)
          → k ≢ key
          → session_index_lookup (some k) (session_index_update key u ix).0
            ≡ session_index_lookup (some k) ix)
unfolding Outcome
session_index_lookup-session_index_update key u ix short fits done =
    elim (session_index_update-Outcome key u ix short) [
      | inr failed ↦ absurd (cc (sym done ∙ failed.0))
      | inl success ↦ lookup-IsUpdated key u ix (session_index_update key u ix).0 fits success.1
    ]
