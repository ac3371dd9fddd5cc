-- ===== src/Turn/Control/Clients.antt =====
-- What the clients of the control plane ask for.
use mathlib.Core.Path.{subst}
use star_bridge.Base.{
  ℕ, ◌+◌, ◌≡◌, refl, sym, ap₂, ◌∙◌, Bool-cases, inl, inr, str_eq, str_eq_iff, starts_with, Bool,
  true, false, ◌&&◌, ◌||◌, Option, none, some, List, [], ◌∷◌, ◌++◌, arith, if◌then◌else◌, Bytes,
  codes,
}
use star_bridge.Turn.Control.Words.{RequestLine, request_line-RequestLine, RequestLine-request_line}
use star_bridge.Turn.Control.{Route, models, cancel, conflict, not_found, route_of, request_line}

-- What a client asks for, if its request is read and has a first line.
unfoldable pub asks : Option Bytes → Option Route
asks none = none
asks (some text) = elim (request_line text) [
  | none ↦ none
  | some line ↦ some (route_of line.0 line.1)
]

abbrev pub is_cancel : Option Route → Bool
is_cancel (some cancel) = true
is_cancel _ = false

abbrev pub is_some : Option Route → Bool
is_some none = false
is_some (some r) = true

-- Whether a client asks to cancel the response.
unfoldable pub any_cancel : List (Option Bytes) → Bool
any_cancel [] = false
any_cancel (client ∷ clients) = is_cancel (asks client) || any_cancel clients

-- How many clients ask for something.
unfoldable pub asking : List (Option Bytes) → ℕ
asking [] = 0
asking (client ∷ clients) = (if is_some (asks client) then 1 else 0) + asking clients

-- The method and the path that cancel a response.
abbrev pub IsDelete : Bytes → Bytes → Type 0
IsDelete method path =
    (method ≡ codes "DELETE") × ((id : Bytes) × (path ≡ codes "/v1/responses/" ++ id))

-- Clients of which `n` send a request line and, if `asked`, one asks to cancel.
pub data Clients : List (Option Bytes) → ℕ → Bool → Type 0 where
  nobody : Clients [] 0 false
  silent :
      {clients : List (Option Bytes)} {n : ℕ} {asked : Bool}
      → Clients clients n asked
      → Clients (none ∷ clients) n asked
  garbled :
      {text : Bytes} {clients : List (Option Bytes)} {n : ℕ} {asked : Bool}
      → ((method path : Bytes) → RequestLine method path text → ⊥)
      → Clients clients n asked
      → Clients (some text ∷ clients) n asked
  cancels :
      {text method path : Bytes} {clients : List (Option Bytes)} {n : ℕ} {asked : Bool}
      → RequestLine method path text
      → IsDelete method path
      → Clients clients n asked
      → Clients (some text ∷ clients) (1 + n) true
  asks_else :
      {text method path : Bytes} {clients : List (Option Bytes)} {n : ℕ} {asked : Bool}
      → RequestLine method path text
      → (IsDelete method path → ⊥)
      → Clients clients n asked
      → Clients (some text ∷ clients) (1 + n) asked

starts_with-rest :
    (s word : Bytes) → starts_with s word ≡ true → (rest : Bytes) × (s ≡ word ++ rest)
unfolding starts_with
starts_with-rest s [] e = (s, refl)
starts_with-rest [] (w ∷ word) e = absurd (ground arith)
starts_with-rest (c ∷ s) (w ∷ word) e =
    let same : c ≡ w = ground arith in
    let (rest, whole) = starts_with-rest s word (ground arith) in (rest, ap₂ ◌∷◌ same whole)

-- The test of the handler for a cancellation.
route-IsDelete :
    (method path : Bytes) → is_cancel (some (route_of method path)) ≡ true → IsDelete method path
unfolding route_of
route-IsDelete method path e =
    elim (Bool-cases (str_eq method (codes "GET") && str_eq path (codes "/v1/models"))) [
      | inl m ↦ absurd (no (rw m at e))
      | inr m ↦
          elim (Bool-cases
            (str_eq method (codes "DELETE") && starts_with path (codes "/v1/responses/"))) [
              | inl d ↦ (
                (str_eq_iff method (codes "DELETE")).0 (ground arith),
                starts_with-rest path (codes "/v1/responses/") (ground arith),
              )
              | inr d ↦ absurd (later (rw (m, d) at e))
            ]
    ]
  where
    no : is_cancel (some models) ≡ true → ⊥
    no x = ground arith

    later :
        is_cancel (
            some (
              if str_eq method (codes "POST") && str_eq path (codes "/v1/responses")
              then conflict
              else not_found))
          ≡ true
        → ⊥
    later x = ground arith

IsDelete-route :
    (method path : Bytes) → IsDelete method path → is_cancel (some (route_of method path)) ≡ true
unfolding route_of str_eq starts_with
IsDelete-route method path (e, (id, e')) = rw (e, e') refl

differs : {b : Bool} → b ≡ false → b ≡ true → ⊥
differs x y = ground arith

pub Clients-asking :
    (clients : List (Option Bytes)) → Clients clients (asking clients) (any_cancel clients)
unfolding asking any_cancel asks
Clients-asking [] = nobody
Clients-asking (none ∷ clients) =
    subst (λ k. Clients (none ∷ clients) k (any_cancel clients)) (omega arith)
      (silent (Clients-asking clients))
Clients-asking (some text ∷ clients) = go (request_line text) refl (Clients-asking clients)
  where
    count : Option (Bytes × Bytes) → Option Route
    count line = elim line [ none ↦ none | some l ↦ some (route_of l.0 l.1) ]

    go :
        (line : Option (Bytes × Bytes))
        → request_line text ≡ line
        → Clients clients (asking clients) (any_cancel clients)
        → Clients
            (some text ∷ clients)
            ((if is_some (count line) then 1 else 0) + asking clients)
            (is_cancel (count line) || any_cancel clients)
    go none e v =
        subst (λ k. Clients (some text ∷ clients) k (any_cancel clients)) (omega arith)
          (garbled (λ m p l. missing (sym e ∙ RequestLine-request_line text m p l)) v)
      where
        missing : {l : Bytes × Bytes} → none ≡ some l → ⊥
        missing x = ground arith
    go (some (m, p)) e v = elim (Bool-cases (is_cancel (some (route_of m p)))) [
      | inl c ↦ rw c (cancels (request_line-RequestLine text m p e) (route-IsDelete m p c) v)
      | inr c ↦ rw c (
          asks_else (request_line-RequestLine text m p e) (λ d. differs c (IsDelete-route m p d)) v)
    ]
