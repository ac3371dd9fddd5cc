-- ===== src/Turn/Begin/Compatible.antt =====
-- A state is loaded only for the workspace and the model that it was stored for.
use mathlib.Core.Path.{subst}
use star_bridge.Base.{
  ◌≡◌, ◌⊎◌, inl, inr, refl, sym, ap, ◌∙◌, Bool, true, false, not, ◌||◌, Option, none, some, [], ◌∷◌,
  leb, if◌then◌else◌, Bytes, length, codes, str_eq, str_eq_iff, All, All-append, if-both, arith,
}
use star_bridge.Sessions.{
  ℤ, pos, session_index_update, session_index_lookup, session_index_get_workspace,
  session_index_get_model_id,
}
use star_bridge.Turn.States.{
  Begin, Opening, StateCall, call_size, call_text, complain, engine_create_session_state,
  engine_load_session_state, learn, new_state_id, or_complain, state_call, load_state, create_state,
  switch_state,
}
use star_bridge.Turn.Begin.{refuse_other, compatible_state, can_load, restore_default, load_checked}

-- What is stored for a key is nothing or what is expected.
abbrev Agrees : Option Bytes → Bytes → Type 0
Agrees stored expected = (stored ≡ none) ⊎ (stored ≡ some expected)

-- A state that may be loaded: loading is allowed, and the index has it for the key, with no other
-- workspace and no other model.
pub record Loadable (o : Opening) (key state_id : Bytes) : Type 0 where
  pub allowed : can_load o ≡ true
  pub found : session_index_lookup (some key) o.loaded ≡ some state_id
  pub own_workspace : Agrees (session_index_get_workspace (some key) o.loaded) o.env.workspace
  pub own_model : Agrees (session_index_get_model_id (some key) o.loaded) o.env.codex_model

-- A state that the engine may be told to switch to: loading is allowed, and the index has it for the
-- key. Its workspace and its model are not looked at.
pub record Switchable (o : Opening) (key state_id : Bytes) : Type 0 where
  pub allowed : can_load o ≡ true
  pub found : session_index_lookup (some key) o.loaded ≡ some state_id

-- A frame that loads a state or switches to one names one that may be.
abbrev pub IsCompatible : Opening → StateCall → Type 0
IsCompatible o (load_state key state_id) = Loadable o key state_id
IsCompatible o (switch_state from_key to_key state_id) = Switchable o to_key state_id
IsCompatible o _ = Unit {0}

module _ (o : Opening) where
  abbrev pub Good : Begin → Type 0
  Good b = All (IsCompatible o) b.calls

  pub state_call-Good :
      (call : StateCall) (b : Begin)
      → IsCompatible o call
      → Good b
      → Good (state_call o.env call b).1
  unfolding state_call
  state_call-Good call b ok v =
      if-both (λ (r : Option Bytes × Begin). Good r.1)
        (not o.env.framed_mode || leb (call_size call) (length (call_text call))) v
        (All-append (IsCompatible o) b.calls (call ∷ []) v (ok, tt))

  learn-Good :
      (key root model : Bytes) (budget : ℤ) (ack : Option Bytes) (b : Begin)
      → Good b
      → Good (learn o key root model budget ack b)
  unfolding learn
  learn-Good key root model budget none b v = v
  learn-Good key root model budget (some ack) b v = go (new_state_id ack)
    where
      go :
          (id : Option Bytes)
          → Good (elim id [
            | none ↦ b
            | some i ↦ record b {
              index =
                  (session_index_update key
                    (record {
                      state_id = i;
                      workspace_root = some root;
                      model_id = some model;
                      context_budget = budget;
                      now = o.now;
                    })
                    b.index).0;
            }
          ])
      go none = v
      go (some i) = v

  load-Good :
      (key state_id : Bytes) (b : Begin)
      → Loadable o key state_id
      → Good b
      → Good (engine_load_session_state o key state_id b).1
  unfolding engine_load_session_state
  load-Good key state_id b ok v =
      learn-Good key [] [] (pos 0) _ _ (state_call-Good (load_state key state_id) b ok v)

  pub create-Good :
      (key : Bytes) (b : Begin) → Good b → Good (engine_create_session_state o key b).1
  unfolding engine_create_session_state
  create-Good key b v =
      let call : StateCall =
        create_state key o.env.workspace o.env.codex_model o.context_tokens o.metadata in
      learn-Good key o.env.workspace o.env.codex_model o.context_tokens _ _
        (state_call-Good call b tt v)

  pub or_complain-Good :
      (error_type detail : Bytes) (r : Bool × Begin)
      → Good r.1
      → Good (or_complain o error_type detail r)
  unfolding or_complain
  or_complain-Good error_type detail (true, b) v = v
  or_complain-Good error_type detail (false, b) v = v

  -- What a check of a stored text lets through.
  record Passed (stored : Option Bytes) (own : Bytes) (before after : Option Bytes × Begin)
      : Type 0 where
    same_index : after.1.index ≡ before.1.index
    same_calls : after.1.calls ≡ before.1.calls
    kept :
        (state_id : Bytes)
        → after.0 ≡ some state_id
        → (before.0 ≡ some state_id) × Agrees stored own

  refuse_other-Passed :
      (detail : Bytes) (stored : Option Bytes) (own : Bytes) (state : Option Bytes) (b : Begin)
      → Passed stored own (state, b) (refuse_other o detail stored own (state, b))
  unfolding refuse_other
  refuse_other-Passed detail none own none b = record {
    same_index = refl;
    same_calls = refl;
    kept = λ id e. (e, inl refl);
  }
  refuse_other-Passed detail none own (some state) b = record {
    same_index = refl;
    same_calls = refl;
    kept = λ id e. (e, inl refl);
  }
  refuse_other-Passed detail (some stored) own none b = record {
    same_index = refl;
    same_calls = refl;
    kept = λ id e. ground arith;
  }
  refuse_other-Passed detail (some stored) own (some state) b = go (str_eq stored own) refl
    where
      go :
          (same : Bool)
          → str_eq stored own ≡ same
          → Passed
              (some stored)
              own
              (some state, b)
              (if same
                then (some state, b)
                else (none, complain o (codes "session_incompatible_state") detail b))
      go true e = record {
        same_index = refl;
        same_calls = refl;
        kept = λ id e'. (e', inr (ap some ((str_eq_iff stored own).0 e)));
      }
      go false e = record { same_index = refl; same_calls = refl; kept = λ id e'. ground arith }

  -- What `compatible_state` gives.
  unfoldable pub Given : Bytes → Option Bytes × Begin → Type 0
  Given key r = Good r.1 × ((state_id : Bytes) → r.0 ≡ some state_id → Loadable o key state_id)

  pub compatible_state-Given :
      (workspace_detail model_detail key : Bytes) (b : Begin)
      → can_load o ≡ true
      → b.index ≡ o.loaded
      → Good b
      → Given key (compatible_state o workspace_detail model_detail key b)
  unfolding compatible_state Given
  compatible_state-Given workspace_detail model_detail key b may e v =
      let w : Passed workspace o.env.workspace (session_index_lookup (some key) b.index, b)
          checked =
        refuse_other-Passed workspace_detail workspace o.env.workspace
          (session_index_lookup (some key) b.index) b in
      let m : Passed model o.env.codex_model checked
          (refuse_other o model_detail model o.env.codex_model checked) =
        refuse_other-Passed model_detail model o.env.codex_model checked.0 checked.1 in
      (
        subst (All (IsCompatible o)) (sym (m.same_calls ∙ w.same_calls)) v,
        λ id given.
            let (one, own_model) = m.kept id given in
            let (two, own_workspace) = w.kept id one in
            record {
              allowed = may;
              found = subst (λ ix. session_index_lookup (some key) ix ≡ some id) e two;
              own_workspace =
                  subst (λ ix. Agrees (session_index_get_workspace (some key) ix) o.env.workspace) e
                    own_workspace;
              own_model =
                  subst (λ ix. Agrees (session_index_get_model_id (some key) ix) o.env.codex_model)
                    e own_model;
            },
      )
    where
      workspace : Option Bytes
      workspace = session_index_get_workspace (some key) b.index

      model : Option Bytes
      model = session_index_get_model_id (some key) b.index

      checked : Option Bytes × Begin
      checked =
          refuse_other o workspace_detail workspace o.env.workspace
            (session_index_lookup (some key) b.index, b)

  pub restore_default-Good :
      (key : Bytes) (r : Option Bytes × Begin) → Given key r → Good (restore_default o key r)
  unfolding restore_default Given
  restore_default-Good key (some id, b) (v, may) =
      if-both Good (engine_load_session_state o key id b).0 (load-Good key id b (may id refl) v)
        (load-Good key id b (may id refl) v)
  restore_default-Good key (none, b) (v, may) =
      if-both Good (engine_create_session_state o key b).0 (create-Good key b v)
        (create-Good key b v)

  pub load_checked-Good :
      (key : Bytes) (r : Option Bytes × Begin) → Given key r → Good (load_checked o key r)
  unfolding load_checked Given
  load_checked-Good key (none, b) (v, may) = v
  load_checked-Good key (some id, b) (v, may) =
      or_complain-Good _ _ _ (load-Good key id b (may id refl) v)
