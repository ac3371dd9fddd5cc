-- ===== src/Turn/Events/Termination.antt =====
-- The loop of a turn ends after so many rounds, unless the engine goes on sending health frames of other
-- requests.
use mathlib.Core.Path.{subst}
use star_bridge.Base.{
  ℕ, suc, ◌+◌, ◌-◌, ◌*◌, ◌≤◌, ◌≡◌, inl, inr, refl, sym, ap, ◌∙◌, Bool, true, false, List, [], ◌∷◌,
  ltb, if◌then◌else◌, arith, length, All,
}
use star_bridge.Native.{CJson}
use star_bridge.Turn.State.{Poll, Env, Turn, full_timeout, turn_started}
use star_bridge.Turn.Events.{
  Next, more, done, turn_poll, limit_reached, event_loop, turn_process_events,
}
use star_bridge.Turn.Events.Advance.{is_idle, Advance, turn_poll-Advance}

module _ {Item : Type 0} (J : CJson Item) (env : Env) where
  -- The rounds that are enough: each frame costs at most a full timeout.
  times : (a b n : ℕ) → a ≡ suc b → a * n ≡ n + b * n
  times a b n e = ap (λ k. k * n) e ∙ omega arith

  -- Enough rounds end the loop.
  event_loop-ends :
      (script : List Poll) (t : Turn)
      → All (λ p. is_idle J env p.read ≡ false) script
      → 1 ≤ t.remaining_timeout
      → (env.max_turn_events - t.event_count) * full_timeout env + t.remaining_timeout
        ≤ length script
      → (ok : Bool) × ((t' : Turn) × (event_loop J env script t ≡ done ok t'))
  unfolding event_loop
  event_loop-ends [] t idle le enough = absurd (omega arith)
  event_loop-ends (p ∷ script) t (idle, idles) le enough =
      go (ltb t.event_count env.max_turn_events) refl (turn_poll J env p script t)
        (turn_poll-Advance J env p script t idle le)
        (λ t' le' enough'. event_loop-ends script t' idles le' enough')
    where
      Ends : Next → Type 0
      Ends next = (ok : Bool) × ((t' : Turn) × (next ≡ done ok t'))

      full : 1 ≤ full_timeout env
      full = ground arith

      go :
          (b : Bool)
          → ltb t.event_count env.max_turn_events ≡ b
          → (next : Next) → Advance env t.event_count t.remaining_timeout next
          → ((t' : Turn)
              → 1 ≤ t'.remaining_timeout
              → (env.max_turn_events - t'.event_count) * full_timeout env + t'.remaining_timeout
                ≤ length script
              → Ends (event_loop J env script t'))
          → Ends (
              if b
              then (let n : Next = elim next [
                | done ok t' ↦ done ok t'
                | more t' ↦ event_loop J env script t'
              ] in
                  n)
              else done true (limit_reached J env t))
      go false e next a rest = (true, (limit_reached J env t, refl))
      go true e (done ok t') a rest = (ok, (t', refl))
      go true e (more t') (inl (counted_one, whole)) rest =
          let spent =
            times (env.max_turn_events - t.event_count) (env.max_turn_events - t'.event_count)
              (full_timeout env) (ground arith) in
          rest t' (omega (arith, full, whole)) (omega (arith, spent, whole))
      go true e (more t') (inr (same, less, some_left)) rest = rest t' some_left (
          subst
            (λ c.
              (env.max_turn_events - c) * full_timeout env + t'.remaining_timeout ≤ length script)
            (sym same) (omega arith))

  -- The number of rounds of the loop is bounded: it returns after at most `max_turn_events` and one more
  -- times the timeout in milliseconds of them, whatever frames come, unless one is a health frame with
  -- the id of another request. The rounds of a script are rounds whose calls have returned: the
  -- accepts and the reads of the clients of the control plane, for which the source sets no limit and no
  -- timeout, and the run of a tool's child.
  pub turn_process_events-ends :
      (script : List Poll) (t : Turn)
      → All (λ p. is_idle J env p.read ≡ false) script
      → env.max_turn_events * full_timeout env + full_timeout env ≤ length script
      → (ok : Bool) × ((t' : Turn) × (turn_process_events J env script t ≡ done ok t'))
  unfolding turn_process_events
  turn_process_events-ends script t idle enough =
      let all : env.max_turn_events ≡ env.max_turn_events - 0 = omega arith in
      event_loop-ends script (turn_started env t) idle (ground arith)
        (subst (λ n. n * full_timeout env + full_timeout env ≤ length script) all enough)
