-- ===== src/Connection/Reconnect.antt =====
-- The retries of `nc_reconnect`.
use mathlib.Core.Path.{subst}
use star_bridge.Base.{
  ℕ, zero, suc, ◌+◌, ◌*◌, ◌^◌, ◌<◌, ◌≤◌, min, ◌≡◌, ◌⊎◌, inl, inr, refl, ap, sym, ◌∙◌, Bool, true,
  false, Option, none, some, List, [], ◌∷◌, ◌++◌, arith, ltb, lt→ltb, Bytes, Option-cases,
  append_assoc, is_empty, not, ◌||◌, ◌==◌,
}
use star_bridge.Connection.{
  NativeConnection, connected, unhealthy, uds, Call, connect, sleep_ms, Attempts, after_failure,
  after_success, try_connect, prepared, nc_reconnect, nc_set_state, nc_close, is_uds,
}

-- `n` failed attempts, each with the pause after it: at most 30 seconds, the delay doubled each time.
pub tries : ℕ → ℕ → List Call
tries zero delay = []
tries (suc n) delay = connect ∷ sleep_ms (min delay 30000) ∷ tries n (delay * 2)

-- The delay doubled `n` times.
unfoldable pub doubled : ℕ → ℕ → ℕ
doubled zero delay = delay
doubled (suc n) delay = doubled n (delay * 2)

doubled-le : (n delay : ℕ) → delay ≤ doubled n delay
unfolding doubled
doubled-le zero delay = omega arith
doubled-le (suc n) delay = omega (arith, doubled-le n (delay * 2))

module _ (attempt : ℕ → Option ℕ) where
  -- The first success is the i-th attempt from `a` on.
  pub record IsConnected (a : Attempts) (last : ℕ) (a' : Attempts) : Type 0 where
    pub i : ℕ
    pub fd : ℕ
    pub in_time : i ≤ last
    pub failures : (j : ℕ) → j < i → attempt (a.nc.reconnect_attempts + j) ≡ none
    pub success : attempt (a.nc.reconnect_attempts + i) ≡ some fd
    pub result : a'.nc ≡ record a.nc {
      read_fd = some fd;
      write_fd = some fd;
      socket_fd = some fd;
      state = connected;
      reconnect_attempts = 0;
    }
    pub called : a'.calls ≡ a.calls ++ (tries i a.delay ++ (connect ∷ []))

  -- All the attempts from `a` on failed.
  pub record IsExhausted (a : Attempts) (last : ℕ) (a' : Attempts) : Type 0 where
    pub failures : (j : ℕ) → j ≤ last → attempt (a.nc.reconnect_attempts + j) ≡ none
    pub result : a'.nc ≡ record a.nc {
      state = unhealthy;
      reconnect_attempts = a.nc.reconnect_attempts + (last + 1);
    }
    pub called : a'.calls ≡ a.calls ++ (tries last a.delay ++ (connect ∷ []))

  pub Outcome : Attempts → ℕ → Option (Attempts × Bool) → Type 0
  Outcome a last o =
      ((a' : Attempts) × (o ≡ some (a', true)) × IsConnected a last a')
      ⊎ ((a' : Attempts) × (o ≡ some (a', false)) × IsExhausted a last a')

  -- The state after a failure that is not the last attempt.
  abbrev next : Attempts → Attempts
  next a = record {
    nc = record a.nc { reconnect_attempts = a.nc.reconnect_attempts + 1 };
    delay = a.delay * 2;
    calls = (a.calls ++ (connect ∷ [])) ++ (sleep_ms (min a.delay 30000) ∷ []);
  }

  after_failure-next :
      (a : Attempts)
      → a.nc.reconnect_attempts + 1 < a.nc.reconnect_max
      → a.delay * 2 < 2 ^ 31
      → after_failure a ≡ some (next a)
  unfolding after_failure
  after_failure-next a more small = rw (lt→ltb _ _ more, lt→ltb _ _ small) refl

  after_failure-last :
      (a : Attempts)
      → a.nc.reconnect_attempts + 1 ≡ a.nc.reconnect_max
      → after_failure a
        ≡ some (record a {
          nc = record a.nc { reconnect_attempts = a.nc.reconnect_attempts + 1 };
          calls = a.calls ++ (connect ∷ []);
        })
  unfolding after_failure
  after_failure-last a e =
      let over : ltb (a.nc.reconnect_attempts + 1) a.nc.reconnect_max ≡ false = ground arith in
      rw over refl

  shifted :
      (k n : ℕ)
      → attempt k ≡ none
      → ((j : ℕ) → j < n → attempt (k + 1 + j) ≡ none)
      → (j : ℕ) → j < suc n
      → attempt (k + j) ≡ none
  shifted k n failed later zero h = ap attempt (omega arith) ∙ failed
  shifted k n failed later (suc j) h = ap attempt (omega arith) ∙ later j (omega arith)

  called_next :
      (calls rest : List Call) (c d : Call)
      → ((calls ++ (c ∷ [])) ++ (d ∷ [])) ++ rest ≡ calls ++ (c ∷ d ∷ rest)
  called_next calls rest c d =
      append_assoc (calls ++ (c ∷ [])) (d ∷ []) rest ∙ append_assoc calls (c ∷ []) (d ∷ rest)

  -- A failure before what happens from the next state on.
  Outcome-next :
      (a : Attempts) (last : ℕ) (o : Option (Attempts × Bool))
      → attempt a.nc.reconnect_attempts ≡ none
      → Outcome (next a) last o
      → Outcome a (suc last) o
  unfolding Outcome tries
  Outcome-next a last o failed (inl (a', e, c)) = inl (
    a',
    e,
    record {
      i = suc c.i;
      fd = c.fd;
      in_time = omega (arith, c.in_time);
      failures = shifted a.nc.reconnect_attempts c.i failed c.failures;
      success = ap attempt (omega arith) ∙ c.success;
      result = c.result;
      called = c.called ∙ called_next a.calls _ connect (sleep_ms (min a.delay 30000));
    },
  )
  Outcome-next a last o failed (inr (a', e, x)) = inr (
    a',
    e,
    record {
      failures = λ j h.
          shifted a.nc.reconnect_attempts (suc last) failed (λ j h. x.failures j (omega (arith, h)))
            j (omega (arith, h));
      result =
          x.result
          ∙ ap (λ n. record a.nc { state = unhealthy; reconnect_attempts = n }) (omega arith);
      called = x.called ∙ called_next a.calls _ connect (sleep_ms (min a.delay 30000));
    },
  )

  -- A success at once.
  Outcome-now :
      (a : Attempts) (last fd : ℕ)
      → attempt a.nc.reconnect_attempts ≡ some fd
      → Outcome a last (some (after_success fd a, true))
  unfolding Outcome tries after_success
  Outcome-now a last fd e = inl (
    after_success fd a,
    refl,
    record {
      i = 0;
      fd = fd;
      in_time = omega arith;
      failures = λ j h. absurd (omega arith);
      success = ap attempt (omega arith) ∙ e;
      result = refl;
      called = refl;
    },
  )

  -- A failure of the last attempt.
  Outcome-last :
      (a : Attempts)
      → attempt a.nc.reconnect_attempts ≡ none
      → Outcome a 0 (
          try_connect attempt zero (record a {
            nc = record a.nc { reconnect_attempts = a.nc.reconnect_attempts + 1 };
            calls = a.calls ++ (connect ∷ []);
          }))
  unfolding Outcome tries try_connect nc_set_state
  Outcome-last a e = inr (
    _,
    refl,
    record { failures = λ j h. ap attempt (omega (arith, h)) ∙ e; result = refl; called = refl },
  )

  -- The part of the loop after an attempt.
  abbrev go_on : ℕ → Option Attempts → Option (Attempts × Bool)
  go_on left o = elim o [ none ↦ none | some a' ↦ try_connect attempt left a' ]

  abbrev turn : ℕ → Attempts → Option ℕ → Option (Attempts × Bool)
  turn left a o = elim o [
    | some fd ↦ some (after_success fd a, true)
    | none ↦ go_on left (after_failure a)
  ]

  try_connect-Outcome :
      (last : ℕ) (a : Attempts)
      → a.nc.reconnect_attempts + suc last ≡ a.nc.reconnect_max
      → doubled last a.delay < 2 ^ 31
      → Outcome a last (try_connect attempt (suc last) a)
  unfolding try_connect doubled
  try_connect-Outcome zero a all small = elim (Option-cases (attempt a.nc.reconnect_attempts)) [
    | inr (fd, e) ↦ subst (λ o. Outcome a 0 (turn 0 a o)) (sym e) (Outcome-now a 0 fd e)
    | inl e ↦
        subst (λ o. Outcome a 0 (turn 0 a o)) (sym e)
          (subst (λ o. Outcome a 0 (go_on 0 o)) (sym (after_failure-last a all)) (Outcome-last a e))
  ]
  try_connect-Outcome (suc last) a all small =
      elim (Option-cases (attempt a.nc.reconnect_attempts)) [
        | inr (fd, e) ↦
            subst (λ o. Outcome a (suc last) (turn (suc last) a o)) (sym e)
              (Outcome-now a (suc last) fd e)
        | inl e ↦
            let more : a.nc.reconnect_attempts + 1 < a.nc.reconnect_max = omega (arith, all) in
            let fits : a.delay * 2 < 2 ^ 31 = omega (arith, doubled-le last (a.delay * 2), small) in
            subst (λ o. Outcome a (suc last) (turn (suc last) a o)) (sym e)
              (subst (λ o. Outcome a (suc last) (go_on (suc last) o))
                (sym (after_failure-next a more fits))
                (Outcome-next a last _ e
                  (try_connect-Outcome last (next a) (omega (arith, all)) small)))
      ]

prepared-limits :
    (nc : NativeConnection)
    → ((prepared nc).nc.reconnect_max ≡ nc.reconnect_max)
      × ((prepared nc).nc.reconnect_attempts ≡ 0)
      × ((prepared nc).delay ≡ nc.reconnect_delay_ms)
unfolding prepared nc_close nc_set_state
prepared-limits nc = (ground arith, refl, refl)

-- For a Unix socket with a path and a limit of `last + 1` attempts, whose delay can be doubled
-- `last` times in an int, `nc_reconnect` ends. Either it returns true after the first attempt that
-- gives a descriptor, with the connection on that descriptor and the count reset; or all attempts
-- failed, it returns false and the connection is unhealthy. Before the last attempt there is a pause
-- after each failure, doubled each time and of at most 30 seconds.
pub nc_reconnect-Outcome :
    (attempt : ℕ → Option ℕ) (socket_path : Bytes) (nc : NativeConnection) (last : ℕ)
    → nc.transport ≡ uds
    → nc.reconnect_max ≡ suc last
    → is_empty socket_path ≡ false
    → doubled last nc.reconnect_delay_ms < 2 ^ 31
    → Outcome attempt (prepared nc) last (nc_reconnect attempt socket_path nc)
unfolding nc_reconnect
nc_reconnect-Outcome attempt socket_path nc last e e' path small =
    let passed : (not (is_uds nc.transport) || nc.reconnect_max == 0 || is_empty socket_path)
        ≡ false =
      rw (e, e', path) (ground arith) in
    let (same, fresh, delay) = prepared-limits nc in
    rw passed (
      subst (λ n. Outcome attempt (prepared nc) last (try_connect attempt n (prepared nc))) (sym e')
        (try_connect-Outcome attempt last (prepared nc) (omega (arith, fresh, same, e'))
          (rw delay small)))
