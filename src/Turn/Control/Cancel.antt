-- ===== src/Turn/Control/Cancel.antt =====
-- What the clients of the control plane bring about.
use star_bridge.Base.{
  ℕ, suc, ◌+◌, ◌≡◌, refl, Bool, true, false, not, ◌&&◌, ◌||◌, Option, none, some, List, [], ◌∷◌,
  ◌++◌, arith, if◌then◌else◌, Bytes, codes, is_empty, copy_bounded,
}
use star_bridge.Turn.State.{
  Effect, sent, started, replied, sse_heartbeat, sse_delta, metrics, Env, Turn, log, engine_cancel,
  engine_set_turn_active,
}
use star_bridge.Turn.Control.{
  Route, models, cancel, conflict, not_found, route_of, request_line, serve, answer,
  handle_midturn_control_plane,
}
use star_bridge.Turn.Control.Clients.{
  asks, is_cancel, is_some, any_cancel, asking, Clients, Clients-asking,
}

-- The answers and the frames among what is done.
unfoldable pub replies : List Effect → ℕ
replies [] = 0
replies (replied s ∷ out) = suc (replies out)
replies (_ ∷ out) = replies out

unfoldable pub frames : List Effect → ℕ
frames [] = 0
frames (sent s ∷ out) = suc (frames out)
frames (_ ∷ out) = frames out

replies-append : (a b : List Effect) → replies (a ++ b) ≡ replies a + replies b
unfolding replies
replies-append [] b = omega arith
replies-append (replied s ∷ a) b = omega (arith, replies-append a b)
replies-append (sent s ∷ a) b = replies-append a b
replies-append (started s ∷ a) b = replies-append a b
replies-append (sse_heartbeat ∷ a) b = replies-append a b
replies-append (sse_delta s n ∷ a) b = replies-append a b
replies-append (metrics s p c n k ∷ a) b = replies-append a b

frames-append : (a b : List Effect) → frames (a ++ b) ≡ frames a + frames b
unfolding frames
frames-append [] b = omega arith
frames-append (sent s ∷ a) b = omega (arith, frames-append a b)
frames-append (replied s ∷ a) b = frames-append a b
frames-append (started s ∷ a) b = frames-append a b
frames-append (sse_heartbeat ∷ a) b = frames-append a b
frames-append (sse_delta s n ∷ a) b = frames-append a b
frames-append (metrics s p c n k ∷ a) b = frames-append a b

-- How many frames a first cancellation sends.
abbrev pub cancel_frames : Env → Bool → Bool → ℕ
cancel_frames env before asked =
    if asked && not before && (env.framed_mode && env.stdin_open) then 1 else 0

-- The flag, the answers and the frames of the turn after clients of which `n` ask for something and, if `asked`, one to cancel.
pub record Answered (env : Env) (t t' : Turn) (n : ℕ) (asked : Bool) : Type 0 where
  pub flag : t'.cancelled ≡ (t.cancelled || asked)
  pub answers : replies t'.out ≡ replies t.out + n
  pub sends : frames t'.out ≡ frames t.out + cancel_frames env t.cancelled asked

module _ (env : Env) where
  engine_cancel-Answered : (t : Turn) → Answered env t (engine_cancel env t) 0 true
  unfolding engine_cancel replies frames
  engine_cancel-Answered t = go t.cancelled refl (env.framed_mode && env.stdin_open) refl
    where
      id : Bytes
      id = if is_empty env.request_id then codes "cancel-1" else env.request_id

      text : Bytes
      text = copy_bounded 512 (
          codes "{\"type\":\"cancel\",\"id\":\""
          ++ (id ++ codes "\",\"reason\":\"client_disconnected\"}"))

      flagged : Turn
      flagged = record t { cancelled = true }

      go :
          (c : Bool)
          → t.cancelled ≡ c
          → (open_pipe : Bool) → (env.framed_mode && env.stdin_open) ≡ open_pipe
          → Answered env t
              (if c then t else if open_pipe then log (sent text) flagged else flagged)
              0
              true
      go true e o f = record { flag = ground arith; answers = omega arith; sends = ground arith }
      go false e true f = record {
        flag = ground arith;
        answers = omega (arith, replies-append t.out (sent text ∷ []));
        sends = ground (arith, frames-append t.out (sent text ∷ []));
      }
      go false e false f = record {
        flag = ground arith;
        answers = omega arith;
        sends = ground arith;
      }

  -- An answer after what else is done.
  replied-Answered :
      (s : Bytes) {t t' : Turn} {asked : Bool}
      → Answered env t t' 0 asked
      → Answered env t (log (replied s) t') 1 asked
  unfolding replies frames
  replied-Answered s {t' = t'} v = record {
    flag = v.flag;
    answers = omega (arith, v.answers, replies-append t'.out (replied s ∷ []));
    sends = omega (arith, v.sends, frames-append t'.out (replied s ∷ []));
  }

  untouched : (t : Turn) → Answered env t t 0 false
  untouched t = record { flag = ground arith; answers = omega arith; sends = omega arith }

  serve-Answered : (r : Route) (t : Turn) → Answered env t (serve env r t) 1 (is_cancel (some r))
  unfolding serve
  serve-Answered models t = replied-Answered _ {t = t} {t' = t} (untouched t)
  serve-Answered cancel t =
      let v : Answered env t (engine_cancel env t) 0 true = engine_cancel-Answered t in
      replied-Answered _ {t = t} {t' = engine_set_turn_active false (engine_cancel env t)}
        (record { flag = v.flag; answers = v.answers; sends = v.sends })
  serve-Answered conflict t = replied-Answered _ {t = t} {t' = t} (untouched t)
  serve-Answered not_found t = replied-Answered _ {t = t} {t' = t} (untouched t)

  answer-Answered :
      (client : Option Bytes) (t : Turn)
      → Answered env t
          (answer env client t)
          (if is_some (asks client) then 1 else 0)
          (is_cancel (asks client))
  unfolding answer asks
  answer-Answered none t = untouched t
  answer-Answered (some text) t = go (request_line text)
    where
      go :
          (line : Option (Bytes × Bytes))
          → (let a : Option Route = elim line [ none ↦ none | some l ↦ some (route_of l.0 l.1) ] in
              Answered env t
                (elim line [ none ↦ t | some l ↦ serve env (route_of l.0 l.1) t ])
                (if is_some a then 1 else 0)
                (is_cancel a))
      go none = untouched t
      go (some l) = serve-Answered (route_of l.0 l.1) t

  -- One after the other.
  Answered-trans :
      {t t₁ t₂ : Turn} {m n : ℕ} {a b : Bool}
      → Answered env t t₁ m a
      → Answered env t₁ t₂ n b
      → Answered env t t₂ (m + n) (a || b)
  Answered-trans {t} {t₁} {t₂} {m} {n} {a} {b} v w = record {
    flag = ground (arith, v.flag, w.flag);
    answers = omega (arith, v.answers, w.answers);
    sends = ground (arith, v.flag, v.sends, w.sends);
  }

  handle-Answered :
      (clients : List (Option Bytes)) (t : Turn)
      → Answered env t
          (handle_midturn_control_plane env clients t)
          (asking clients)
          (any_cancel clients)
  unfolding handle_midturn_control_plane asking any_cancel
  handle-Answered [] t = untouched t
  handle-Answered (client ∷ clients) t =
      Answered-trans {t = t} {t₁ = answer env client t} (answer-Answered client t)
        (handle-Answered clients (answer env client t))

  -- The control plane answers each client whose text starts with the two words of a request line exactly
  -- once, and no other client. It flags the turn as cancelled if and only if it was or a client's words
  -- are the method DELETE and a path below /v1/responses/, and however many are, it sends the engine
  -- one frame: none if the turn was cancelled before, and none without a pipe in framed mode.
  pub handle_midturn_control_plane-cancels :
      (clients : List (Option Bytes)) (t : Turn)
      → (n : ℕ) × ((asked : Bool) × (Clients clients n asked
            × Answered env t (handle_midturn_control_plane env clients t) n asked))
  handle_midturn_control_plane-cancels clients t =
      (asking clients, (any_cancel clients, (Clients-asking clients, handle-Answered clients t)))
