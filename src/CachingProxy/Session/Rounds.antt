-- ===== src/CachingProxy/Session/Rounds.antt =====
-- That the loop of `minion` (`Web Proxy_C/Proxy with Cache/main.cpp`) that relays a body uses up what
-- the server can still send.
use tiny_projects_and_tools.Base.{
  ℕ, zero, suc, ◌+◌, ◌-◌, ◌%◌, ◌≤◌, ◌<◌, Bool, true, false, ◌&&◌, List, [], ◌∷◌, Option, none, some,
  length, ltb, if◌then◌else◌, arith, inl, inr, Bool-cases,
}
use tiny_projects_and_tools.CachingProxy.Header.{Header}
use tiny_projects_and_tools.CachingProxy.Instance.{size_mod}
use tiny_projects_and_tools.CachingProxy.Comm.{max_line, readlinex, readx}
use tiny_projects_and_tools.CachingProxy.Session.World.{
  World, Result, ok, ended, closed, stuck, fault, out_of_fuel, Action, pure, or_close, ◌>>=◌,
  continue, server_line, server_read, write_client, fill, fill_line,
}
use tiny_projects_and_tools.CachingProxy.Session.Reading.{supply}
use tiny_projects_and_tools.CachingProxy.Session.Supply.{count, readlinex-Uses, readx-Uses}
use tiny_projects_and_tools.CachingProxy.Session.Requests.{is_blank_line, at_least_one}
use tiny_projects_and_tools.CachingProxy.Session.Fetch.{
  is_empty, send_client, Round, done, more, keep_body, pass_body, sized_round, chunked_round,
  body_round, body_loop, relay_body,
}
use tiny_projects_and_tools.CachingProxy.Session.Fuel.{Fueled, Safe, written-Fueled}

-- A round that goes on has used up some of what the server can still send.
abbrev Shrinks : ℕ → Result Round × World → Type 0
Shrinks k (ok (done body), w) = Unit {0}
Shrinks k (ok (more n body), w) = supply w.server < k
Shrinks k (ended closed, w) = Unit {0}
Shrinks k (ended stuck, w) = Unit {0}
Shrinks k (ended fault, w) = Unit {0}
Shrinks k (ended out_of_fuel, w) = ⊥

if-Shrinks :
    (k : ℕ) (b : Bool) (m n : Action Round) (w : World)
    → Shrinks k (m w)
    → Shrinks k (n w)
    → Shrinks k ((if b then m else n) w)
if-Shrinks k true m n w s t = s
if-Shrinks k false m n w s t = t

module _ (h : Header) where
  after_pass : ℕ → List ℕ → List ℕ → Option ℕ → Action Round
  after_pass remaining body bytes result = or_close result >>= λ _. λ w. (
    ok (
        if h.chunked && is_blank_line w.buf
        then done (keep_body h body bytes)
        else more remaining (keep_body h body bytes)),
    w,
  )

  after_pass-Shrinks :
      (k remaining : ℕ) (body bytes : List ℕ) (p : Result (Option ℕ) × World)
      → Fueled p.0
      → supply p.1.server < k
      → Shrinks k (continue p (after_pass remaining body bytes))
  unfolding after_pass
  after_pass-Shrinks k remaining body bytes (ok none, w) f s = tt
  after_pass-Shrinks k remaining body bytes (ok (some n), w) f s =
      elim (Bool-cases (h.chunked && is_blank_line w.buf)) [
        | inl last ↦ rw last tt
        | inr inside ↦ rw inside s
      ]
  after_pass-Shrinks k remaining body bytes (ended closed, w) f s = tt
  after_pass-Shrinks k remaining body bytes (ended stuck, w) f s = tt
  after_pass-Shrinks k remaining body bytes (ended fault, w) f s = tt
  after_pass-Shrinks k remaining body bytes (ended out_of_fuel, w) f s = f

  pass_body-Shrinks :
      (k remaining : ℕ) (body bytes : List ℕ) (w : World)
      → supply w.server < k
      → Shrinks k (pass_body h remaining body bytes w)
  unfolding pass_body after_pass send_client write_client
  pass_body-Shrinks k remaining body bytes w s =
      after_pass-Shrinks k remaining body bytes (send_client bytes w)
        (written-Fueled _ (length bytes)) s

  sized_round-Shrinks :
      (remaining : ℕ) (body : List ℕ) (w : World)
      → Shrinks (supply w.server) (sized_round h remaining body w)
  unfolding sized_round server_read
  sized_round-Shrinks remaining body w =
      given (readx w.server (max_line - 1)).1 (readx-Uses w.server (max_line - 1)).1
    where
      after : Option (List ℕ) → World
      after got = record w { server = (readx w.server (max_line - 1)).0; buf = fill got w.buf }

      given :
          (got : Option (List ℕ))
          → count got + supply (readx w.server (max_line - 1)).0 ≤ supply w.server
          → Shrinks (supply w.server) (
              (or_close got >>= λ bytes.
              if is_empty bytes
              then pure (done body)
              else pass_body h ((remaining + size_mod - length bytes) % size_mod) body bytes)
                (after got))
      given none u = tt
      given (some []) u = tt
      given (some (b ∷ bytes)) u =
          pass_body-Shrinks (supply w.server)
            ((remaining + size_mod - length (b ∷ bytes)) % size_mod) body (b ∷ bytes)
            (after (some (b ∷ bytes))) (omega arith)

  chunked_round-Shrinks :
      (body : List ℕ) (w : World) → Shrinks (supply w.server) (chunked_round h body w)
  unfolding chunked_round server_line at_least_one
  chunked_round-Shrinks body w =
      given (readlinex w.server max_line).1 (readlinex-Uses w.server max_line).1
    where
      after : Option (List ℕ) → World
      after got = record w { server = (readlinex w.server max_line).0; buf = fill_line got w.buf }

      given :
          (got : Option (List ℕ))
          → count got + supply (readlinex w.server max_line).0 ≤ supply w.server
          → Shrinks
              (supply w.server)
              ((or_close (at_least_one got) >>= λ line. pass_body h 0 body line) (after got))
      given none u = tt
      given (some []) u = tt
      given (some (b ∷ line)) u =
          pass_body-Shrinks (supply w.server) 0 body (b ∷ line) (after (some (b ∷ line)))
            (omega arith)

  body_round-Shrinks :
      (remaining : ℕ) (body : List ℕ) (w : World)
      → Shrinks (supply w.server) (body_round h remaining body w)
  unfolding body_round
  body_round-Shrinks remaining body w =
      if-Shrinks (supply w.server) (ltb 0 remaining) (sized_round h remaining body)
        (if h.chunked then chunked_round h body else pure (done body)) w
        (sized_round-Shrinks remaining body w)
        (if-Shrinks (supply w.server) h.chunked (chunked_round h body) (pure (done body)) w
          (chunked_round-Shrinks body w) tt)

  after_round : ℕ → Round → Action (List ℕ)
  after_round fuel round = elim round [
    | done body' ↦ pure body'
    | more remaining' body' ↦ body_loop fuel h remaining' body'
  ]

  after_round-Fueled :
      (fuel k : ℕ) (p : Result Round × World)
      → ((remaining : ℕ) (body : List ℕ) (w : World)
          → supply w.server < fuel
          → Fueled (body_loop fuel h remaining body w).0)
      → k ≤ fuel
      → Shrinks k p
      → Fueled (continue p (after_round fuel)).0
  unfolding after_round
  after_round-Fueled fuel k (ok (done body), w) again f s = tt
  after_round-Fueled fuel k (ok (more n body), w) again f s = again n body w (omega arith)
  after_round-Fueled fuel k (ended closed, w) again f s = tt
  after_round-Fueled fuel k (ended stuck, w) again f s = tt
  after_round-Fueled fuel k (ended fault, w) again f s = tt
  after_round-Fueled fuel k (ended out_of_fuel, w) again f s = s

  body_loop-Fueled :
      (fuel remaining : ℕ) (body : List ℕ) (w : World)
      → supply w.server < fuel
      → Fueled (body_loop fuel h remaining body w).0
  unfolding body_loop after_round
  body_loop-Fueled zero remaining body w f = absurd (omega arith)
  body_loop-Fueled (suc fuel) remaining body w f =
      after_round-Fueled fuel (supply w.server) (body_round h remaining body w)
        (body_loop-Fueled fuel) (omega arith) (body_round-Shrinks remaining body w)

  pub relay_body-Safe : Safe (relay_body h)
  unfolding relay_body
  relay_body-Safe w = body_loop-Fueled (suc (supply w.server)) h.body_size [] w (omega arith)
