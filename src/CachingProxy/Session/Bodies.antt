-- ===== src/CachingProxy/Session/Bodies.antt =====
-- The loop of `minion` (`Web Proxy_C/Proxy with Cache/main.cpp`) that relays a body of a known length.
use mathlib.Core.List.{append_assoc, append-nil}
use tiny_projects_and_tools.Base.{
  ℕ, zero, suc, ◌+◌, ◌-◌, ◌%◌, ◌≤◌, ◌<◌, ◌≡◌, refl, sym, ap, ◌∙◌, false, List, [], ◌∷◌, ◌++◌, some,
  length, length-append, drop, take, arith, inl, inr, Bool-cases,
}
use tiny_projects_and_tools.CachingProxy.Header.{Header}
use tiny_projects_and_tools.CachingProxy.Instance.{size_mod}
use tiny_projects_and_tools.CachingProxy.Comm.{max_line, Client}
use tiny_projects_and_tools.CachingProxy.Comm.Stream.{pending, IsReady, take_all}
use tiny_projects_and_tools.CachingProxy.Comm.Progress.{Gives, readx-Gives}
use tiny_projects_and_tools.CachingProxy.Session.World.{World, ok, fill, server_read}
use tiny_projects_and_tools.CachingProxy.Session.Fetch.{
  more, keep_body, send_client, pass_body, sized_round, body_round, body_loop,
}
use tiny_projects_and_tools.CachingProxy.Session.Sending.{Generous, after_client, write_client-sent}

-- The state after a read of `bytes` that left `c`.
abbrev after_read : World → Client → List ℕ → World
after_read w c bytes = record w { server = c; buf = bytes ++ drop (length bytes) w.buf }

-- What a session changes while it relays a body.
abbrev pub forget_relay : World → World
forget_relay w = record w {
  server = w.client;
  buf = [];
  to_client = [];
  client_writes = w.server_writes;
}

module _ (h : Header) (whole : h.chunked ≡ false) where
  keep_body-append :
      (body xs ys : List ℕ) → keep_body h (keep_body h body xs) ys ≡ keep_body h body (xs ++ ys)
  unfolding keep_body
  keep_body-append body xs ys = elim (Bool-cases h.cacheable) [
    | inl kept ↦ rw kept (append_assoc body xs ys)
    | inr dropped ↦ rw dropped refl
  ]

  keep_body-nil : (body : List ℕ) → keep_body h body [] ≡ body
  unfolding keep_body
  keep_body-nil body = elim (Bool-cases h.cacheable) [
    | inl kept ↦ rw kept (append-nil body)
    | inr dropped ↦ rw dropped refl
  ]

  module _ (w : World) (fd bound remaining : ℕ) (body : List ℕ) (large : max_line ≤ bound)
      (o : w.client.socket_fd ≡ some fd) (g : Generous bound w.client_writes) where
    pass_body-more :
        (bytes : List ℕ)
        → length bytes ≤ bound
        → take (length bytes) w.buf ≡ bytes
        → pass_body h remaining body bytes w
          ≡ (ok (more remaining (keep_body h body bytes)), after_client w bytes)
    unfolding pass_body send_client
    pass_body-more bytes small front = ground (arith, sends, whole)
      where
        sends : send_client bytes w ≡ (ok (some (length bytes)), after_client w bytes)
        sends =
            write_client-sent w fd bound (length bytes) w.buf small o g
            ∙ ap (λ t. (ok (some (length bytes)), after_client w t)) front

  module _ (w : World) (fd bound remaining b : ℕ) (body rest : List ℕ) (large : max_line ≤ bound)
      (o : w.client.socket_fd ≡ some fd) (g : Generous bound w.client_writes)
      (d : Gives w.server (max_line - 1) b rest) where
    abbrev given : List ℕ
    given = b ∷ d.chunk

    abbrev after_round : World
    after_round = after_client (after_read w d.after given) given

    abbrev left : ℕ
    left = (remaining + size_mod - length (b ∷ d.chunk)) % size_mod

    reads_given : server_read w ≡ (ok (some given), after_read w d.after given)
    unfolding server_read fill
    reads_given = rw d.reads refl

    sized_round-more :
        sized_round h remaining body w ≡ (ok (more left (keep_body h body given)), after_round)
    unfolding sized_round
    sized_round-more = ground (arith, reads_given, passes)
      where
        passes :
            pass_body h left body given (after_read w d.after given)
            ≡ (ok (more left (keep_body h body given)), after_round)
        passes =
            pass_body-more (after_read w d.after given) fd bound left body large o g given
              (omega (arith, d.short)) (take_all given (drop (length given) w.buf))

    loop_more :
        (fuel : ℕ)
        → 0 < remaining
        → body_loop (suc fuel) h remaining body w
          ≡ body_loop fuel h left (keep_body h body given) after_round
    unfolding body_loop
    loop_more fuel p = ground (arith, round_more)
      where
        round_more :
            body_round h remaining body w ≡ (ok (more left (keep_body h body given)), after_round)
        round_more = ground (arith, p, sized_round-more)

  loop_done :
      (fuel : ℕ) (body : List ℕ) (w : World) → body_loop (suc fuel) h 0 body w ≡ (ok body, w)
  unfolding body_loop body_round
  loop_done fuel body w = ground (arith, whole)

  counted : (x y z : ℕ) → x + y ≡ z → suc z < size_mod → (suc z + size_mod - suc x) % size_mod ≡ y
  counted x y z e m = omega arith

  pub record Relayed (w : World) (fuel remaining : ℕ) (body bytes : List ℕ) : Type 0 where
    pub after : World
    pub relays : body_loop fuel h remaining body w ≡ (ok (keep_body h body bytes), after)
    pub out : after.to_client ≡ w.to_client ++ bytes
    pub kept : forget_relay after ≡ forget_relay w

  pub body_loop-Relayed :
      (fuel fd bound : ℕ) (body bytes : List ℕ) (w : World)
      → max_line ≤ bound
      → w.client.socket_fd ≡ some fd
      → Generous bound w.client_writes
      → IsReady w.server
      → w.server.counter < max_line
      → pending w.server ≡ bytes
      → length bytes < size_mod
      → length bytes < fuel
      → Relayed w fuel (length bytes) body bytes
  body_loop-Relayed zero fd bound body bytes w large o g r k e m f = absurd (omega arith)
  body_loop-Relayed (suc fuel) fd bound body [] w large o g r k e m f = record {
    after = w;
    relays = loop_done fuel body w ∙ ap (λ b. (ok b, w)) (sym (keep_body-nil body));
    out = sym (append-nil w.to_client);
    kept = refl;
  }
  body_loop-Relayed (suc fuel) fd bound body (b ∷ rest) w large o g r k e m f =
      let d = readx-Gives w.server (max_line - 1) b rest r (omega arith) (omega arith) e in
      let n = length-append d.chunk (pending d.after) in
      let again =
        body_loop-Relayed fuel fd bound (keep_body h body (b ∷ d.chunk)) (pending d.after)
          (after_round w fd bound (length (b ∷ rest)) b body rest large o g d) large o
          (λ i. g (suc i)) d.ready (omega (arith, d.drained)) refl
          (omega (arith, n, ap length d.left, m)) (omega (arith, n, ap length d.left, f)) in
      record {
        after = again.after;
        relays =
            loop_more w fd bound (length (b ∷ rest)) b body rest large o g d fuel (omega arith)
            ∙ ap
                (λ n.
                  body_loop fuel h n (keep_body h body (b ∷ d.chunk))
                    (after_round w fd bound (length (b ∷ rest)) b body rest large o g d))
                (counted (length d.chunk) (length (pending d.after)) (length rest)
                  (sym n ∙ ap length d.left) m)
            ∙ again.relays
            ∙ ap (λ k. (ok k, again.after))
                (keep_body-append body (b ∷ d.chunk) (pending d.after)
                  ∙ ap (λ l. keep_body h body (b ∷ l)) d.left);
        out =
            again.out
            ∙ append_assoc w.to_client (b ∷ d.chunk) (pending d.after)
            ∙ ap (λ l. w.to_client ++ b ∷ l) d.left;
        kept = again.kept;
      }
