-- ===== src/CachingProxy/Session/Sending.antt =====
-- The calls of `writex` of a session (`Web Proxy_C/Proxy with Cache/main.cpp`) when the system takes
-- what it is offered.
use tiny_projects_and_tools.Base.{
  ℕ, suc, ◌≤◌, ◌≡◌, refl, ap, ◌∙◌, List, [], ◌∷◌, ◌++◌, some, take, length, arith,
}
use tiny_projects_and_tools.CachingProxy.Comm.{Answer, accepted}
use tiny_projects_and_tools.CachingProxy.Comm.Stream.{take_all}
use tiny_projects_and_tools.CachingProxy.Comm.Writes.{writex_whole}
use tiny_projects_and_tools.CachingProxy.Session.World.{
  World, ok, written, write_client, write_server, write_text_client, write_text_server,
}

-- Every call is answered by a system that takes at least `bound` bytes at once.
abbrev pub Generous : ℕ → (ℕ → List Answer) → Type 0
Generous bound writes =
    (n : ℕ) → (k : ℕ) × (later : List Answer) × (writes n ≡ accepted k ∷ later) × (bound ≤ k)

-- The state after bytes went out.
abbrev pub after_client : World → List ℕ → World
after_client w bytes = record w {
  client_writes = λ n. w.client_writes (suc n);
  to_client = w.to_client ++ bytes;
}

abbrev pub after_server : World → List ℕ → World
after_server w bytes = record w {
  server_writes = λ n. w.server_writes (suc n);
  to_server = w.to_server ++ bytes;
}

module _ (w : World) (fd bound size : ℕ) (memory : List ℕ) (small : size ≤ bound) where
  pub write_client-sent :
      w.client.socket_fd ≡ some fd
      → Generous bound w.client_writes
      → write_client memory size w ≡ (ok (some size), after_client w (take size memory))
  unfolding write_client written
  write_client-sent o g =
      let (k, later, e, enough) = g 0 in
      rw (e, writex_whole w.client fd k size later memory o (omega arith)) refl

  pub write_server-sent :
      w.server.socket_fd ≡ some fd
      → Generous bound w.server_writes
      → write_server memory size w ≡ (ok (some size), after_server w (take size memory))
  unfolding write_server written
  write_server-sent o g =
      let (k, later, e, enough) = g 0 in
      rw (e, writex_whole w.server fd k size later memory o (omega arith)) refl

module _ (w : World) (fd bound : ℕ) (text : List ℕ) (small : length text ≤ bound) where
  pub write_text_client-sent :
      w.client.socket_fd ≡ some fd
      → Generous bound w.client_writes
      → write_text_client text w ≡ (ok (some (length text)), after_client w text)
  unfolding write_text_client
  write_text_client-sent o g =
      write_client-sent w fd bound (length text) (text ++ 0 ∷ []) small o g
      ∙ ap (λ t. (ok (some (length text)), after_client w t)) (take_all text (0 ∷ []))

  pub write_text_server-sent :
      w.server.socket_fd ≡ some fd
      → Generous bound w.server_writes
      → write_text_server text w ≡ (ok (some (length text)), after_server w text)
  unfolding write_text_server
  write_text_server-sent o g =
      write_server-sent w fd bound (length text) (text ++ 0 ∷ []) small o g
      ∙ ap (λ t. (ok (some (length text)), after_server w t)) (take_all text (0 ∷ []))
