-- ===== src/CachingProxy/Session/Hits.antt =====
-- A turn of `minion` (`Web Proxy_C/Proxy with Cache/main.cpp`) that is answered from the cache.
use tiny_projects_and_tools.Base.{
  ℕ, zero, suc, ◌≤◌, ◌<◌, ◌≡◌, refl, sym, ap, subst, ◌∙◌, true, false, List, [], ◌∷◌, ◌++◌, some,
  length, ascii, str_eq, arith,
}
use tiny_projects_and_tools.CachingProxy.Header.{Header, empty_header}
use tiny_projects_and_tools.CachingProxy.Instance.{Instance}
use tiny_projects_and_tools.CachingProxy.Comm.Stream.{pending, IsReady}
use tiny_projects_and_tools.CachingProxy.Request.{RequestLine, parse_address}
use tiny_projects_and_tools.CachingProxy.Session.World.{World, ok, bind-ok, write_text_client}
use tiny_projects_and_tools.CachingProxy.Session.Requests.{
  Memory, copied, key_of, look_up, get_cached, refuse_zero, answer_hit,
}
use tiny_projects_and_tools.CachingProxy.Session.Turn.{answer, turn}
use tiny_projects_and_tools.CachingProxy.Session.Sending.{
  Generous, after_client, write_text_client-sent,
}
use tiny_projects_and_tools.CachingProxy.Session.Headers.{header_of}
use tiny_projects_and_tools.CachingProxy.Session.Messages.{Message}
use tiny_projects_and_tools.CachingProxy.Session.Caching.{Holds, get_cached-Holds}
use tiny_projects_and_tools.CachingProxy.Session.Serving.{turn-Requested}

refuse_zero-some : (n : ℕ) (w : World) → 0 < n → refuse_zero (some n) w ≡ (ok tt, w)
unfolding refuse_zero
refuse_zero-some zero w p = absurd (omega arith)
refuse_zero-some (suc n) w p = refl

module _ (w : World) (i : Instance) (fd bound : ℕ) (o : w.client.socket_fd ≡ some fd)
    (g : Generous bound w.client_writes) (header_fits : length i.header.text ≤ bound)
    (body_fits : length i.body ≤ bound) (some_header : 0 < length i.header.text)
    (some_body : 0 < length i.body) where
  abbrev w1 : World
  w1 = after_client w i.header.text

  abbrev w2 : World
  w2 = after_client w1 i.body

  pub answer_hit-sent : answer_hit i w ≡ (ok tt, w2)
  unfolding answer_hit
  answer_hit-sent =
      bind-ok (write_text_client i.header.text) _ w w1 (some (length i.header.text))
        (write_text_client-sent w fd bound i.header.text header_fits o g)
      ∙ bind-ok (refuse_zero (some (length i.header.text))) _ w1 w1 tt
          (refuse_zero-some (length i.header.text) w1 some_header)
      ∙ bind-ok (write_text_client i.body) _ w1 w2 (some (length i.body))
          (write_text_client-sent w1 fd bound i.body body_fits o (λ n. g (suc n)))
      ∙ refuse_zero-some (length i.body) w2 some_body

look_up-get :
    (r : RequestLine) (h : Header) (w : World)
    → h.body_size ≡ 0
    → h.cacheable ≡ true
    → look_up r h w ≡ get_cached (key_of r) w
unfolding look_up
look_up-get r h w e c = rw (e, c) refl

answer-hit :
    (m : Memory) (r : RequestLine) (h : Header) (i : Instance) (w : World)
    → answer m r h (some i) w ≡ answer_hit i w
unfolding answer
answer-hit m r h i w = refl

-- What the client gets, and what it has still to send.
pub record Served (w : World) (m : Memory) (text body later : List ℕ) : Type 0 where
  pub goes_on : (turn m w).0 ≡ ok tt
  pub out : (turn m w).1.to_client ≡ w.to_client ++ text ++ body
  pub asks_nothing : (turn m w).1.to_server ≡ w.to_server
  pub left : pending (turn m w).1.client ≡ later
  pub ready : IsReady (turn m w).1.client

-- A request, not CONNECT and without a body, for a stored response, whose header and whose body
-- are not empty, is answered with exactly that header and that body, if the client allows it and
-- the system takes every write whole: nothing is sent to a server, the response stays stored, the
-- session goes on, and the client's next bytes are next. Every line of the request fits the
-- buffer, and the client's bytes arrive without a failure.
pub turn-hit :
    (m : Memory) (w : World) (front : List ℕ) (lines : List (List ℕ)) (later : List ℕ)
    (r : RequestLine) (stored : Header) (body : List ℕ) (bound : ℕ)
    → Message w.client front lines later
    → parse_address (copied (front ++ 10 ∷ []) m.url) ≡ some r
    → str_eq r.command (ascii "CONNECT") ≡ false
    → (header_of empty_header lines).body_size ≡ 0
    → (header_of empty_header lines).cacheable ≡ true
    → Holds w.cache (key_of r) stored body
    → Generous bound w.client_writes
    → length stored.text ≤ bound
    → length body ≤ bound
    → 0 < length stored.text
    → 0 < length body
    → Served w m stored.text body later × Holds (turn m w).1.cache (key_of r) stored body
turn-hit m w front lines later r stored body bound p parsed other bodyless allows holds g f1 f2 s1
      s2 =
    let q = turn-Requested m w front lines later r p parsed other in
    let v = q.after in
    let same = ap (λ (x : World). x.cache) q.kept in
    let (c, i, gets, same_header, same_body, holds') =
      get_cached-Holds v (key_of r) stored body
        (subst (λ c. Holds c (key_of r) stored body) (sym same) holds) in
    let v' = record v { cache = c } in
    let text_same = ap (λ (h : Header). h.text) same_header in
    let sends =
      answer_hit-sent v' i q.ready.fd bound q.ready.is_open
        (subst (Generous bound) (sym (ap (λ (x : World). x.client_writes) q.kept)) g)
        (rw same_header f1) (rw same_body f2) (rw same_header s1) (rw same_body s2) in
    let ends =
      q.runs
      ∙ bind-ok (look_up r (header_of empty_header lines)) _ v v' (some i)
          (look_up-get r (header_of empty_header lines) v bodyless allows ∙ gets)
      ∙ answer-hit m r (header_of empty_header lines) i v'
      ∙ sends in
    (
      record {
        goes_on = ap (λ x. x.0) ends;
        out =
            ap (λ x. x.1.to_client) ends
            ∙ ap (λ t. v.to_client ++ t ++ i.body) text_same
            ∙ ap (λ b. v.to_client ++ stored.text ++ b) same_body
            ∙ ap (λ t. t ++ stored.text ++ body) (ap (λ (x : World). x.to_client) q.kept);
        asks_nothing = ap (λ x. x.1.to_server) ends ∙ ap (λ (x : World). x.to_server) q.kept;
        left = ap (λ x. pending x.1.client) ends ∙ q.left;
        ready = subst (λ x. IsReady x.1.client) (sym ends) q.ready;
      },
      subst (λ x. Holds x.1.cache (key_of r) stored body) (sym ends) holds',
    )
