-- ===== src/CachingProxy/Session/Responses.antt =====
-- What `minion` (`Web Proxy_C/Proxy with Cache/main.cpp`) does with the response of a server, up to
-- the point where it stores it.
use tiny_projects_and_tools.Base.{
  ℕ, suc, ◌-◌, ◌≤◌, ◌<◌, ◌≡◌, refl, sym, ap, subst, ◌∙◌, Bool, false, List, [], ◌∷◌, ◌++◌, some,
  length, set, ascii, arith,
}
use tiny_projects_and_tools.CachingProxy.Header.{Header, empty_header, append}
use tiny_projects_and_tools.CachingProxy.Instance.{size_mod}
use tiny_projects_and_tools.CachingProxy.Comm.{max_line, readlinex}
use tiny_projects_and_tools.CachingProxy.Comm.Stream.{pending, IsReady}
use tiny_projects_and_tools.CachingProxy.Request.{RequestLine}
use tiny_projects_and_tools.CachingProxy.Session.World.{
  World, ok, ◌>>=◌, bind-ok, fill_line, server_line, write_text_client,
}
use tiny_projects_and_tools.CachingProxy.Session.Reading.{supply}
use tiny_projects_and_tools.CachingProxy.Session.Requests.{Memory, copied, key_of}
use tiny_projects_and_tools.CachingProxy.Session.Fetch.{
  keep_body, status_code, read_status, response_header, relay_body, body_loop, store, finish,
  take_response,
}
use tiny_projects_and_tools.CachingProxy.Session.Sending.{
  Generous, after_client, write_text_client-sent,
}
use tiny_projects_and_tools.CachingProxy.Session.Messages.{
  Message, pending-le-supply, lines-lt-supply, at_least_one-line,
}
use tiny_projects_and_tools.CachingProxy.Session.Headers.{
  header_text, header_of, Reads, readlinex-Reads, HeaderRead, read_header-lines, server_side,
}
use tiny_projects_and_tools.CachingProxy.Session.Bodies.{forget_relay, Relayed, body_loop-Relayed}

-- What reading from the server does not change.
abbrev forget_server : World → World
forget_server w = record w { server = w.client; buf = [] }

-- The header is sent and the body relayed, once the header is read.
module _ (w w2 : World) (h : Header) (body : List ℕ) (kept : forget_server w2 ≡ forget_server w)
    (ready : IsReady w2.server) (left : pending w2.server ≡ body)
    (space : w2.server.counter < max_line) (fd bound : ℕ) (large : max_line ≤ bound)
    (o : w.client.socket_fd ≡ some fd) (g : Generous bound w.client_writes)
    (fits : length h.text ≤ bound) (whole : h.chunked ≡ false) (sized : h.body_size ≡ length body)
    (small : length body < size_mod) where
  o2 : w2.client.socket_fd ≡ some fd
  o2 = ap (λ (v : World). v.client.socket_fd) kept ∙ o

  g2 : Generous bound w2.client_writes
  g2 = subst (Generous bound) (sym (ap (λ (v : World). v.client_writes) kept)) g

  header_sent : write_text_client h.text w2 ≡ (ok (some (length h.text)), after_client w2 h.text)
  header_sent = write_text_client-sent w2 fd bound h.text fits o2 g2

  body_relayed :
      Relayed h whole (after_client w2 h.text) (suc (supply w2.server)) (length body) [] body
  body_relayed =
      body_loop-Relayed h whole (suc (supply w2.server)) fd bound [] body (after_client w2 h.text)
        large o2 (λ n. g2 (suc n)) ready space left small
        (omega (arith, pending-le-supply w2.server, ap length left))

  relay_body-relays :
      relay_body h (after_client w2 h.text) ≡ (ok (keep_body h [] body), body_relayed.after)
  unfolding relay_body
  relay_body-relays =
      ap (λ n. body_loop (suc (supply w2.server)) h n [] (after_client w2 h.text)) sized
      ∙ body_relayed.relays

  all_out : body_relayed.after.to_client ≡ w.to_client ++ h.text ++ body
  all_out = body_relayed.out ∙ ap (λ t. t ++ h.text ++ body) (ap (λ (v : World). v.to_client) kept)

  all_kept : forget_relay body_relayed.after ≡ forget_relay w
  all_kept = body_relayed.kept ∙ ap forget_relay kept

module _ (m : Memory) (r : RequestLine) (close : Bool) (w w1 w2 w3 w4 : World)
    (line code last body : List ℕ) (h : Header) (n : ℕ) where
  take_response-steps :
      read_status m w ≡ (ok (line, code), w1)
      → response_header (append empty_header line) w1 ≡ (ok (h, some last), w2)
      → write_text_client h.text w2 ≡ (ok (some n), w3)
      → relay_body h w3 ≡ (ok body, w4)
      → take_response m r close w ≡ (store (key_of r) h code body >>= λ _. finish close h) w4
  unfolding take_response
  take_response-steps e1 e2 e3 e4 =
      bind-ok (read_status m) _ w w1 (line, code) e1
      ∙ bind-ok (response_header (append empty_header line)) _ w1 w2 (h, some last) e2
      ∙ bind-ok (write_text_client h.text) _ w2 w3 (some n) e3
      ∙ bind-ok (relay_body h) _ w3 w4 body e4

module _ (m : Memory) (w : World) (front code : List ℕ) (lines : List (List ℕ)) (body : List ℕ)
    (p : Message w.server front lines body)
    (status : status_code (copied (front ++ 10 ∷ []) m.resp) ≡ some code) where
  line : List ℕ
  line = front ++ 10 ∷ []

  t : Reads w.server (front ++ 10 ∷ []) (header_text lines body)
  t = readlinex-Reads w.server front (header_text lines body) p.ready p.plain p.short p.pends

  abbrev w1 : World
  w1 = record w {
    server = (readlinex w.server max_line).0;
    buf = set (fill_line (some (front ++ 10 ∷ [])) w.buf) (max_line - 1) 0;
  }

  read_status-line : read_status m w ≡ (ok (front ++ 10 ∷ [], code), w1)
  unfolding read_status server_line
  read_status-line = rw (t.reads, at_least_one-line front, status) refl

  abbrev response : Header
  response = header_of (append empty_header (front ++ 10 ∷ [])) lines

  header_read :
      HeaderRead server_side w1
        (suc (supply w1.server))
        (append empty_header (front ++ 10 ∷ []))
        lines
        body
  unfolding server_side
  header_read =
      read_header-lines server_side lines body w1 (suc (supply w1.server))
        (append empty_header (front ++ 10 ∷ [])) p.all t.ready t.left
        (lines-lt-supply w1.server lines body p.all t.left)

  -- What a session has done when it comes to store the response `h`.
  pub record Responded (r : RequestLine) (close : Bool) (h : Header) : Type 0 where
    pub after : World
    pub runs :
        take_response m r close w
        ≡ (store (key_of r) h code (keep_body h [] body) >>= λ _. finish close h) after
    pub out : after.to_client ≡ w.to_client ++ h.text ++ body
    pub kept : forget_relay after ≡ forget_relay w

  module _ (r : RequestLine) (close : Bool) (fd bound : ℕ) (large : max_line ≤ bound)
      (o : w.client.socket_fd ≡ some fd) (g : Generous bound w.client_writes)
      (fits : length response.text ≤ bound) (whole : response.chunked ≡ false)
      (sized : response.body_size ≡ length body) (small : length body < size_mod) where
    kept2 : forget_server header_read.after ≡ forget_server w
    unfolding server_side
    kept2 = header_read.kept

    ready2 : IsReady header_read.after.server
    unfolding server_side
    ready2 = header_read.ready

    left2 : pending header_read.after.server ≡ body
    unfolding server_side
    left2 = header_read.left

    space2 : header_read.after.server.counter < max_line
    unfolding server_side
    space2 = header_read.space

    header_reads :
        response_header (append empty_header (front ++ 10 ∷ [])) w1
        ≡ (ok (response, some (ascii "\r\n")), header_read.after)
    unfolding response_header
    header_reads = header_read.reads

    pub take_response-Responded : Responded r close response
    take_response-Responded =
        let w2 = header_read.after in
        let b =
          body_relayed w w2 response body kept2 ready2 left2 space2 fd bound large o g fits whole
            sized small in
        record {
          after = b.after;
          runs =
              take_response-steps m r close w w1 w2 (after_client w2 response.text) b.after
                (front ++ 10 ∷ []) code (ascii "\r\n") (keep_body response [] body) response
                (length response.text) read_status-line header_reads
                (header_sent w w2 response body kept2 ready2 left2 space2 fd bound large o g fits
                  whole sized small)
                (relay_body-relays w w2 response body kept2 ready2 left2 space2 fd bound large o g
                  fits whole sized small);
          out =
              all_out w w2 response body kept2 ready2 left2 space2 fd bound large o g fits whole
                sized small;
          kept =
              all_kept w w2 response body kept2 ready2 left2 space2 fd bound large o g fits whole
                sized small;
        }
