-- ===== src/CachingProxy/Session/Misses.antt =====
-- A turn of `minion` (`Web Proxy_C/Proxy with Cache/main.cpp`) that is answered by the server.
use tiny_projects_and_tools.Base.{
  ℕ, suc, ◌-◌, ◌≤◌, ◌<◌, ◌≡◌, ◌≢◌, refl, ap, ◌∙◌, Bool, true, not, if◌then◌else◌, List, [], ◌∷◌,
  ◌++◌, none, some, length, All, arith,
}
use tiny_projects_and_tools.CachingProxy.Header.{Header}
use tiny_projects_and_tools.CachingProxy.Comm.{max_line, Event, Client, init, openx, set_host_port}
use tiny_projects_and_tools.CachingProxy.Comm.Stream.{Flows, bytes_of, pending}
use tiny_projects_and_tools.CachingProxy.Request.{RequestLine}
use tiny_projects_and_tools.CachingProxy.Session.World.{
  Action, Dial, World, ok, ◌>>=◌, bind-ok, pure, close_both, open_server, write_text_server,
}
use tiny_projects_and_tools.CachingProxy.Session.Requests.{Memory}
use tiny_projects_and_tools.CachingProxy.Session.Fetch.{
  forward_body, take_response, request_of, send_request, fetch,
}
use tiny_projects_and_tools.CachingProxy.Session.Sending.{
  Generous, after_server, write_text_server-sent,
}
use tiny_projects_and_tools.CachingProxy.Session.Headers.{HeaderLine, header_text}
use tiny_projects_and_tools.CachingProxy.Session.Messages.{Message}

-- A connection that succeeds.
abbrev pub dial_of : ℕ → List Event → Dial
dial_of fd input = record { socket = some fd; known = true; connects = true; input = input }

unfoldable pub connected : List ℕ → ℕ → ℕ → List Event → Client
unfolding init
connected host port fd input = record (init host port []) { socket_fd = some fd; input = input }

pub connected-Message :
    (host : List ℕ) (port fd : ℕ) (input : List Event) (front : List ℕ) (lines : List (List ℕ))
    (body : List ℕ)
    → Flows input
    → bytes_of input ≡ front ++ 10 ∷ header_text lines body
    → All (λ x. x ≢ 10) front
    → length front < max_line - 1
    → All HeaderLine lines
    → Message (connected host port fd input) front lines body
unfolding connected
connected-Message host port fd input front lines body flows e plain short all = record {
  ready = record { fd = fd; is_open = refl; fits = omega arith; whole = refl; flows = flows };
  pends = unfold pending in e;
  plain = plain;
  short = short;
  all = all;
}

abbrev pub opened : World → List ℕ → ℕ → ℕ → List Event → World
opened w host port fd input = record w {
  server = connected host port fd input;
  dials = λ n. w.dials (suc n);
}

open_server-reached :
    (w : World) (host : List ℕ) (port fd : ℕ) (input : List Event)
    → w.server.socket_fd ≡ none
    → w.dials 0 ≡ dial_of fd input
    → open_server host port w ≡ (ok true, opened w host port fd input)
unfolding open_server connected openx set_host_port init
open_server-reached w host port fd input o e =
    rw
      (
        o,
        ap (λ (d : Dial). d.socket) e,
        ap (λ (d : Dial). d.known) e,
        ap (λ (d : Dial). d.connects) e,
        ap (λ (d : Dial). d.input) e,
      )
      refl

forward_body-none :
    (h : Header) (close : Bool) (w : World)
    → h.body_size ≡ 0
    → forward_body h close w ≡ (ok close, w)
unfolding forward_body
forward_body-none h close w e = rw e refl

-- The request goes out, and the response is taken.
module _ (m : Memory) (r : RequestLine) (h : Header) (w : World) (fd bound : ℕ) (input : List Event)
    (o : w.server.socket_fd ≡ none) (e : w.dials 0 ≡ dial_of fd input)
    (g : Generous bound w.server_writes) (bodyless : h.body_size ≡ 0)
    (f1 : length (request_of r) ≤ bound) (f2 : length h.text ≤ bound) where
  abbrev w1 : World
  w1 = opened w r.host r.port fd input

  abbrev w2 : World
  w2 = after_server w1 (request_of r)

  abbrev pub asked : World
  asked = after_server w2 h.text

  is_open : w1.server.socket_fd ≡ some fd
  unfolding connected
  is_open = refl

  send_request-asks : send_request m r h w1 ≡ take_response m r (not h.persistent) asked
  unfolding send_request
  send_request-asks =
      bind-ok (write_text_server (request_of r)) _ w1 w2 (some (length (request_of r)))
        (write_text_server-sent w1 fd bound (request_of r) f1 is_open g)
      ∙ bind-ok (write_text_server h.text) _ w2 asked (some (length h.text))
          (write_text_server-sent w2 fd bound h.text f2 is_open (λ n. g (suc n)))
      ∙ bind-ok (forward_body h (not h.persistent)) _ asked asked (not h.persistent)
          (forward_body-none h (not h.persistent) asked bodyless)

  after_open : Bool → Action (Unit {0})
  after_open reached = (if reached then pure tt else close_both) >>= λ _. send_request m r h

  pub fetch-asks : fetch m r h w ≡ take_response m r (not h.persistent) asked
  unfolding fetch after_open
  fetch-asks =
      bind-ok (open_server r.host r.port) after_open w w1 true
        (open_server-reached w r.host r.port fd input o e)
      ∙ send_request-asks
