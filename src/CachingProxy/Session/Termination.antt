-- ===== src/CachingProxy/Session/Termination.antt =====
-- That a turn of `minion` (`Web Proxy_C/Proxy with Cache/main.cpp`) ends as the source does.
use tiny_projects_and_tools.Base.{
  ℕ, zero, suc, Bool, not, ◌==◌, ◌&&◌, ◌||◌, List, Option, none, some, length, ltb, if◌then◌else◌,
  arith, str_eq, ascii,
}
use tiny_projects_and_tools.CachingProxy.Header.{Header, empty_header, append}
use tiny_projects_and_tools.CachingProxy.Instance.{Instance}
use tiny_projects_and_tools.CachingProxy.Cache.{Cache}
use tiny_projects_and_tools.CachingProxy.Request.{RequestLine, parse_address}
use tiny_projects_and_tools.CachingProxy.Session.World.{
  World, fault, Action, pure, or_close, or_stop, close_both, ◌>>=◌, client_line, server_line,
  client_read, write_client, write_server, write_text_client, write_text_server, open_server,
}
use tiny_projects_and_tools.CachingProxy.Session.Reading.{supply}
use tiny_projects_and_tools.CachingProxy.Session.Requests.{
  Memory, copied, key_of, terminate, after_get, at_least_one, client_header, read_request,
  get_cached, look_up, refuse_zero, answer_hit,
}
use tiny_projects_and_tools.CachingProxy.Session.Fetch.{
  is_storable, status_code, is_empty, send_server, forward_body, read_status, response_header,
  relay_body, after_put, put_cached, store, finish, request_of, take_response, send_request, fetch,
}
use tiny_projects_and_tools.CachingProxy.Session.Turn.{answer, turn}
use tiny_projects_and_tools.CachingProxy.Session.Headers.{client_side, server_side}
use tiny_projects_and_tools.CachingProxy.Session.Rounds.{relay_body-Safe}
use tiny_projects_and_tools.CachingProxy.Session.Fuel.{
  Fueled, Safe, >>=-Safe, or_close-Safe, or_fault-Safe, written-Fueled, if-Safe, read_header-Fueled,
}

client_header-Safe : Safe client_header
unfolding client_header client_side
client_header-Safe w =
    read_header-Fueled client_side (suc (supply w.client)) empty_header w (omega arith)

response_header-Safe : (h : Header) → Safe (response_header h)
unfolding response_header server_side
response_header-Safe h w = read_header-Fueled server_side (suc (supply w.server)) h w (omega arith)

write_client-Safe : (memory : List ℕ) (size : ℕ) → Safe (write_client memory size)
unfolding write_client
write_client-Safe memory size w = written-Fueled _ size

write_server-Safe : (memory : List ℕ) (size : ℕ) → Safe (write_server memory size)
unfolding write_server
write_server-Safe memory size w = written-Fueled _ size

after_put-Fueled : (w : World) (o : Option (Cache (List ℕ))) → Fueled (after_put w o).0
unfolding after_put
after_put-Fueled w none = tt
after_put-Fueled w (some c) = tt

put_cached-Safe : (key : List ℕ) (h : Header) (body : List ℕ) → Safe (put_cached key h body)
unfolding put_cached
put_cached-Safe key h body w = after_put-Fueled w _

store-Safe : (key : List ℕ) (h : Header) (code body : List ℕ) → Safe (store key h code body)
unfolding store
store-Safe key h code body =
    if-Safe (is_storable h code body) (put_cached key h body) (pure tt) (put_cached-Safe key h body)
      (λ w. tt)

finish-Safe : (close : Bool) (h : Header) → Safe (finish close h)
unfolding finish
finish-Safe close h =
    if-Safe (close || h.chunked || not h.persistent) close_both (pure tt) (λ w. tt) (λ w. tt)

got-Fueled : (w : World) (o : Option (Cache (List ℕ) × Option ℕ)) → Fueled (after_get w o).0
unfolding after_get
got-Fueled w none = tt
got-Fueled w (some (c, none)) = tt
got-Fueled w (some (c, some address)) = tt

get_cached-Safe : (key : List ℕ) → Safe (get_cached key)
unfolding get_cached
get_cached-Safe key w = got-Fueled w _

look_up-Safe : (r : RequestLine) (h : Header) → Safe (look_up r h)
unfolding look_up
look_up-Safe r h =
    if-Safe ((h.body_size == 0) && h.cacheable) (get_cached (key_of r)) (pure none)
      (get_cached-Safe (key_of r)) (λ w. tt)

refuse_zero-Safe : (n : Option ℕ) → Safe (refuse_zero n)
unfolding refuse_zero
refuse_zero-Safe none w = tt
refuse_zero-Safe (some zero) w = tt
refuse_zero-Safe (some (suc n)) w = tt

answer_hit-Safe : (i : Instance) → Safe (answer_hit i)
unfolding answer_hit write_text_client
answer_hit-Safe i = >>=-Safe (write_text_client i.header.text) _ (write_client-Safe _ _) (λ n.
    >>=-Safe (refuse_zero n) _ (refuse_zero-Safe n)
      (λ _. >>=-Safe (write_text_client i.body) _ (write_client-Safe _ _) refuse_zero-Safe))

-- From the line that was read on.
after_status : Memory → Option (List ℕ) → Action (List ℕ × List ℕ)
after_status m got = or_close (at_least_one got) >>= λ line. terminate >>= λ _.
    or_stop (status_code (copied line m.resp)) fault >>= λ code. pure (line, code)

after_status-Safe : (m : Memory) (got : Option (List ℕ)) → Safe (after_status m got)
unfolding after_status
after_status-Safe m got =
    >>=-Safe (or_close (at_least_one got)) _ (or_close-Safe (at_least_one got)) (λ line w.
      >>=-Safe (or_stop (status_code (copied line m.resp)) fault) (λ code. pure (line, code))
        (or_fault-Safe (status_code (copied line m.resp))) (λ code w'. tt) _)

read_status-Safe : (m : Memory) → Safe (read_status m)
unfolding read_status after_status
read_status-Safe m =
    >>=-Safe server_line (after_status m) (λ w. unfold server_line in tt) (after_status-Safe m)

-- From the request line that was read on.
after_request : Memory → Option (List ℕ) → Action RequestLine
after_request m got = or_close (at_least_one got) >>= λ line. terminate >>= λ _.
    or_close (parse_address (copied line m.url)) >>= λ r.
    if str_eq r.command (ascii "CONNECT") then close_both else pure r

after_request-Safe : (m : Memory) (got : Option (List ℕ)) → Safe (after_request m got)
unfolding after_request
after_request-Safe m got =
    >>=-Safe (or_close (at_least_one got)) _ (or_close-Safe (at_least_one got)) (λ line w.
      >>=-Safe (or_close (parse_address (copied line m.url)))
        (λ r. if str_eq r.command (ascii "CONNECT") then close_both else pure r)
        (or_close-Safe (parse_address (copied line m.url)))
        (λ r. if-Safe (str_eq r.command (ascii "CONNECT")) close_both (pure r) (λ w. tt) (λ w. tt))
        _)

read_request-Safe : (m : Memory) → Safe (read_request m)
unfolding read_request after_request
read_request-Safe m =
    >>=-Safe client_line (after_request m) (λ w. unfold client_line in tt) (after_request-Safe m)

forward_some : Bool → Option (List ℕ) → Action Bool
forward_some close got = or_close got >>= λ bytes.
    send_server bytes >>= λ result. or_close result >>= λ _. pure (close || is_empty bytes)

forward_some-Safe : (close : Bool) (got : Option (List ℕ)) → Safe (forward_some close got)
unfolding forward_some send_server
forward_some-Safe close got = >>=-Safe (or_close got) _ (or_close-Safe got) (λ bytes.
    >>=-Safe (send_server bytes) (λ result. or_close result >>= λ _. pure (close || is_empty bytes))
      (λ w. write_server-Safe w.buf (length bytes) w)
      (λ result.
        >>=-Safe (or_close result) (λ _. pure (close || is_empty bytes)) (or_close-Safe result)
          (λ _ w. tt)))

forward_body-Safe : (h : Header) (close : Bool) → Safe (forward_body h close)
unfolding forward_body forward_some
forward_body-Safe h close =
    if-Safe (ltb 0 h.body_size) (client_read >>= forward_some close) (pure close)
      (>>=-Safe client_read (forward_some close) (λ w. unfold client_read in tt)
        (forward_some-Safe close))
      (λ w. tt)

take_response-Safe : (m : Memory) (r : RequestLine) (close : Bool) → Safe (take_response m r close)
unfolding take_response write_text_client
take_response-Safe m r close = >>=-Safe (read_status m) _ (read_status-Safe m) (λ s.
    >>=-Safe (response_header (append empty_header s.0)) _ (response_header-Safe _) (λ x.
      >>=-Safe (or_close x.1) _ (or_close-Safe x.1) (λ _.
        >>=-Safe (write_text_client x.0.text) _ (write_client-Safe _ _) (λ n.
          >>=-Safe (or_close n) _ (or_close-Safe n) (λ _.
            >>=-Safe (relay_body x.0) _ (relay_body-Safe x.0) (λ body.
              >>=-Safe (store (key_of r) x.0 s.1 body) _ (store-Safe (key_of r) x.0 s.1 body)
                (λ _. finish-Safe close x.0)))))))

send_request-Safe : (m : Memory) (r : RequestLine) (h : Header) → Safe (send_request m r h)
unfolding send_request write_text_server
send_request-Safe m r h =
    >>=-Safe (write_text_server (request_of r)) _ (write_server-Safe _ _) (λ _.
      >>=-Safe (write_text_server h.text) _ (write_server-Safe _ _) (λ _.
        >>=-Safe (forward_body h (not h.persistent)) _ (forward_body-Safe h _)
          (take_response-Safe m r)))

fetch-Safe : (m : Memory) (r : RequestLine) (h : Header) → Safe (fetch m r h)
unfolding fetch
fetch-Safe m r h =
    >>=-Safe (open_server r.host r.port)
      (λ reached. (if reached then pure tt else close_both) >>= λ _. send_request m r h)
      (λ w. unfold open_server in tt)
      (λ reached.
        >>=-Safe (if reached then pure tt else close_both) (λ _. send_request m r h)
          (if-Safe reached (pure tt) close_both (λ w. tt) (λ w. tt)) (λ _. send_request-Safe m r h))

answer-Safe :
    (m : Memory) (r : RequestLine) (h : Header) (o : Option Instance) → Safe (answer m r h o)
unfolding answer
answer-Safe m r h none = fetch-Safe m r h
answer-Safe m r h (some i) = answer_hit-Safe i

-- Whatever the client and the server send, however the calls of the system end and whatever the cache
-- holds, the loops of a turn have enough fuel: the turn goes on, closes the session, waits for a
-- call of `write`, or fails an assertion, as the source does.
pub turn-Fueled : (m : Memory) (w : World) → Fueled (turn m w).0
unfolding turn
turn-Fueled m = >>=-Safe (read_request m) _ (read_request-Safe m) (λ r.
    >>=-Safe client_header _ client_header-Safe
      (λ x. >>=-Safe (look_up r x.0) (answer m r x.0) (look_up-Safe r x.0) (answer-Safe m r x.0)))
