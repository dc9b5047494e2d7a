-- ===== src/CachingProxy/Session/Fetch.antt =====
-- How `minion` (`Web Proxy_C/Proxy with Cache/main.cpp`) gets a response from the server, passes it
-- on, and stores it in the cache.
use tiny_projects_and_tools.Base.{
  ℕ, zero, suc, ◌+◌, ◌-◌, ◌%◌, Bool, true, false, not, ◌&&◌, ◌||◌, List, [], ◌∷◌, ◌++◌, Option,
  none, some, length, ltb, ◌==◌, if◌then◌else◌, ascii,
}
use tiny_projects_and_tools.Base.CString.{atoi, to_unsigned}
use tiny_projects_and_tools.SimpleProxy.Address.{strtok_r, rest_of}
use tiny_projects_and_tools.CachingProxy.Header.{Header, empty_header, append}
use tiny_projects_and_tools.CachingProxy.Instance.{Instance, size_mod}
use tiny_projects_and_tools.CachingProxy.Cache.{Cache, put}
use tiny_projects_and_tools.CachingProxy.Request.{RequestLine}
use tiny_projects_and_tools.CachingProxy.Session.World.{
  World, Result, ok, ended, fault, out_of_fuel, Action, pure, stop, close_both, or_stop, or_close,
  ◌>>=◌, server_line, client_read, server_read, write_client, write_server, write_text_client,
  write_text_server, open_server,
}
use tiny_projects_and_tools.CachingProxy.Session.Reading.{supply}
use tiny_projects_and_tools.CachingProxy.Session.Requests.{
  key_discrete, Memory, copied, is_blank_line, at_least_one, read_header, key_of, terminate,
}

-- The bytes of a call that did not fail are sent from `buf`.
unfoldable pub send_client : List ℕ → Action (Option ℕ)
unfolding write_client
send_client bytes w = write_client w.buf (length bytes) w

unfoldable pub send_server : List ℕ → Action (Option ℕ)
unfolding write_server
send_server bytes w = write_server w.buf (length bytes) w

abbrev pub is_empty : List ℕ → Bool
is_empty [] = true
is_empty (b ∷ bs) = false

-- The body of the request: what one `readx` gives, whatever its length. The result is `clientClose`.
unfoldable pub forward_body : Header → Bool → Action Bool
unfolding client_read send_server
forward_body h close =
    if ltb 0 h.body_size
    then (do
      got ← client_read
      bytes ← or_close got
      result ← send_server bytes
      _ ← or_close result
      pure (close || is_empty bytes))
    else pure close

-- The second word of the status line; without one, an assertion fails.
unfoldable pub status_code : List ℕ → Option (List ℕ)
unfolding strtok_r rest_of
status_code resp = strtok_r (rest_of resp 32) 32

unfoldable pub response_header : Header → Action (Header × Option (List ℕ))
unfolding read_header server_line supply
response_header h w = read_header server_line (suc (supply w.server)) h w

-- A round of the loop that relays the body ends the loop or goes on, with the body for the cache and,
-- if it goes on, `serverBodySize`.
pub data Round : Type 0 where
  done : List ℕ → Round
  more : ℕ → List ℕ → Round

unfoldable pub keep_body : Header → List ℕ → List ℕ → List ℕ
keep_body h body bytes = if h.cacheable then body ++ bytes else body

-- From the test of `isCachable` on.
unfoldable pub pass_body : Header → ℕ → List ℕ → List ℕ → Action Round
unfolding send_client keep_body is_blank_line
pass_body h remaining body bytes = do
  result ← send_client bytes
  _ ← or_close result
  (λ w. (
    ok (
        if h.chunked && is_blank_line w.buf
        then done (keep_body h body bytes)
        else more remaining (keep_body h body bytes)),
    w,
  ))

-- With a body size that is left, a read of any length; an empty one ends the loop.
unfoldable pub sized_round : Header → ℕ → List ℕ → Action Round
unfolding server_read pass_body
sized_round h remaining body = do
  got ← server_read
  bytes ← or_close got
  if is_empty bytes
      then pure (done body)
      else pass_body h ((remaining + size_mod - length bytes) % size_mod) body bytes

-- In chunks, a line.
unfoldable pub chunked_round : Header → List ℕ → Action Round
unfolding server_line at_least_one pass_body
chunked_round h body = do
  got ← server_line
  line ← or_close (at_least_one got)
  pass_body h 0 body line

unfoldable pub body_round : Header → ℕ → List ℕ → Action Round
unfolding sized_round chunked_round
body_round h remaining body =
    if ltb 0 remaining
    then sized_round h remaining body
    else if h.chunked
    then chunked_round h body
    else pure (done body)

unfoldable pub body_loop : ℕ → Header → ℕ → List ℕ → Action (List ℕ)
unfolding body_round
body_loop zero h remaining body = stop out_of_fuel
body_loop (suc fuel) h remaining body = do
  round ← body_round h remaining body
  elim round [ done body' ↦ pure body' | more remaining' body' ↦ body_loop fuel h remaining' body' ]

unfoldable pub relay_body : Header → Action (List ℕ)
unfolding body_loop supply
relay_body h w = body_loop (suc (supply w.server)) h h.body_size [] w

-- A new instance, its fields set, and `cache.put`, in which an assertion may fail.
unfoldable pub after_put : World → Option (Cache (List ℕ)) → Result (Unit {0}) × World
after_put w none = (ended fault, w)
after_put w (some c) = (ok tt, record w { cache = c; address = w.address + 1 })

unfoldable pub put_cached : List ℕ → Header → List ℕ → Action (Unit {0})
unfolding put after_put
put_cached key h body w =
    let i : Instance = record { header = h; body = body; ite = (w.cache.heap w.address).ite } in
    let c = record w.cache { heap = λ a. if a == w.address then i else w.cache.heap a } in
    after_put w (put key_discrete c key w.address)

-- What is worth storing: a whole body, not in chunks, of a response that allows it.
unfoldable pub is_storable : Header → List ℕ → List ℕ → Bool
unfolding atoi to_unsigned
is_storable h code body =
    h.cacheable
    && (to_unsigned 32 (atoi code) == 200)
    && not (ltb 0 h.body_size && not (h.body_size == length body))
    && not h.chunked

unfoldable pub store : List ℕ → Header → List ℕ → List ℕ → Action (Unit {0})
unfolding put_cached is_storable
store key h code body = if is_storable h code body then put_cached key h body else pure tt

-- The status line, and its code.
unfoldable pub read_status : Memory → Action (List ℕ × List ℕ)
unfolding server_line at_least_one status_code copied
read_status m = do
  got ← server_line
  line ← or_close (at_least_one got)
  _ ← terminate
  code ← or_stop (status_code (copied line m.resp)) fault
  pure (line, code)

-- The end of a turn: the connection is kept if both sides keep it. `serverClose` is what the header
-- says, whatever it was before.
unfoldable pub finish : Bool → Header → Action (Unit {0})
finish close h = if close || h.chunked || not h.persistent then close_both else pure tt

-- From the status line on.
unfoldable pub take_response : Memory → RequestLine → Bool → Action (Unit {0})
unfolding read_status response_header write_text_client relay_body store finish append
take_response m r close = do
  (line, code) ← read_status m
  (h, last) ← response_header (append empty_header line)
  _ ← or_close last
  result ← write_text_client h.text
  _ ← or_close result
  body ← relay_body h
  _ ← store (key_of r) h code body
  finish close h

-- The line for the server.
unfoldable pub request_of : RequestLine → List ℕ
request_of r = r.command ++ ascii " " ++ r.file ++ ascii " " ++ r.version ++ ascii "\r\n"

-- The request goes to the server; the results of the two `writex` are not looked at.
unfoldable pub send_request : Memory → RequestLine → Header → Action (Unit {0})
unfolding write_text_server forward_body take_response request_of
send_request m r h = do
  _ ← write_text_server (request_of r)
  _ ← write_text_server h.text
  close ← forward_body h (not h.persistent)
  take_response m r close

-- A miss.
unfoldable pub fetch : Memory → RequestLine → Header → Action (Unit {0})
unfolding open_server send_request
fetch m r h = do
  reached ← open_server r.host r.port
  _ ← (if reached then pure tt else close_both)
  send_request m r h
