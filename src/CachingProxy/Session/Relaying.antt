-- ===== src/CachingProxy/Session/Relaying.antt =====
-- What a turn of `minion` (`Web Proxy_C/Proxy with Cache/main.cpp`) relays from the server, and what
-- it leaves in the cache.
use mathlib.Core.List.{append_assoc}
use tiny_projects_and_tools.Base.{
  ℕ, ◌+◌, ◌-◌, ◌≤◌, ◌<◌, ◌≡◌, ◌≢◌, refl, sym, ap, subst, ◌∙◌, true, false, not, ◌||◌, if◌then◌else◌,
  List, [], ◌∷◌, ◌++◌, none, some, length, All, ascii, str_eq, arith,
}
use tiny_projects_and_tools.Base.CString.{atoi, to_unsigned}
use tiny_projects_and_tools.CachingProxy.Header.{Header, empty_header, append}
use tiny_projects_and_tools.CachingProxy.Instance.{size_mod}
use tiny_projects_and_tools.CachingProxy.Cache.{Cache}
use tiny_projects_and_tools.CachingProxy.Cache.Entries.{Entries, remove, total}
use tiny_projects_and_tools.CachingProxy.Cache.View.{Represents}
use tiny_projects_and_tools.CachingProxy.Comm.{max_line, Event}
use tiny_projects_and_tools.CachingProxy.Comm.Stream.{Flows, bytes_of}
use tiny_projects_and_tools.CachingProxy.Request.{RequestLine, parse_address}
use tiny_projects_and_tools.CachingProxy.Session.World.{World, ok, ended, closed, ◌>>=◌, bind-ok}
use tiny_projects_and_tools.CachingProxy.Session.Requests.{
  Memory, copied, key_discrete, key_of, look_up,
}
use tiny_projects_and_tools.CachingProxy.Session.Fetch.{
  keep_body, status_code, is_storable, put_cached, store, finish, request_of,
}
use tiny_projects_and_tools.CachingProxy.Session.Turn.{answer, turn}
use tiny_projects_and_tools.CachingProxy.Session.Sending.{Generous}
use tiny_projects_and_tools.CachingProxy.Session.Headers.{HeaderLine, header_text, header_of}
use tiny_projects_and_tools.CachingProxy.Session.Messages.{Message}
use tiny_projects_and_tools.CachingProxy.Session.Responses.{Responded, take_response-Responded}
use tiny_projects_and_tools.CachingProxy.Session.Ends.{
  finish-out, finish-result, store-put, store-out, continue-out,
}
use tiny_projects_and_tools.CachingProxy.Session.Hits.{turn-hit}
use tiny_projects_and_tools.CachingProxy.Session.Caching.{Holds, put_cached-Holds}
use tiny_projects_and_tools.CachingProxy.Session.Serving.{
  Requested, turn-Requested, look_up-missing,
}
use tiny_projects_and_tools.CachingProxy.Session.Misses.{
  dial_of, connected-Message, asked, fetch-asks,
}

-- A request of a client for a response that is not stored, and a server that sends it.
module _ (m : Memory) (w : World) (front : List ℕ) (lines : List (List ℕ)) (later : List ℕ)
    (r : RequestLine) (p : Message w.client front lines later)
    (parsed : parse_address (copied (front ++ 10 ∷ []) m.url) ≡ some r)
    (other : str_eq r.command (ascii "CONNECT") ≡ false)
    (bodyless : (header_of empty_header lines).body_size ≡ 0)
    (missing : w.cache.map (key_of r) ≡ none) (fd bound : ℕ) (input : List Event)
    (no_server : w.server.socket_fd ≡ none) (dial : w.dials 0 ≡ dial_of fd input)
    (large : max_line ≤ bound) (g_client : Generous bound w.client_writes)
    (g_server : Generous bound w.server_writes) (f1 : length (request_of r) ≤ bound)
    (f2 : length (header_of empty_header lines).text ≤ bound) (sfront : List ℕ)
    (slines : List (List ℕ)) (body code : List ℕ) (flows : Flows input)
    (arrives : bytes_of input ≡ sfront ++ 10 ∷ header_text slines body)
    (plain : All (λ x. x ≢ 10) sfront) (short : length sfront < max_line - 1)
    (all : All HeaderLine slines)
    (status : status_code (copied (sfront ++ 10 ∷ []) m.resp) ≡ some code) where
  abbrev request : Header
  request = header_of empty_header lines

  abbrev response : Header
  response = header_of (append empty_header (sfront ++ 10 ∷ [])) slines

  module _ (f3 : length response.text ≤ bound) (whole : response.chunked ≡ false)
      (sized : response.body_size ≡ length body) (small : length body < size_mod) where
    q : Requested m w front lines later r p parsed other
    q = turn-Requested m w front lines later r p parsed other

    same_map : q.after.cache.map (key_of r) ≡ none
    same_map = ap (λ (x : World). x.cache.map (key_of r)) q.kept ∙ missing

    writes_client : Generous bound q.after.client_writes
    writes_client =
        subst (Generous bound) (sym (ap (λ (x : World). x.client_writes) q.kept)) g_client

    writes_server : Generous bound q.after.server_writes
    writes_server =
        subst (Generous bound) (sym (ap (λ (x : World). x.server_writes) q.kept)) g_server

    closed_server : q.after.server.socket_fd ≡ none
    closed_server = ap (λ (x : World). x.server.socket_fd) q.kept ∙ no_server

    dials : q.after.dials 0 ≡ dial_of fd input
    dials = ap (λ (x : World). x.dials 0) q.kept ∙ dial

    abbrev v : World
    v = asked m r request q.after fd bound input closed_server dials writes_server bodyless f1 f2

    responded :
        Responded m v sfront code slines body
          (connected-Message r.host r.port fd input sfront slines body flows arrives plain short
            all)
          status
          r
          (not request.persistent)
          response
    responded =
        take_response-Responded m v sfront code slines body
          (connected-Message r.host r.port fd input sfront slines body flows arrives plain short
            all)
          status r (not request.persistent) q.ready.fd bound large q.ready.is_open writes_client f3
          whole sized small

    turn-stores :
        turn m w
        ≡ (store (key_of r) response code (keep_body response [] body) >>= λ _.
              finish (not request.persistent) response)
            responded.after
    unfolding answer
    turn-stores =
        q.runs
        ∙ bind-ok (look_up r request) (answer m r request) q.after q.after none
            (look_up-missing r request q.after same_map)
        ∙ fetch-asks m r request q.after fd bound input closed_server dials writes_server bodyless
            f1 f2
        ∙ responded.runs

    -- A request that is not CONNECT and has no body, for a response that is not stored, in a
    -- session without an open server, goes to the server with its header as the proxy keeps it,
    -- if the server is reached and the system takes every write whole; whatever the pieces in
    -- which a response of the length that it names, not chunked, arrives without a failure, the
    -- client gets its header lines, as the proxy keeps them, and exactly its body. Every line
    -- fits the buffer, the status line has a code, and the bytes of the client arrive without a
    -- failure as well.
    pub turn-miss :
        ((turn m w).1.to_client ≡ w.to_client ++ response.text ++ body)
        × ((turn m w).1.to_server ≡ w.to_server ++ request_of r ++ request.text)
    turn-miss =
        let u = responded.after in
        let out =
          continue-out (not request.persistent) response u
            (store (key_of r) response code (keep_body response [] body) u)
            (store-out (key_of r) response code (keep_body response [] body) u) in
        (
          ap (λ x. x.1.to_client) turn-stores
              ∙ out.0
              ∙ responded.out
              ∙ ap (λ (x : World). x.to_client ++ response.text ++ body) q.kept,
          ap (λ x. x.1.to_server) turn-stores
              ∙ out.1
              ∙ ap (λ (x : World). x.to_server) responded.kept
              ∙ ap (λ (x : World). x.to_server ++ request_of r ++ request.text) q.kept,
        )

    module _ (es : Entries (List ℕ)) (represents : Represents key_discrete w.cache es)
        (new : All (λ (e : List ℕ × ℕ). e.1 ≢ w.address) es) (cacheable : response.cacheable ≡ true)
        (good : to_unsigned 32 (atoi code) ≡ 200)
        (room : total w.cache.heap (remove key_discrete (key_of r) es)
            + (length response.text + length body)
          < size_mod)
        (fits : length response.text + length body ≤ w.cache.max_size) where
      storable : is_storable response code body ≡ true
      unfolding is_storable
      storable = ground (arith, cacheable, good, whole, sized)

      kept_body : keep_body response [] body ≡ body
      unfolding keep_body
      kept_body = rw cacheable refl

      abbrev u : World
      u = responded.after

      cache_same : u.cache ≡ w.cache
      cache_same = ap (λ (x : World). x.cache) responded.kept ∙ ap (λ (x : World). x.cache) q.kept

      address_same : u.address ≡ w.address
      address_same =
          ap (λ (x : World). x.address) responded.kept ∙ ap (λ (x : World). x.address) q.kept

      stored :
          (c : Cache (List ℕ)) × (put_cached (key_of r) response body u
            ≡ (ok tt, record u { cache = c; address = u.address + 1 }))
          × Holds c (key_of r) response body
      stored =
          put_cached-Holds u es (key_of r) response body
            (subst (λ c. Represents key_discrete c es) (sym cache_same) represents)
            (subst (λ a. All (λ e. e.1 ≢ a) es) (sym address_same) new) sized
            (subst
              (λ (c : Cache (List ℕ)).
                total c.heap (remove key_discrete (key_of r) es)
                  + (length response.text + length body)
                < size_mod)
              (sym cache_same) room)
            (subst (λ (c : Cache (List ℕ)). length response.text + length body ≤ c.max_size)
              (sym cache_same) fits)

      turn-finishes :
          turn m w
          ≡ finish
              (not request.persistent)
              response
              (record u { cache = stored.0; address = u.address + 1 })
      turn-finishes =
          turn-stores
          ∙ ap
              (λ b.
                (store (key_of r) response code b >>= λ _. finish (not request.persistent) response)
                  u)
              kept_body
          ∙ bind-ok (store (key_of r) response code body)
              (λ _. finish (not request.persistent) response) u
              (record u { cache = stored.0; address = u.address + 1 }) tt
              (store-put (key_of r) response code body u storable ∙ stored.1)

      -- Where such a response has the code 200, allows it and fits the cache, it is stored under the
      -- host and the file of the request, with the header lines as the proxy keeps them and the whole
      -- body. The session ends if the request or the response asks to close, and goes on otherwise.
      pub turn-miss-Holds :
          Holds (turn m w).1.cache (key_of r) response body
          × ((turn m w).0
              ≡ (if not request.persistent || not response.persistent then ended closed else ok tt))
      turn-miss-Holds =
          let u' = record u { cache = stored.0; address = u.address + 1 } in
          (
            subst (λ c. Holds c (key_of r) response body)
                (sym (
                  ap (λ x. x.1.cache) turn-finishes
                  ∙ (finish-out (not request.persistent) response u').2))
                stored.2,
            ap (λ x. x.0) turn-finishes ∙ finish-result (not request.persistent) response u' whole,
          )

      -- Once a response is fetched, as when it was not stored, and stored, as it is if it has the
      -- code 200, allows it, fits the cache and overflows no size, any session that is asked for
      -- the same host and file, before another session changes the cache, answers with the bytes
      -- that the first client got, and without a server. In both sessions the system takes every
      -- write whole, every line fits the buffer, all bytes arrive without a failure, and the
      -- request is not CONNECT and has no body; the second client allows a stored response, and
      -- its header and body are not empty.
      pub turn-again :
          (m' : Memory) (w' : World) (front' : List ℕ) (lines' : List (List ℕ)) (later' : List ℕ)
          (r' : RequestLine) (bound' : ℕ)
          → w'.cache ≡ (turn m w).1.cache
          → key_of r' ≡ key_of r
          → Message w'.client front' lines' later'
          → parse_address (copied (front' ++ 10 ∷ []) m'.url) ≡ some r'
          → str_eq r'.command (ascii "CONNECT") ≡ false
          → (header_of empty_header lines').body_size ≡ 0
          → (header_of empty_header lines').cacheable ≡ true
          → Generous bound' w'.client_writes
          → length response.text ≤ bound'
          → length body ≤ bound'
          → 0 < length response.text
          → 0 < length body
          → (sent : List ℕ) × ((turn m w).1.to_client ≡ w.to_client ++ sent)
            × ((turn m' w').1.to_client ≡ w'.to_client ++ sent)
            × ((turn m' w').1.to_server ≡ w'.to_server)
      turn-again m' w' front' lines' later' r' bound' same key p' parsed' other' bodyless' allows'
            g' f1' f2' s1' s2' =
          let holds : Holds w'.cache (key_of r') response body =
            subst (λ c. Holds c (key_of r') response body) (sym same)
              (subst (λ k. Holds (turn m w).1.cache k response body) (sym key) turn-miss-Holds.0) in
          let (served, _) =
            turn-hit m' w' front' lines' later' r' response body bound' p' parsed' other' bodyless'
              allows' holds g' f1' f2' s1' s2' in
          (
            response.text ++ body,
            turn-miss.0 ∙ append_assoc w.to_client response.text body,
            served.out ∙ append_assoc w'.to_client response.text body,
            served.asks_nothing,
          )
