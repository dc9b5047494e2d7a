-- ===== src/CachingProxy/Session/Turn.antt =====
-- A turn of the loop of `minion` (`Web Proxy_C/Proxy with Cache/main.cpp`), and a session. Within a
-- turn no other session changes the cache; between turns any may.
use tiny_projects_and_tools.Base.{List, [], ◌∷◌, Option, none, some}
use tiny_projects_and_tools.CachingProxy.Header.{Header}
use tiny_projects_and_tools.CachingProxy.Request.{RequestLine}
use tiny_projects_and_tools.CachingProxy.Instance.{Instance}
use tiny_projects_and_tools.CachingProxy.Session.World.{Action, pure, ◌>>=◌}
use tiny_projects_and_tools.CachingProxy.Session.Requests.{
  Memory, read_request, client_header, look_up, answer_hit,
}
use tiny_projects_and_tools.CachingProxy.Session.Fetch.{fetch}

unfoldable pub answer : Memory → RequestLine → Header → Option Instance → Action (Unit {0})
unfolding fetch answer_hit
answer m r h none = fetch m r h
answer m r h (some i) = answer_hit i

unfoldable pub turn : Memory → Action (Unit {0})
unfolding read_request client_header look_up answer
turn m = do r ← read_request m; (h, _) ← client_header; hit ← look_up r h; answer m r h hit

-- Turns for as long as they go on; each has its own memory.
unfoldable pub minion : List Memory → Action (Unit {0})
unfolding turn
minion [] = pure tt
minion (m ∷ later) = do _ ← turn m; minion later
