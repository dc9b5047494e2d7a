-- ===== src/CachingProxy/Session/Reading.antt =====
-- How many bytes a client of `Web Proxy_C/Proxy with Cache/commclient.cpp` can still read, which
-- bounds the loops of a session.
use tiny_projects_and_tools.Base.{ℕ, ◌+◌, List, [], ◌∷◌, length}
use tiny_projects_and_tools.CachingProxy.Comm.{Event, arrived, interrupted, failed, Client}

unfoldable pub arrivals : List Event → ℕ
arrivals [] = 0
arrivals (arrived bs ∷ r) = length bs + arrivals r
arrivals (interrupted ∷ r) = arrivals r
arrivals (failed ∷ r) = arrivals r

unfoldable pub supply : Client → ℕ
unfolding arrivals
supply c = c.counter + arrivals c.input
