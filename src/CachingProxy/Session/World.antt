-- ===== src/CachingProxy/Session/World.antt =====
-- The state of a session of `minion` (`Web Proxy_C/Proxy with Cache/main.cpp`), how it ends, and its
-- calls of the sockets.
use tiny_projects_and_tools.Base.{
  ℕ, suc, ◌+◌, ◌-◌, ◌≡◌, ap, Bool, List, [], ◌∷◌, ◌++◌, Option, none, some, length, drop,
}
use tiny_projects_and_tools.CachingProxy.Cache.{Cache}
use tiny_projects_and_tools.CachingProxy.Comm.{
  max_line, Event, Client, readlinex, readx, closex, openx, set_host_port, Answer, Outcome, sent,
  error, waiting, writex,
}

-- What `openx` meets: the socket that the system makes, whether the host is known and answers, and
-- what the connection will deliver.
pub record Dial : Type 0 where
  pub socket : Option ℕ
  pub known : Bool
  pub connects : Bool
  pub input : List Event

pub record World : Type 0 where
  pub client : Client
  pub server : Client
  -- `buf`.
  pub buf : List ℕ
  -- The cache that all sessions share, under the host and the file.
  pub cache : Cache (List ℕ)
  -- Where `new` puts the next instance.
  pub address : ℕ
  pub client_writes : ℕ → List Answer
  pub server_writes : ℕ → List Answer
  pub dials : ℕ → Dial
  -- The bytes that went out so far.
  pub to_client : List ℕ
  pub to_server : List ℕ

pub data End : Type 0 where
  -- The session returns, with both sockets closed.
  closed : End
  -- A `write` that the system has not answered.
  stuck : End
  -- An assertion fails.
  fault : End
  out_of_fuel : End

pub data Result (A : Type 0) : Type 0 where
  ok : A → Result A
  ended : End → Result A

abbrev pub Action : Type 0 → Type 0
Action A = World → Result A × World

module _ {A : Type 0} where
  abbrev pub pure : A → Action A
  pure a w = (ok a, w)

  abbrev pub stop : End → Action A
  stop e w = (ended e, w)

  -- `client.closex(); server.closex(); return`.
  abbrev pub close_both : Action A
  close_both w = (ended closed, record w { client = closex w.client; server = closex w.server })

  abbrev pub or_stop : Option A → End → Action A
  or_stop none e = stop e
  or_stop (some a) _ = pure a

  abbrev pub or_close : Option A → Action A
  or_close none = close_both
  or_close (some a) = pure a

abbrev pub continue : {A B : Type 0} → Result A × World → (A → Action B) → Result B × World
continue (ok a, w) f = f a w
continue (ended e, w) f = (ended e, w)

infixl 5 ◌>>=◌ ◌>>◌
abbrev pub ◌>>=◌ : {A B : Type 0} → Action A → (A → Action B) → Action B
◌>>=◌ m f w = continue (m w) f

abbrev pub ◌>>◌ : {A B : Type 0} → Action A → Action B → Action B
m >> k = m >>= λ _. k

pub bind-ok :
    {A B : Type 0} (m : Action A) (f : A → Action B) (w w' : World) (a : A)
    → m w ≡ (ok a, w')
    → (m >>= f) w ≡ f a w'
bind-ok m f w w' a e = ap (λ p. continue p f) e

-- A line and its final 0, or the bytes of a read, in the buffer. A call that fails is taken to leave
-- the buffer as it was.
unfoldable pub fill_line : Option (List ℕ) → List ℕ → List ℕ
fill_line none buf = buf
fill_line (some line) buf = line ++ 0 ∷ drop (length line + 1) buf

unfoldable pub fill : Option (List ℕ) → List ℕ → List ℕ
fill none buf = buf
fill (some bytes) buf = bytes ++ drop (length bytes) buf

unfoldable pub client_line : Action (Option (List ℕ))
unfolding readlinex fill_line
client_line w =
    let (c, got) = readlinex w.client max_line in
    (ok got, record w { client = c; buf = fill_line got w.buf })

unfoldable pub server_line : Action (Option (List ℕ))
unfolding readlinex fill_line
server_line w =
    let (c, got) = readlinex w.server max_line in
    (ok got, record w { server = c; buf = fill_line got w.buf })

unfoldable pub client_read : Action (Option (List ℕ))
unfolding readx fill
client_read w =
    let (c, got) = readx w.client (max_line - 1) in
    (ok got, record w { client = c; buf = fill got w.buf })

unfoldable pub server_read : Action (Option (List ℕ))
unfolding readx fill
server_read w =
    let (c, got) = readx w.server (max_line - 1) in
    (ok got, record w { server = c; buf = fill got w.buf })

-- The result of `writex`, `none` for -1, and the bytes that went out.
unfoldable pub written : Outcome → ℕ → Result (Option ℕ) × List ℕ
written (sent out) size = (ok (some size), out)
written (error out) size = (ok none, out)
written (waiting out) size = (ended stuck, out)

-- `client.writex` and `server.writex` of `size` bytes from the front of `memory`.
unfoldable pub write_client : List ℕ → ℕ → Action (Option ℕ)
unfolding writex written
write_client memory size w =
    let (r, out) = written (writex w.client (w.client_writes 0) memory size) size in
    (r, record w { client_writes = λ n. w.client_writes (suc n); to_client = w.to_client ++ out })

unfoldable pub write_server : List ℕ → ℕ → Action (Option ℕ)
unfolding writex written
write_server memory size w =
    let (r, out) = written (writex w.server (w.server_writes 0) memory size) size in
    (r, record w { server_writes = λ n. w.server_writes (suc n); to_server = w.to_server ++ out })

-- A string with the 0 behind it.
unfoldable pub write_text_client : List ℕ → Action (Option ℕ)
unfolding write_client
write_text_client text = write_client (text ++ 0 ∷ []) (length text)

unfoldable pub write_text_server : List ℕ → Action (Option ℕ)
unfolding write_server
write_text_server text = write_server (text ++ 0 ∷ []) (length text)

-- `server.setHostPort(host, port)` and `server.openx()`.
unfoldable pub open_server : List ℕ → ℕ → Action Bool
unfolding openx set_host_port
open_server host port w =
    let d = w.dials 0 in
    let (c, reached) =
      openx (set_host_port w.server host port) d.socket d.known d.connects d.input in
    (ok reached, record w { server = c; dials = λ n. w.dials (suc n) })
