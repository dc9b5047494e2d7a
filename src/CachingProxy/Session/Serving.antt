-- ===== src/CachingProxy/Session/Serving.antt =====
-- A turn of `minion` (`Web Proxy_C/Proxy with Cache/main.cpp`): what it reads from the client.
use tiny_projects_and_tools.Base.{
  ℕ, suc, ◌-◌, ◌≡◌, refl, ap, ◌∙◌, false, ◌&&◌, List, [], ◌∷◌, ◌++◌, none, some, set, ascii, str_eq,
  ◌==◌, Bool-cases, inl, inr,
}
use tiny_projects_and_tools.CachingProxy.Header.{Header, empty_header}
use tiny_projects_and_tools.CachingProxy.Cache.{Cache, get}
use tiny_projects_and_tools.CachingProxy.Comm.{max_line, readlinex}
use tiny_projects_and_tools.CachingProxy.Comm.Stream.{pending, IsReady}
use tiny_projects_and_tools.CachingProxy.Request.{RequestLine, parse_address}
use tiny_projects_and_tools.CachingProxy.Session.World.{
  World, ok, ◌>>=◌, bind-ok, fill_line, client_line,
}
use tiny_projects_and_tools.CachingProxy.Session.Reading.{supply}
use tiny_projects_and_tools.CachingProxy.Session.Requests.{
  Memory, copied, key_discrete, key_of, after_get, read_request, client_header, look_up, get_cached,
}
use tiny_projects_and_tools.CachingProxy.Session.Turn.{answer, turn}
use tiny_projects_and_tools.CachingProxy.Session.Headers.{
  header_text, header_of, Reads, readlinex-Reads, HeaderRead, read_header-lines, client_side,
}
use tiny_projects_and_tools.CachingProxy.Session.Messages.{
  Message, lines-lt-supply, at_least_one-line,
}

-- What reading from the client does not change.
abbrev pub forget_client : World → World
forget_client w = record w { client = w.server; buf = [] }

module _ (m : Memory) (w : World) (front : List ℕ) (lines : List (List ℕ)) (later : List ℕ)
    (r : RequestLine) (p : Message w.client front lines later)
    (parsed : parse_address (copied (front ++ 10 ∷ []) m.url) ≡ some r)
    (other : str_eq r.command (ascii "CONNECT") ≡ false) where
  t : Reads w.client (front ++ 10 ∷ []) (header_text lines later)
  t = readlinex-Reads w.client front (header_text lines later) p.ready p.plain p.short p.pends

  abbrev w1 : World
  w1 = record w {
    client = (readlinex w.client max_line).0;
    buf = set (fill_line (some (front ++ 10 ∷ [])) w.buf) (max_line - 1) 0;
  }

  read_request-line : read_request m w ≡ (ok r, w1)
  unfolding read_request client_line
  read_request-line = rw (t.reads, at_least_one-line front, parsed, other) refl

  header_read : HeaderRead client_side w1 (suc (supply w1.client)) empty_header lines later
  unfolding client_side
  header_read =
      read_header-lines client_side lines later w1 (suc (supply w1.client)) empty_header p.all
        t.ready t.left (lines-lt-supply w1.client lines later p.all t.left)

  header_reads :
      client_header w1 ≡ (ok (header_of empty_header lines, some (ascii "\r\n")), header_read.after)
  unfolding client_header
  header_reads = header_read.reads

  pub record Requested : Type 0 where
    pub after : World
    pub runs :
        turn m w
        ≡ (look_up r (header_of empty_header lines) >>= answer m r (header_of empty_header lines))
            after
    pub kept : forget_client after ≡ forget_client w
    pub ready : IsReady after.client
    pub left : pending after.client ≡ later

  pub turn-Requested : Requested
  unfolding turn client_side
  turn-Requested = record {
    after = header_read.after;
    runs =
        bind-ok (read_request m) _ w w1 r read_request-line
        ∙ bind-ok client_header _ w1 header_read.after
            (header_of empty_header lines, some (ascii "\r\n")) header_reads;
    kept = header_read.kept;
    ready = header_read.ready;
    left = header_read.left;
  }

get-missing :
    (c : Cache (List ℕ)) (k : List ℕ) → c.map k ≡ none → get key_discrete c k ≡ some (c, none)
unfolding get
get-missing c k e = rw (e, get) refl

pub look_up-missing :
    (r : RequestLine) (h : Header) (w : World)
    → w.cache.map (key_of r) ≡ none
    → look_up r h w ≡ (ok none, w)
unfolding look_up get_cached after_get
look_up-missing r h w e = elim (Bool-cases ((h.body_size == 0) && h.cacheable)) [
  | inl looks ↦ rw looks (ap (after_get w) (get-missing w.cache (key_of r) e))
  | inr skips ↦ rw skips refl
]
