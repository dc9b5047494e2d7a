-- ===== src/Tests/Sessions.antt =====
-- Sessions of `Web Proxy_C/Proxy with Cache/main.cpp` at concrete inputs.
use tiny_projects_and_tools.Base.{
  ℕ, ◌+◌, ◌||◌, ap, ◌≡◌, ◌≢◌, ◌≤◌, ◌<◌, Bool, true, false, not, List, [], ◌∷◌, ◌++◌, none, some,
  refl, arith, length, All, ascii, ◌==◌, if◌then◌else◌, Bool-cases, inl, inr, ◌&&◌, str_eq,
}
use tiny_projects_and_tools.Base.CString.{atoi, strcasestr, to_unsigned}
use tiny_projects_and_tools.Base.Decimal.{print_unsigned}
use tiny_projects_and_tools.CachingProxy.Header.{Header, empty_header, append}
use tiny_projects_and_tools.CachingProxy.Instance.{size_mod}
use tiny_projects_and_tools.CachingProxy.Cache.{Cache}
use tiny_projects_and_tools.CachingProxy.Cache.Entries.{Entries, find, remove, total}
use tiny_projects_and_tools.CachingProxy.Cache.View.{Represents}
use tiny_projects_and_tools.CachingProxy.Comm.{
  Event, arrived, interrupted, accepted, init, of_socket, readlinex,
}
use tiny_projects_and_tools.CachingProxy.Comm.Stream.{bytes_of, pending}
use tiny_projects_and_tools.CachingProxy.Request.{RequestLine, is_delimiter, parse_address}
use tiny_projects_and_tools.CachingProxy.Request.Words.{InWord, InHost, http, parse_address-line}
use tiny_projects_and_tools.CachingProxy.Session.World.{World, ok, ended, closed}
use tiny_projects_and_tools.CachingProxy.Session.Supply.{Uses, readlinex-Uses}
use tiny_projects_and_tools.CachingProxy.Session.Requests.{
  Memory, key_discrete, copied, key_of, is_blank_line,
}
use tiny_projects_and_tools.CachingProxy.Session.Fetch.{request_of, status_code}
use tiny_projects_and_tools.CachingProxy.Session.Turn.{turn}
use tiny_projects_and_tools.CachingProxy.Session.Headers.{HeaderLine, header_text, header_of}
use tiny_projects_and_tools.CachingProxy.Session.Messages.{Message}
use tiny_projects_and_tools.CachingProxy.Session.Sending.{Generous}
use tiny_projects_and_tools.CachingProxy.Session.Misses.{dial_of}
use tiny_projects_and_tools.CachingProxy.Session.Caching.{Holds}
use tiny_projects_and_tools.CachingProxy.Session.Hits.{Served, turn-hit}
use tiny_projects_and_tools.CachingProxy.Session.Relaying.{turn-miss, turn-miss-Holds, turn-again}
use tiny_projects_and_tools.CachingProxy.Session.Fuel.{Fueled}
use tiny_projects_and_tools.CachingProxy.Session.Termination.{turn-Fueled}

-- A predicate that a test decides, at a literal.
every : (ℕ → Bool) → List ℕ → Bool
every test [] = true
every test (c ∷ s) = test c && every test s

every-All :
    (P : ℕ → Type 0) (test : ℕ → Bool)
    → ((c : ℕ) → test c ≡ true → P c)
    → (s : List ℕ) → every test s ≡ true
    → All P s
unfolding every
every-All P test f [] h = tt
every-All P test f (c ∷ s) h = elim (Bool-cases (test c)) [
  | inl holds ↦ (f c holds, every-All P test f s (ground (arith, h, holds)))
  | inr fails ↦ absurd (ground (arith, h, fails))
]

plain-All : (s : List ℕ) → every (λ c. not (c == 10)) s ≡ true → All (λ c. c ≢ 10) s
plain-All = every-All (λ c. c ≢ 10) (λ c. not (c == 10)) (λ c h. ground (arith, h))

word-All : (s : List ℕ) → every (λ c. not (is_delimiter c) && not (c == 0)) s ≡ true → All InWord s
word-All = every-All InWord (λ c. not (is_delimiter c) && not (c == 0)) (λ c h. ground (arith, h))

host-All : (s : List ℕ) → every (λ c. not (c == 58) && not (c == 47)) s ≡ true → All InHost s
host-All = every-All InHost (λ c. not (c == 58) && not (c == 47)) (λ c h. ground (arith, h))

parse_address-line_example :
    parse_address (
      copied
        (ascii "GET"
          ++ (32
              ∷ ((http ++ ((ascii "a.b" ++ 58 ∷ print_unsigned 8080) ++ 47 ∷ ascii "x"))
                  ++ (32 ∷ (ascii "V" ++ ascii "\r\n")))))
        (ascii "an older and longer line that was read before"))
    ≡ some (record {
      command = ascii "GET";
      host = ascii "a.b";
      port = 8080;
      file = ascii "/x";
      version = ascii "V";
    })
parse_address-line_example =
    parse_address-line 71 (ascii "ET") 97 (ascii ".b") 8080 (ascii "x") 86 []
      (ascii "an older and longer line that was read before") (word-All (ascii "GET") w1)
      (host-All (ascii "a.b") w2) (omega arith)
      (word-All (http ++ ((ascii "a.b" ++ 58 ∷ print_unsigned 8080) ++ 47 ∷ ascii "x")) w3)
      (word-All (ascii "V") w4)
  where
    w1 : every (λ c. not (is_delimiter c) && not (c == 0)) (ascii "GET") ≡ true
    w1 = unfold every in refl

    w2 : every (λ c. not (c == 58) && not (c == 47)) (ascii "a.b") ≡ true
    w2 = unfold every in refl

    w3 :
        every
          (λ c. not (is_delimiter c) && not (c == 0))
          (http ++ ((ascii "a.b" ++ 58 ∷ print_unsigned 8080) ++ 47 ∷ ascii "x"))
        ≡ true
    w3 = unfold every print_unsigned in refl

    w4 : every (λ c. not (is_delimiter c) && not (c == 0)) (ascii "V") ≡ true
    w4 = unfold every in refl

-- A client that asks for `/x` of the host `a`, twice, and a server that answers in two pieces.
abbrev ask : List ℕ
ask = ascii "GET http://a/x V\r\n\r\n"

abbrev front : List ℕ
front = ascii "GET http://a/x V\r"

abbrev status_line : List ℕ
status_line = ascii "V 200 O\r"

abbrev length_line : List ℕ
length_line = ascii "Content-Length:2\r\n"

abbrev from_server : List Event
from_server =
    arrived (ascii "V 200 O\r\nContent-Length:2\r\n\r\nb") ∷ interrupted ∷ arrived (ascii "c") ∷ []

abbrev empty_cache : Cache (List ℕ)
empty_cache = record {
  max_size = 100;
  size = 0;
  map = λ k. none;
  list = [];
  next = 0;
  heap = λ a. record { header = empty_header; body = []; ite = 0 };
}

abbrev world : World
world = record {
  client = of_socket 4 (arrived ask ∷ []);
  server = init [] 0 [];
  buf = [];
  cache = empty_cache;
  address = 0;
  client_writes = λ n. accepted 9000 ∷ [];
  server_writes = λ n. accepted 9000 ∷ [];
  dials = λ n. dial_of 5 from_server;
  to_client = [];
  to_server = [];
}

abbrev memory : Memory
memory = record { url = []; resp = [] }

abbrev line_of : RequestLine
line_of = record {
  command = ascii "GET";
  host = ascii "a";
  port = 80;
  file = ascii "/x";
  version = ascii "V";
}

readlinex-Uses_example : Uses 3 world.client (readlinex world.client 4)
readlinex-Uses_example = readlinex-Uses world.client 4

turn-Fueled_example : Fueled (turn memory world).0
turn-Fueled_example = turn-Fueled memory world

front-All : All (λ c. c ≢ 10) front
unfolding every
front-All = plain-All front refl

client-Message : Message world.client front [] []
unfolding of_socket
client-Message = record {
  ready = record { fd = 4; is_open = refl; fits = omega arith; whole = refl; flows = tt };
  pends = unfold pending bytes_of in refl;
  plain = front-All;
  short = omega arith;
  all = tt;
}

length_line-HeaderLine : HeaderLine length_line
unfolding every is_blank_line str_eq
length_line-HeaderLine = record {
  front = ascii "Content-Length:2\r";
  ends = refl;
  plain = plain-All (ascii "Content-Length:2\r") refl;
  short = omega arith;
  not_blank = refl;
}

parsed : parse_address (copied (front ++ 10 ∷ []) []) ≡ some line_of
unfolding parse_address copied str_eq
parsed = refl

status : status_code (copied (status_line ++ 10 ∷ []) []) ≡ some (ascii "200")
unfolding status_code copied
status = refl

writes_enough : Generous 9000 world.client_writes
writes_enough n = (9000, [], refl, omega arith)

abbrev response : Header
response = header_of (append empty_header (status_line ++ 10 ∷ [])) (length_line ∷ [])

not_connect : str_eq (ascii "GET") (ascii "CONNECT") ≡ false
unfolding str_eq
not_connect = refl

abbrev request : Header
request = header_of empty_header []

request_is : request ≡ record empty_header { text = ascii "\r\n" }
unfolding append strcasestr
request_is = refl

no_body : request.body_size ≡ 0
no_body = ap (λ (h : Header). h.body_size) request_is

allowed : request.cacheable ≡ true
allowed = ap (λ (h : Header). h.cacheable) request_is

header_short : length request.text ≤ 9000
header_short = rw request_is (omega arith)

request_short : length (request_of line_of) ≤ 9000
unfolding request_of
request_short = omega arith

no_server : world.server.socket_fd ≡ none
unfolding init
no_server = refl

server_bytes :
    bytes_of from_server ≡ status_line ++ 10 ∷ header_text (length_line ∷ []) (ascii "bc")
unfolding bytes_of
server_bytes = refl

status-All : All (λ c. c ≢ 10) status_line
unfolding every
status-All = plain-All status_line refl

response_is :
    response
    ≡ record empty_header { text = ascii "V 200 O\r\nContent-Length:2\r\n\r\n"; body_size = 2 }
unfolding append strcasestr to_unsigned atoi
response_is = refl

response_short : length response.text ≤ 9000
response_short = rw response_is (omega arith)

whole : response.chunked ≡ false
whole = ap (λ (h : Header). h.chunked) response_is

sized : response.body_size ≡ 2
sized = ap (λ (h : Header). h.body_size) response_is

cacheable : response.cacheable ≡ true
cacheable = ap (λ (h : Header). h.cacheable) response_is

abbrev no_entries : Entries (List ℕ)
no_entries = []

empty_cache-Represents : Represents key_discrete empty_cache no_entries
unfolding find total
empty_cache-Represents = record {
  keys = λ k. refl;
  nodes = refl;
  distinct = tt;
  fresh = tt;
  sound = tt;
  size = refl;
  small = omega arith;
}

turn-miss_example :
    ((turn memory world).1.to_client ≡ [] ++ response.text ++ ascii "bc")
    × ((turn memory world).1.to_server ≡ [] ++ request_of line_of ++ request.text)
turn-miss_example =
    turn-miss memory world front [] [] line_of client-Message parsed not_connect no_body refl 5 9000
      from_server no_server refl (omega arith) writes_enough writes_enough request_short
      header_short status_line (length_line ∷ []) (ascii "bc") (ascii "200") tt server_bytes
      status-All (omega arith) (length_line-HeaderLine, tt) status response_short whole sized
      (omega arith)

good : to_unsigned 32 (atoi (ascii "200")) ≡ 200
unfolding to_unsigned atoi
good = refl

room :
    total empty_cache.heap (remove key_discrete (key_of line_of) no_entries)
      + (length response.text + 2)
    < size_mod
room = rw response_is (unfold total remove in omega arith)

fits : length response.text + 2 ≤ 100
fits = rw response_is (omega arith)

turn-miss-Holds_example :
    Holds (turn memory world).1.cache (key_of line_of) response (ascii "bc")
    × ((turn memory world).0
        ≡ (if not request.persistent || not response.persistent then ended closed else ok tt))
turn-miss-Holds_example =
    turn-miss-Holds memory world front [] [] line_of client-Message parsed not_connect no_body refl
      5 9000 from_server no_server refl (omega arith) writes_enough writes_enough request_short
      header_short status_line (length_line ∷ []) (ascii "bc") (ascii "200") tt server_bytes
      status-All (omega arith) (length_line-HeaderLine, tt) status response_short whole sized
      (omega arith) no_entries empty_cache-Represents tt cacheable good room fits

-- Another client, of a session that finds the cache as the first one left it.
abbrev next_world : World
next_world = record world { cache = (turn memory world).1.cache }

some_text : 0 < length response.text
some_text = rw response_is (omega arith)

turn-again_example :
    (sent : List ℕ) × ((turn memory world).1.to_client ≡ [] ++ sent)
    × ((turn memory next_world).1.to_client ≡ [] ++ sent)
    × ((turn memory next_world).1.to_server ≡ [])
turn-again_example =
    turn-again memory world front [] [] line_of client-Message parsed not_connect no_body refl 5
      9000 from_server no_server refl (omega arith) writes_enough writes_enough request_short
      header_short status_line (length_line ∷ []) (ascii "bc") (ascii "200") tt server_bytes
      status-All (omega arith) (length_line-HeaderLine, tt) status response_short whole sized
      (omega arith) no_entries empty_cache-Represents tt cacheable good room fits memory next_world
      front [] [] line_of 9000 refl refl client-Message parsed not_connect no_body allowed
      writes_enough response_short (omega arith) some_text (omega arith)

turn-hit_example :
    Served next_world memory response.text (ascii "bc") []
    × Holds (turn memory next_world).1.cache (key_of line_of) response (ascii "bc")
turn-hit_example =
    turn-hit memory next_world front [] [] line_of response (ascii "bc") 9000 client-Message parsed
      not_connect no_body allowed turn-miss-Holds_example.0 writes_enough response_short
      (omega arith) some_text (omega arith)
