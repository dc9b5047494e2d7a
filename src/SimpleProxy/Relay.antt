-- ===== src/SimpleProxy/Relay.antt =====
-- What a session of `Web Proxy_C/simplified version/proxy.c` passes on.
use tiny_projects_and_tools.Base.{
  ℕ, zero, suc, ◌^◌, ◌≤◌, ◌<◌, ◌≡◌, refl, ap, ap₂, ◌∙◌, Bool, true, false, List, [], ◌∷◌, ◌++◌,
  length, Option, some, arith, All, ascii, str_eq_iff, replicate,
}
use tiny_projects_and_tools.Base.CString.{until}
use tiny_projects_and_tools.Base.Decimal.{print_int}
use tiny_projects_and_tools.SimpleProxy.Address.{strtok_r, rest_of, Address, scheme, parse_address}
use tiny_projects_and_tools.SimpleProxy.RoundTrip.{
  Not, HostByte, strtok_r-first, rest_of-first, parse_address-print_int,
}
use tiny_projects_and_tools.SimpleProxy.Headers.{IsHeader, Passed, pass_headers-blank}
use tiny_projects_and_tools.SimpleProxy.Session.{
  connect_loop, pass_headers, relay, end_line, Request, talked, is_line_end, skip_line_ends,
  version_of, parse_request, talk_to, talk_connected, talk, talk_get, first_line, web_talk,
}

-- Blocks that are not empty are copied, up to an empty one.
relay-blocks :
    (blocks after : List (List ℕ))
    → All (λ b. 0 < length b) blocks
    → relay (blocks ++ [] ∷ after) ≡ blocks
unfolding relay
relay-blocks [] after h = refl
relay-blocks ([] ∷ blocks) after h = absurd (omega (arith, h.0))
relay-blocks ((b ∷ bs) ∷ blocks) after h =
    ap (λ rest. (b ∷ bs) ∷ rest) (relay-blocks blocks after h.1)

connect_loop-reaches :
    (tries failures : ℕ) (later : List Bool)
    → failures ≤ tries
    → connect_loop tries (replicate failures false ++ true ∷ later) ≡ some true
unfolding connect_loop
connect_loop-reaches tries zero later h = refl
connect_loop-reaches zero (suc failures) later h = absurd (omega arith)
connect_loop-reaches (suc tries) (suc failures) later h =
    connect_loop-reaches tries failures later (omega arith)

connect_loop-fails :
    (tries : ℕ) (later : List Bool)
    → connect_loop tries (replicate (suc tries) false ++ later) ≡ some false
unfolding connect_loop
connect_loop-fails zero later = refl
connect_loop-fails (suc tries) later = connect_loop-fails tries later

-- The bytes of a word of the request line.
abbrev pub InLine : ℕ → Type 0
InLine c = is_line_end c ≡ false

skip_line_ends-none : (v : ℕ) (vs : List ℕ) → InLine v → skip_line_ends (v ∷ vs) ≡ v ∷ vs
unfolding skip_line_ends
skip_line_ends-none v vs h = ground (arith, h)

until-line : (vs : List ℕ) → All InLine vs → until is_line_end (vs ++ end_line) ≡ vs
unfolding until
until-line [] h = refl
until-line (v ∷ vs) h = ground (arith, h.0, until-line vs h.1)

version_of-line :
    (v : ℕ) (vs : List ℕ)
    → All InLine (v ∷ vs)
    → version_of (skip_line_ends ((v ∷ vs) ++ end_line)) ≡ some (v ∷ vs)
unfolding version_of
version_of-line v vs h =
    ap version_of (skip_line_ends-none v (vs ++ end_line) h.0) ∙ ap some (until-line (v ∷ vs) h)

parse_request-words :
    (line cmd r1 url r2 : List ℕ) (version : Option (List ℕ))
    → strtok_r line 32 ≡ some cmd
    → rest_of line 32 ≡ r1
    → strtok_r r1 32 ≡ some url
    → rest_of r1 32 ≡ r2
    → version_of (skip_line_ends r2) ≡ version
    → parse_request line ≡ some (record { cmd = cmd; url = url; version = version })
unfolding parse_request
parse_request-words line cmd r1 url r2 version word rest1 word2 rest2 last = ground (
  arith,
  word,
  ap (λ r. strtok_r r 32) rest1 ∙ word2,
  ap (λ r. version_of (skip_line_ends (rest_of r 32))) rest1
      ∙ ap (λ r. version_of (skip_line_ends r)) rest2
      ∙ last,
)

module _ (u : ℕ) (us : List ℕ) (v : ℕ) (vs : List ℕ) (url : All (Not 32) (u ∷ us))
    (version : All InLine (v ∷ vs)) where
  abbrev behind_get : List ℕ
  behind_get = (u ∷ us) ++ (32 ∷ ((v ∷ vs) ++ end_line))

  get_word : strtok_r (ascii "GET " ++ behind_get) 32 ≡ some (ascii "GET")
  unfolding strtok_r
  get_word = refl

  get_rest : rest_of (ascii "GET " ++ behind_get) 32 ≡ behind_get
  unfolding rest_of
  get_rest = refl

  parse_request-get :
      parse_request (ascii "GET " ++ behind_get)
      ≡ some (record { cmd = ascii "GET"; url = u ∷ us; version = some (v ∷ vs) })
  parse_request-get =
      parse_request-words (ascii "GET " ++ behind_get) (ascii "GET") behind_get (u ∷ us)
        ((v ∷ vs) ++ end_line) (some (v ∷ vs)) get_word get_rest
        (strtok_r-first 32 u us ((v ∷ vs) ++ end_line) url)
        (rest_of-first 32 u us ((v ∷ vs) ++ end_line) url) (version_of-line v vs version)

module _ (overlapped : List ℕ → List ℕ → List ℕ → List ℕ) where
  web_talk-reads :
      (line : List ℕ) (attempts : List Bool) (headers response : List (List ℕ)) (r : Request)
      (a : Address)
      → parse_request line ≡ some r
      → parse_address r.url ≡ some a
      → connect_loop 20 attempts ≡ some true
      → web_talk overlapped line attempts headers response ≡ talk overlapped r a headers response
  unfolding web_talk talk_to talk_connected
  web_talk-reads line attempts headers response r a parsed address reached =
      ground (arith, parsed, address, reached)

  talk-get :
      (r : Request) (a : Address) (headers response : List (List ℕ)) (version : List ℕ)
      → r.cmd ≡ ascii "GET"
      → r.version ≡ some version
      → talk overlapped r a headers response
        ≡ talked (record {
          opened = a;
          to_server = first_line overlapped r a.file version ∷ pass_headers headers;
          to_client = relay response;
          closes = true;
        })
  unfolding talk talk_get
  talk-get r a headers response version get some_version =
      ground (arith, (str_eq_iff r.cmd (ascii "GET")).1 get, some_version)

  -- A GET of a URL with a port, whose host has neither colon nor slash, from a server that is
  -- reached within 20 failures, connects to the URL's host and port. The server gets the line
  -- that the source's sprintf makes of GET, the path and the version, then the client's header
  -- lines up to the blank line, those that are `Connection: keep-alive` up to the case of their
  -- letters as `Connection: close` and the others as they are, and then the blank line. The
  -- client gets the blocks that the server sends before an empty one, and both sockets are
  -- closed.
  pub web_talk-get :
      (c : ℕ) (s path : List ℕ) (port v : ℕ) (vs : List ℕ) (failures : ℕ) (attempts : List Bool)
      (lines later blocks after : List (List ℕ))
      → All HostByte (c ∷ s)
      → port < 2 ^ 32
      → All (Not 32) (scheme ++ ((c ∷ s ++ 58 ∷ print_int port) ++ 47 ∷ path))
      → All InLine (v ∷ vs)
      → failures ≤ 20
      → All IsHeader lines
      → All (λ b. 0 < length b) blocks
      → (outs : List (List ℕ)) × Passed lines outs
        × (web_talk overlapped
              (ascii "GET "
                ++ ((scheme ++ ((c ∷ s ++ 58 ∷ print_int port) ++ 47 ∷ path))
                    ++ (32 ∷ ((v ∷ vs) ++ end_line))))
              (replicate failures false ++ true ∷ attempts)
              (lines ++ end_line ∷ later)
              (blocks ++ [] ∷ after)
            ≡ talked (record {
              opened = record { host = c ∷ s; file = some (47 ∷ path); port = port };
              to_server = overlapped (ascii "GET") (47 ∷ path) (v ∷ vs) ∷ (outs ++ end_line ∷ []);
              to_client = blocks;
              closes = true;
            }))
  unfolding first_line
  web_talk-get c s path port v vs failures attempts lines later blocks after plain fits url version
        few headers full =
      let r : Request = record {
        cmd = ascii "GET";
        url = scheme ++ ((c ∷ s ++ 58 ∷ print_int port) ++ 47 ∷ path);
        version = some (v ∷ vs);
      } in
      let a : Address = record { host = c ∷ s; file = some (47 ∷ path); port = port } in
      let (outs, passed, sent) = pass_headers-blank lines later headers in
      (
        outs,
        passed,
        web_talk-reads
              (ascii "GET "
                ++ ((scheme ++ ((c ∷ s ++ 58 ∷ print_int port) ++ 47 ∷ path))
                    ++ (32 ∷ ((v ∷ vs) ++ end_line))))
              (replicate failures false ++ true ∷ attempts) (lines ++ end_line ∷ later)
              (blocks ++ [] ∷ after) r a
              (parse_request-get 104
                (ascii "ttp://" ++ ((c ∷ s ++ 58 ∷ print_int port) ++ 47 ∷ path)) v vs url version)
              (parse_address-print_int c s path plain port fits)
              (connect_loop-reaches 20 failures attempts few)
            ∙ talk-get r a (lines ++ end_line ∷ later) (blocks ++ [] ∷ after) (v ∷ vs) refl refl
            ∙ ap₂
                (λ (o b : List (List ℕ)). talked (record {
                  opened = a;
                  to_server = overlapped (ascii "GET") (47 ∷ path) (v ∷ vs) ∷ o;
                  to_client = b;
                  closes = true;
                }))
                sent (relay-blocks blocks after full),
      )
