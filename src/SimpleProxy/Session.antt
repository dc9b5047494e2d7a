-- ===== src/SimpleProxy/Session.antt =====
-- `webTalk`, `secureTalk` and `forwarder` of `Web Proxy_C/simplified version/proxy.c`: one connection
-- of a client. What the client and the server send, and whether the server can be reached, are
-- arguments; the result is what is sent on.
use tiny_projects_and_tools.Base.{
  ℕ, zero, suc, Bool, true, false, List, [], ◌∷◌, Option, none, some, ◌==◌, if◌then◌else◌, ascii,
  str_eq, ◌>>=◌,
}
use tiny_projects_and_tools.Base.CString.{lower, until, c_string}
use tiny_projects_and_tools.SimpleProxy.Address.{strtok_r, rest_of, Address, parse_address}

abbrev pub close_info : List ℕ
close_info = ascii "Connection: close\r\n"

abbrev pub keep_alive_line : List ℕ
keep_alive_line = ascii "Connection: keep-alive\r\n"

abbrev pub end_line : List ℕ
end_line = ascii "\r\n"

-- The loop around `open_clientfd`, by whether each attempt connects: `some true` when one does,
-- `some false` when the attempts are used up. `none` waits for the next attempt.
unfoldable pub connect_loop : ℕ → List Bool → Option Bool
connect_loop tries [] = none
connect_loop tries (true ∷ later) = some true
connect_loop zero (false ∷ later) = some false
connect_loop (suc tries) (false ∷ later) = connect_loop tries later

-- A header line as it is passed on; `strcasecmp` compares without regard to case.
unfoldable pub pass_line : List ℕ → List ℕ
unfolding str_eq lower c_string
pass_line line = if str_eq (lower (c_string line)) (lower keep_alive_line) then close_info else line

-- The loop over the header lines, to the blank line or to the end of what the client sends.
unfoldable pub pass_headers : List (List ℕ) → List (List ℕ)
unfolding pass_line str_eq c_string
pass_headers [] = []
pass_headers (line ∷ later) =
    let rest = pass_headers later in
    if str_eq (c_string line) end_line then line ∷ [] else pass_line line ∷ rest

-- The loops that copy one side to the other, block by block; an empty block is the end.
unfoldable pub relay : List (List ℕ) → List (List ℕ)
relay [] = []
relay ([] ∷ later) = []
relay ((b ∷ bs) ∷ later) = (b ∷ bs) ∷ relay later

pub record Request : Type 0 where
  pub cmd : List ℕ
  pub url : List ℕ
  pub version : Option (List ℕ)

-- The token up to a carriage return or a newline, which the third `strtok_r` looks for.
abbrev pub is_line_end : ℕ → Bool
is_line_end c = if c == 13 then true else c == 10

unfoldable pub skip_line_ends : List ℕ → List ℕ
skip_line_ends [] = []
skip_line_ends (c ∷ s) = if is_line_end c then skip_line_ends s else c ∷ s

unfoldable pub version_of : List ℕ → Option (List ℕ)
version_of [] = none
version_of (c ∷ s) = some (until is_line_end (c ∷ s))

-- The three words of the request line; `none` is a null pointer for the URL.
unfoldable pub parse_request : List ℕ → Option Request
unfolding strtok_r rest_of version_of skip_line_ends
parse_request line = do
  cmd ← strtok_r line 32
  url ← strtok_r (rest_of line 32) 32
  some (record {
    cmd = cmd;
    url = url;
    version = version_of (skip_line_ends (rest_of (rest_of line 32) 32));
  })

-- What a connection did: the address that it opened, what it sent to either side, and whether it
-- closed both sockets.
pub record Talk : Type 0 where
  pub opened : Address
  pub to_server : List (List ℕ)
  pub to_client : List (List ℕ)
  pub closes : Bool

pub data Outcome : Type 0 where
  -- A null pointer is read.
  fault : Outcome
  -- No attempt to connect has ended the loop yet.
  waiting : Outcome
  -- The server could not be reached, and the client's socket is closed.
  gave_up : Outcome
  talked : Talk → Outcome

-- `CONNECT`: `secureTalk` and its `forwarder` copy both ways.
unfoldable pub secure_talk : Address → List (List ℕ) → List (List ℕ) → Outcome
unfolding relay
secure_talk a from_client from_server = talked (record {
  opened = a;
  to_server = relay from_client;
  to_client = ascii "HTTP/1.1 200 Connection established\r\n\r\n" ∷ relay from_server;
  closes = true;
})

-- The source prints the first line for the server into the buffer that still holds the three words
-- that it prints, which C leaves undefined. `overlapped` is what that call of `sprintf` leaves.
module _ (overlapped : List ℕ → List ℕ → List ℕ → List ℕ) where
  -- The first line for the server: the file in place of the URL, "/" if there is none.
  unfoldable pub first_line : Request → Option (List ℕ) → List ℕ → List ℕ
  first_line r file version = overlapped r.cmd (elim file [ none ↦ ascii "/" | some f ↦ f ]) version

  -- `GET`.
  unfoldable pub talk_get : Request → Address → List (List ℕ) → List (List ℕ) → Outcome
  unfolding first_line pass_headers relay
  talk_get r a headers response = elim r.version [
    | none ↦ fault
    | some version ↦ talked (record {
      opened = a;
      to_server = first_line r a.file version ∷ pass_headers headers;
      to_client = relay response;
      closes = true;
    })
  ]

  -- The dispatch on the command; any other is dropped with both sockets open.
  unfoldable pub talk : Request → Address → List (List ℕ) → List (List ℕ) → Outcome
  unfolding talk_get secure_talk
  talk r a from_client from_server =
      if str_eq r.cmd (ascii "GET")
      then talk_get r a from_client from_server
      else if str_eq r.cmd (ascii "CONNECT")
      then secure_talk a from_client from_server
      else talked (record { opened = a; to_server = []; to_client = []; closes = false })

  unfoldable pub talk_connected :
      Option Bool → Request → Address → List (List ℕ) → List (List ℕ) → Outcome
  unfolding talk
  talk_connected none r a from_client from_server = waiting
  talk_connected (some false) r a from_client from_server = gave_up
  talk_connected (some true) r a from_client from_server = talk r a from_client from_server

  unfoldable pub talk_to :
      Request → Option Address → List Bool → List (List ℕ) → List (List ℕ) → Outcome
  unfolding talk_connected connect_loop
  talk_to r none attempts from_client from_server = fault
  talk_to r (some a) attempts from_client from_server =
      talk_connected (connect_loop 20 attempts) r a from_client from_server

  -- `webTalk`: the request line, the attempts to connect, the lines or blocks that the client sends
  -- behind it, and the blocks of the server.
  unfoldable pub web_talk : List ℕ → List Bool → List (List ℕ) → List (List ℕ) → Outcome
  unfolding parse_request parse_address talk_to
  web_talk line attempts from_client from_server = elim (parse_request line) [
    | none ↦ fault
    | some r ↦ talk_to r (parse_address r.url) attempts from_client from_server
  ]
