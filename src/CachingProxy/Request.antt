-- ===== src/CachingProxy/Request.antt =====
-- `parseAddress` of `Web Proxy_C/Proxy with Cache/main.cpp`: the words of a request line, and the
-- host, the port and the file of its URL.
pub mod Words
use tiny_projects_and_tools.Base.{
  ℕ, Bool, ◌||◌, List, [], ◌∷◌, drop, Option, none, some, ◌==◌, if◌then◌else◌, ascii, str_eq, ◌>>=◌,
}
use tiny_projects_and_tools.Base.CString.{strstr, strchr, until, from, atoi, to_unsigned}
use tiny_projects_and_tools.SimpleProxy.Address.{behind, is_byte, cut}

pub record RequestLine : Type 0 where
  pub command : List ℕ
  pub host : List ℕ
  pub port : ℕ
  pub file : List ℕ
  pub version : List ℕ

-- The delimiters: blank, carriage return and newline.
abbrev pub is_delimiter : ℕ → Bool
is_delimiter c = c == 32 || c == 13 || c == 10

unfoldable pub skip_delimiters : List ℕ → List ℕ
skip_delimiters [] = []
skip_delimiters (c ∷ s) = if is_delimiter c then skip_delimiters s else c ∷ s

-- `strtok_r` with these delimiters: the token, and where the next call goes on.
unfoldable pub first_word : List ℕ → Option (List ℕ × List ℕ)
unfolding until from behind
first_word [] = none
first_word (c ∷ s) = some (until is_delimiter (c ∷ s), behind (from is_delimiter (c ∷ s)))

unfoldable pub next_word : List ℕ → Option (List ℕ × List ℕ)
unfolding first_word skip_delimiters
next_word s = first_word (skip_delimiters s)

-- The text behind the scheme; where the scheme stands further behind, as many bytes are dropped.
unfoldable pub drop_http : List ℕ → List ℕ
unfolding strstr
drop_http url =
    if strstr url (ascii "http://")
    then drop 7 url
    else if strstr url (ascii "https://")
    then drop 8 url
    else url

unfoldable pub file_of : Option (List ℕ) → List ℕ
file_of none = ascii "/"
file_of (some file) = file

unfoldable pub default_port : List ℕ → ℕ
default_port command = if str_eq command (ascii "CONNECT") then 443 else 80

-- The host and the port, which is a `uint16_t`.
unfoldable pub host_port : List ℕ → ℕ → Option (List ℕ) → List ℕ × ℕ
unfolding until behind
host_port hpf port none = (hpf, port)
host_port hpf port (some colon) = (until (is_byte 58) hpf, to_unsigned 16 (atoi (behind colon)))

unfoldable pub split_address : List ℕ → List ℕ → List ℕ → RequestLine
unfolding host_port file_of default_port strchr cut
split_address command version hpf =
    let (host, port) = host_port (cut hpf 47) (default_port command) (strchr (cut hpf 47) 58) in
    record {
      command = command;
      host = host;
      port = port;
      file = file_of (strchr hpf 47);
      version = version;
    }

-- `parseAddress`; `none` is false.
unfoldable pub parse_address : List ℕ → Option RequestLine
unfolding next_word split_address drop_http
parse_address url = do
  (command, behind_command) ← next_word url
  (hpf, behind_hpf) ← next_word behind_command
  (version, _) ← next_word behind_hpf
  some (split_address command version (drop_http hpf))
