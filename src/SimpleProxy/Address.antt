-- ===== src/SimpleProxy/Address.antt =====
-- `parseAddress` and `find_target_address` of `Web Proxy_C/simplified version/proxy.c`: the parts of
-- a URL. A port is the bit pattern of an `int`.
use tiny_projects_and_tools.Base.{
  ℕ, Bool, true, false, ◌||◌, List, [], ◌∷◌, ◌++◌, Option, none, some, ◌==◌, if◌then◌else◌, ascii,
  drop, take, str_eq, ◌>>=◌,
}
use tiny_projects_and_tools.Base.CString.{strstr, strchr, lower, until, from, atoi, to_unsigned}

-- `strtok_r` with one delimiter: the bytes of the delimiter that it steps over, the token behind them,
-- which is not empty, and the text behind the delimiter that ends the token.
unfoldable pub leading : ℕ → List ℕ → List ℕ
leading d [] = []
leading d (c ∷ s) = if c == d then c ∷ leading d s else []

unfoldable pub skip : ℕ → List ℕ → List ℕ
skip d [] = []
skip d (c ∷ s) = if c == d then skip d s else c ∷ s

unfoldable pub behind : List ℕ → List ℕ
behind [] = []
behind (c ∷ s) = s

abbrev pub is_byte : ℕ → ℕ → Bool
is_byte d c = c == d

unfoldable pub token : List ℕ → ℕ → Option (List ℕ)
token [] d = none
token (c ∷ s) d = some (until (is_byte d) (c ∷ s))

unfoldable pub strtok_r : List ℕ → ℕ → Option (List ℕ)
unfolding skip until token
strtok_r s d = token (skip d s) d

-- What stands in the buffer after the call, and where the next call goes on.
unfoldable pub cut : List ℕ → ℕ → List ℕ
unfolding leading skip until
cut s d = leading d s ++ until (is_byte d) (skip d s)

unfoldable pub rest_of : List ℕ → ℕ → List ℕ
unfolding skip from behind
rest_of s d = behind (from (is_byte d) (skip d s))

pub record Address : Type 0 where
  pub host : List ℕ
  pub file : Option (List ℕ)
  pub port : ℕ

abbrev pub scheme : List ℕ
scheme = ascii "http://"

-- The port of a host name with a colon; `none` is a null pointer, of a colon with nothing behind it.
unfoldable pub with_port : List ℕ → Option (List ℕ) → Option Address
unfolding cut rest_of strtok_r
with_port host file = do
  word ← strtok_r (rest_of host 58) 47
  some (record { host = cut host 58; file = file; port = to_unsigned 32 (atoi word) })

unfoldable pub split_host : List ℕ → Option (List ℕ) → Option Address
unfolding strchr with_port
split_host host file = elim (strchr host 58) [
  | none ↦ some (record { host = host; file = file; port = 80 })
  | some _ ↦ with_port host file
]

-- The text behind the scheme; where the scheme stands further behind, 7 bytes are dropped as well.
unfoldable pub drop_scheme : List ℕ → List ℕ
unfolding strstr
drop_scheme url = if strstr url scheme then drop 7 url else url

unfoldable pub parse_address : List ℕ → Option Address
unfolding drop_scheme cut split_host strchr
parse_address url = split_host (cut (drop_scheme url) 47) (strchr (drop_scheme url) 47)

-- `find_target_address`: the result, and what stands in the target, the path and the port, which an
-- error or a missing port leaves as they were.
pub record Target : Type 0 where
  pub ok : Bool
  pub target_address : List ℕ
  pub path : List ℕ
  pub port : ℕ

-- The bytes that end a host name: blank, colon, slash, carriage return and newline.
abbrev pub ends_host : ℕ → Bool
ends_host c = c == 32 || c == 58 || c == 47 || c == 13 || c == 10

unfoldable pub port_behind : List ℕ → ℕ → ℕ
port_behind [] port = port
port_behind (c ∷ s) port = if c == 58 then to_unsigned 32 (atoi s) else port

unfoldable pub path_of : Option (List ℕ) → List ℕ
unfolding behind
path_of none = []
path_of (some s) = behind s

unfoldable pub find_target_address : List ℕ → List ℕ → ℕ → Target
unfolding until from port_behind path_of strchr lower
find_target_address uri path port =
    if str_eq (take 7 (lower uri)) scheme
    then record {
      ok = true;
      target_address = until ends_host (drop 7 uri);
      path = path_of (strchr (drop 7 uri) 47);
      port = port_behind (from ends_host (drop 7 uri)) port;
    }
    else record { ok = false; target_address = []; path = path; port = port }
