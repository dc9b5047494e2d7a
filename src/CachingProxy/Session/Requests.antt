-- ===== src/CachingProxy/Session/Requests.antt =====
-- How `minion` (`Web Proxy_C/Proxy with Cache/main.cpp`) reads a request and looks it up, and how it
-- answers from the cache.
use tiny_projects_and_tools.Base.{
  ℕ, zero, suc, ◌-◌, Bool, true, false, ◌&&◌, List, [], ◌∷◌, ◌++◌, Option, none, some, length, drop,
  set, ◌==◌, if◌then◌else◌, ascii, str_eq, str_eq_iff, ◌≡◌, refl, ◌↔◌,
}
use tiny_projects_and_tools.Base.CString.{until}
use tiny_projects_and_tools.SimpleProxy.Address.{is_byte}
use tiny_projects_and_tools.CachingProxy.Header.{Header, empty_header, append}
use tiny_projects_and_tools.CachingProxy.Instance.{Instance}
use tiny_projects_and_tools.CachingProxy.Cache.{Cache, get}
use tiny_projects_and_tools.CachingProxy.Comm.{max_line}
use tiny_projects_and_tools.CachingProxy.Request.{RequestLine, parse_address}
use tiny_projects_and_tools.CachingProxy.Session.World.{
  World, Result, ok, ended, fault, out_of_fuel, Action, pure, stop, close_both, or_close, ◌>>=◌,
  client_line, write_text_client,
}
use tiny_projects_and_tools.CachingProxy.Session.Reading.{supply}

-- Keys are strings.
unfoldable pub decide_by : {P : Type 0} (b : Bool) → ((b ≡ true) ↔ P) → Dec P
decide_by true e = yes (e.0 refl)
decide_by false e = no (λ p. cc (e.1 p))

unfoldable pub key_discrete : Discrete (List ℕ)
unfolding str_eq decide_by
key_discrete s t = decide_by (str_eq s t) (str_eq_iff s t)

-- What stands in `url` and in `resp` before a line is copied into them: bytes of earlier calls.
pub record Memory : Type 0 where
  pub url : List ℕ
  pub resp : List ℕ

-- The text of a buffer, up to its first 0.
unfoldable pub c_string : List ℕ → List ℕ
unfolding until
c_string s = until (is_byte 0) s

-- `memcpy(url, buf, strlen(buf))`, which copies no final 0, and the text that stands there then.
unfoldable pub copied : List ℕ → List ℕ → List ℕ
unfolding c_string
copied line stale = c_string (c_string line ++ drop (length (c_string line)) stale)

-- `strcmp(buf, "\r\n") == 0`.
unfoldable pub is_blank_line : List ℕ → Bool
unfolding c_string
is_blank_line buf = str_eq (c_string buf) (ascii "\r\n")

-- A line that was read, if the call returned more than 0.
unfoldable pub at_least_one : Option (List ℕ) → Option (List ℕ)
at_least_one none = none
at_least_one (some []) = none
at_least_one (some (b ∷ line)) = some (b ∷ line)

-- The loop over the lines of a header, with the last result of `readlinex`.
unfoldable pub read_header :
    Action (Option (List ℕ)) → ℕ → Header → Action (Header × Option (List ℕ))
unfolding append is_blank_line
read_header line zero h = stop out_of_fuel
read_header line (suc fuel) h = do
  got ← line
  elim got [
    | none ↦ pure (h, none)
    | some [] ↦ pure (h, some [])
    | some (b ∷ l) ↦ elim (is_blank_line (b ∷ l)) [
      | true ↦ pure (append h (b ∷ l), some (b ∷ l))
      | false ↦ read_header line fuel (append h (b ∷ l))
    ]
  ]

unfoldable pub client_header : Action (Header × Option (List ℕ))
unfolding read_header client_line supply
client_header w = read_header client_line (suc (supply w.client)) empty_header w

-- `buf[MAXLINE-1] = 0`.
abbrev pub terminate : Action (Unit {0})
terminate w = (ok tt, record w { buf = set w.buf (max_line - 1) 0 })

-- A request has to be complete, and `CONNECT` is refused.
unfoldable pub read_request : Memory → Action RequestLine
unfolding client_line at_least_one copied parse_address
read_request m = do
  got ← client_line
  line ← or_close (at_least_one got)
  _ ← terminate
  r ← or_close (parse_address (copied line m.url))
  if str_eq r.command (ascii "CONNECT") then close_both else pure r

-- `cache.get(hf)`, in which an assertion may fail, and the instance that it points to.
unfoldable pub after_get :
    World → Option (Cache (List ℕ) × Option ℕ) → Result (Option Instance) × World
after_get w none = (ended fault, w)
after_get w (some (c, none)) = (ok none, record w { cache = c })
after_get w (some (c, some address)) = (ok (some (c.heap address)), record w { cache = c })

unfoldable pub get_cached : List ℕ → Action (Option Instance)
unfolding get after_get
get_cached key w = after_get w (get key_discrete w.cache key)

-- The key of a request.
abbrev pub key_of : RequestLine → List ℕ
key_of r = r.host ++ r.file

-- Only a request without a body, that allows it, is looked up.
unfoldable pub look_up : RequestLine → Header → Action (Option Instance)
unfolding get_cached
look_up r h = if (h.body_size == 0) && h.cacheable then get_cached (key_of r) else pure none

-- `writex(...) == false`: a number of bytes is false if it is 0, and -1 is not.
unfoldable pub refuse_zero : Option ℕ → Action (Unit {0})
refuse_zero none = pure tt
refuse_zero (some zero) = close_both
refuse_zero (some (suc n)) = pure tt

-- A hit: the header and the body as they were stored.
unfoldable pub answer_hit : Instance → Action (Unit {0})
unfolding write_text_client refuse_zero
answer_hit i = do
  header_result ← write_text_client i.header.text
  _ ← refuse_zero header_result
  body_result ← write_text_client i.body
  refuse_zero body_result
