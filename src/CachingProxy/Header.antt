-- ===== src/CachingProxy/Header.antt =====
-- `HttpHeader` and `HttpBody` of `Web Proxy_C/Proxy with Cache`: a header is read line by line, and
-- some of its lines set what the proxy goes by.
use tiny_projects_and_tools.Base.{
  ℕ, ◌-◌, ◌^◌, Bool, true, false, List, [], ◌++◌, length, drop, ltb, ◌||◌, if◌then◌else◌, ascii,
}
use tiny_projects_and_tools.Base.CString.{strcasestr, atoi, to_unsigned}

pub record Header : Type 0 where
  pub text : List ℕ
  pub persistent : Bool
  pub cacheable : Bool
  pub body_size : ℕ
  pub chunked : Bool

-- The constructor.
abbrev pub empty_header : Header
empty_header = record {
  text = [];
  persistent = true;
  cacheable = true;
  body_size = 0;
  chunked = false;
}

abbrev pub connection_key : List ℕ
connection_key = ascii "Connection:"

abbrev pub content_length_key : List ℕ
content_length_key = ascii "Content-Length:"

abbrev pub transfer_encoding_key : List ℕ
transfer_encoding_key = ascii "Transfer-Encoding:"

abbrev pub cache_control_key : List ℕ
cache_control_key = ascii "Cache-Control:"

-- `header.append(buf, size)`.
abbrev pub append_text : Header → List ℕ → Header
append_text h line = record h { text = h.text ++ line }

-- The branches of `append`; a `return` in one of them drops the line.
unfoldable pub append_connection : Header → List ℕ → List ℕ → Header
append_connection h line value =
    if strcasestr value (ascii "close")
    then append_text (record h { persistent = false }) line
    else if strcasestr value (ascii "keep-alive")
    then append_text (record h { persistent = true }) line
    else h

-- An `int` of 32 bits as a `ssize_t`.
unfoldable pub extend_int : ℕ → ℕ
extend_int n = if ltb n (2 ^ 31) then n else 2 ^ 64 - (2 ^ 32 - n)

unfoldable pub append_content_length : Header → List ℕ → List ℕ → Header
unfolding extend_int
append_content_length h line value = record (append_text h line) {
  body_size = extend_int (to_unsigned 32 (atoi value));
}

unfoldable pub append_transfer_encoding : Header → List ℕ → List ℕ → Header
append_transfer_encoding h line value =
    if strcasestr value (ascii "chunked")
    then record (append_text h line) { chunked = true }
    else append_text h line

unfoldable pub append_cache_control : Header → List ℕ → List ℕ → Header
append_cache_control h line value =
    if strcasestr value (ascii "no-cache")
      || strcasestr value (ascii "no-store")
      || strcasestr value (ascii "private")
    then append_text (record h { cacheable = false }) line
    else if strcasestr value (ascii "public")
    then append_text (record h { cacheable = true }) line
    else h

-- `append` of one line, whose value stands behind as many bytes as the key has.
unfoldable pub append : Header → List ℕ → Header
unfolding append_connection append_content_length append_transfer_encoding append_cache_control
append h line =
    if strcasestr line connection_key
    then append_connection h line (drop (length connection_key) line)
    else if strcasestr line content_length_key
    then append_content_length h line (drop (length content_length_key) line)
    else if strcasestr line transfer_encoding_key
    then append_transfer_encoding h line (drop (length transfer_encoding_key) line)
    else if strcasestr line cache_control_key
    then append_cache_control h line (drop (length cache_control_key) line)
    else append_text h line
