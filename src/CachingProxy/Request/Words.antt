-- ===== src/CachingProxy/Request/Words.antt =====
-- `parseAddress` (`Web Proxy_C/Proxy with Cache/main.cpp`) on a request line that is put together
-- from words.
use mathlib.Core.List.{append_assoc}
use tiny_projects_and_tools.Base.{
  ℕ, ◌^◌, ◌<◌, ◌≡◌, ◌≢◌, refl, ap, ap₂, ◌∙◌, true, false, List, [], ◌∷◌, ◌++◌, length, drop, some,
  arith, All, All-append, All-imp, ascii,
}
use tiny_projects_and_tools.Base.CString.{
  strstr, strchr, starts_with, until, from, atoi, to_unsigned,
}
use tiny_projects_and_tools.Base.Decimal.{print_unsigned}
use tiny_projects_and_tools.Base.RoundTrip.{atoi-print_unsigned, print_unsigned-All}
use tiny_projects_and_tools.SimpleProxy.Address.{behind}
use tiny_projects_and_tools.SimpleProxy.RoundTrip.{Not, until-first, strchr-first, cut-first}
use tiny_projects_and_tools.CachingProxy.Request.{
  is_delimiter, skip_delimiters, first_word, next_word, drop_http, file_of, default_port, host_port,
  split_address, parse_address,
}
use tiny_projects_and_tools.CachingProxy.Session.Requests.{c_string, copied}

-- The bytes of a word, and of a host name: neither a colon nor a slash.
abbrev pub InWord : ℕ → Type 0
InWord c = (is_delimiter c ≡ false) × (c ≢ 0)

abbrev pub InHost : ℕ → Type 0
InHost c = (c ≢ 58) × (c ≢ 47)

until-word :
    (s : List ℕ) (d : ℕ) (rest : List ℕ)
    → All InWord s
    → is_delimiter d ≡ true
    → until is_delimiter (s ++ d ∷ rest) ≡ s
unfolding until
until-word [] d rest h e = rw e refl
until-word (c ∷ s) d rest h e = rw (h.0.0, until-word s d rest h.1 e) refl

from-word :
    (s : List ℕ) (d : ℕ) (rest : List ℕ)
    → All InWord s
    → is_delimiter d ≡ true
    → behind (from is_delimiter (s ++ d ∷ rest)) ≡ rest
unfolding from behind
from-word [] d rest h e = rw e refl
from-word (c ∷ s) d rest h e = rw (h.0.0, from-word s d rest h.1 e) refl

skip-word : (c : ℕ) (s : List ℕ) → InWord c → skip_delimiters (c ∷ s) ≡ c ∷ s
unfolding skip_delimiters
skip-word c s h = rw h.0 refl

next_word-first :
    (c : ℕ) (s : List ℕ) (d : ℕ) (rest : List ℕ)
    → All InWord (c ∷ s)
    → is_delimiter d ≡ true
    → next_word (c ∷ s ++ d ∷ rest) ≡ some (c ∷ s, rest)
unfolding next_word first_word
next_word-first c s d rest h e =
    ap first_word (skip-word c (s ++ d ∷ rest) h.0)
    ∙ ap₂ (λ x y. some (x, y)) (until-word (c ∷ s) d rest h e) (from-word (c ∷ s) d rest h e)

drop_http-http : (s : List ℕ) → drop_http (ascii "http://" ++ s) ≡ s
unfolding drop_http strstr starts_with
drop_http-http s = refl

c_string-append : (s rest : List ℕ) → All (λ c. c ≢ 0) s → c_string (s ++ rest) ≡ s ++ c_string rest
unfolding c_string until
c_string-append [] rest h = refl
c_string-append (c ∷ s) rest h = ground (arith, h.0, c_string-append s rest h.1)

c_string-whole : (s : List ℕ) → All (λ c. c ≢ 0) s → c_string s ≡ s
unfolding c_string until
c_string-whole [] h = refl
c_string-whole (c ∷ s) h = ground (arith, h.0, c_string-whole s h.1)

-- A line without a 0 stands in front, whatever the buffer holds.
copied-append :
    (line stale : List ℕ)
    → All (λ c. c ≢ 0) line
    → (rest : List ℕ) × (copied line stale ≡ line ++ rest)
unfolding copied
copied-append line stale h =
    let rest = drop (length (c_string line)) stale in
    (
      c_string rest,
      ap (λ l. c_string (l ++ rest)) (c_string-whole line h) ∙ c_string-append line rest h,
    )

not_zero : (s : List ℕ) → All InWord s → All (λ c. c ≢ 0) s
not_zero s h = All-imp InWord (λ c. c ≢ 0) s (λ c p. p.1) h

parse_address-steps :
    (url command hpf version r1 r2 r3 : List ℕ)
    → next_word url ≡ some (command, r1)
    → next_word r1 ≡ some (hpf, r2)
    → next_word r2 ≡ some (version, r3)
    → parse_address url ≡ some (split_address command version (drop_http hpf))
unfolding parse_address
parse_address-steps url command hpf version r1 r2 r3 e1 e2 e3 = rw (e1, e2, e3) refl

module _ (k : ℕ) (ks : List ℕ) (u : ℕ) (us : List ℕ) (v : ℕ) (vs : List ℕ)
    (command : All InWord (k ∷ ks)) (url : All InWord (u ∷ us))
    (version : All InWord (v ∷ vs)) where
  abbrev line : List ℕ
  line = (k ∷ ks) ++ (32 ∷ ((u ∷ us) ++ (32 ∷ ((v ∷ vs) ++ ascii "\r\n"))))

  line-All : All (λ c. c ≢ 0) line
  line-All =
      All-append (λ c. c ≢ 0) (k ∷ ks) (32 ∷ ((u ∷ us) ++ (32 ∷ ((v ∷ vs) ++ ascii "\r\n"))))
        (not_zero (k ∷ ks) command)
        (
          omega arith,
          All-append (λ c. c ≢ 0) (u ∷ us) (32 ∷ ((v ∷ vs) ++ ascii "\r\n")) (not_zero (u ∷ us) url)
              (
                omega arith,
                All-append (λ c. c ≢ 0) (v ∷ vs) (ascii "\r\n") (not_zero (v ∷ vs) version)
                    (omega arith, (omega arith, tt)),
              ),
        )

  line-append :
      (rest : List ℕ)
      → line ++ rest ≡ (k ∷ ks) ++ (32 ∷ ((u ∷ us) ++ (32 ∷ ((v ∷ vs) ++ (13 ∷ 10 ∷ rest)))))
  line-append rest =
      append_assoc (k ∷ ks) (32 ∷ ((u ∷ us) ++ (32 ∷ ((v ∷ vs) ++ ascii "\r\n")))) rest
      ∙ ap (λ t. (k ∷ ks) ++ (32 ∷ t))
          (append_assoc (u ∷ us) (32 ∷ ((v ∷ vs) ++ ascii "\r\n")) rest
            ∙ ap (λ t. (u ∷ us) ++ (32 ∷ t)) (append_assoc (v ∷ vs) (ascii "\r\n") rest))

  parse_address-words :
      (stale : List ℕ)
      → parse_address (copied line stale)
        ≡ some (split_address (k ∷ ks) (v ∷ vs) (drop_http (u ∷ us)))
  parse_address-words stale =
      let (rest, same) = copied-append line stale line-All in
      ap parse_address (same ∙ line-append rest)
      ∙ parse_address-steps ((k ∷ ks) ++ (32 ∷ ((u ∷ us) ++ (32 ∷ ((v ∷ vs) ++ (13 ∷ 10 ∷ rest))))))
          (k ∷ ks) (u ∷ us) (v ∷ vs) ((u ∷ us) ++ (32 ∷ ((v ∷ vs) ++ (13 ∷ 10 ∷ rest))))
          ((v ∷ vs) ++ (13 ∷ 10 ∷ rest)) (10 ∷ rest)
          (next_word-first k ks 32 ((u ∷ us) ++ (32 ∷ ((v ∷ vs) ++ (13 ∷ 10 ∷ rest)))) command refl)
          (next_word-first u us 32 ((v ∷ vs) ++ (13 ∷ 10 ∷ rest)) url refl)
          (next_word-first v vs 13 (10 ∷ rest) version refl)

module _ (c : ℕ) (s path : List ℕ) (port : ℕ) (plain : All InHost (c ∷ s)) (h : port < 2 ^ 16) where
  digits : List ℕ
  digits = print_unsigned port

  abbrev authority : List ℕ
  authority = c ∷ s ++ 58 ∷ print_unsigned port

  no_slash : All (Not 47) authority
  no_slash =
      All-append (Not 47) (c ∷ s) (58 ∷ print_unsigned port)
        (All-imp InHost (Not 47) (c ∷ s) (λ x p. p.1) plain)
        (omega arith, print_unsigned-All (Not 47) port (λ x low high. omega arith))

  no_colon : All (Not 58) (c ∷ s)
  no_colon = All-imp InHost (Not 58) (c ∷ s) (λ x p. p.0) plain

  port_read : to_unsigned 16 (atoi (print_unsigned port)) ≡ port
  port_read =
      ap (to_unsigned 16) (atoi-print_unsigned port (omega arith))
      ∙ unfold to_unsigned in omega arith

  host_port-authority :
      (default : ℕ) → host_port authority default (some (58 ∷ print_unsigned port)) ≡ (c ∷ s, port)
  unfolding host_port behind
  host_port-authority default =
      ap₂ (λ x y. (x, y)) (until-first 58 (c ∷ s) (print_unsigned port) no_colon) port_read

  split_address-authority :
      (command version : List ℕ)
      → split_address command version (authority ++ 47 ∷ path) ≡ record {
        command = command;
        host = c ∷ s;
        port = port;
        file = 47 ∷ path;
        version = version;
      }
  unfolding split_address file_of
  split_address-authority command version =
      ap₂
        (λ hp f. record {
          command = command;
          host = hp.0;
          port = hp.1;
          file = f;
          version = version;
        })
        (ap (λ t. host_port t (default_port command) (strchr t 58))
            (cut-first 47 c (s ++ 58 ∷ print_unsigned port) path no_slash)
          ∙ ap (host_port authority (default_port command))
              (strchr-first 58 (c ∷ s) (print_unsigned port) no_colon)
          ∙ host_port-authority (default_port command))
        (ap file_of (strchr-first 47 authority path no_slash))

abbrev pub http : List ℕ
http = ascii "http://"

-- A request line that is put together from a command, a URL with the scheme, a host without colon
-- and slash, a port and a path, and a version, is taken apart into them, whatever the buffer that it
-- is copied into held before. No word holds a delimiter or a 0.
pub parse_address-line :
    (k : ℕ) (ks : List ℕ) (c : ℕ) (s : List ℕ) (port : ℕ) (path : List ℕ) (v : ℕ)
    (vs stale : List ℕ)
    → All InWord (k ∷ ks)
    → All InHost (c ∷ s)
    → port < 2 ^ 16
    → All InWord (http ++ ((c ∷ s ++ 58 ∷ print_unsigned port) ++ 47 ∷ path))
    → All InWord (v ∷ vs)
    → parse_address (
        copied
          ((k ∷ ks)
            ++ (32
                ∷ ((http ++ ((c ∷ s ++ 58 ∷ print_unsigned port) ++ 47 ∷ path))
                    ++ (32 ∷ ((v ∷ vs) ++ ascii "\r\n")))))
          stale)
      ≡ some (record {
        command = k ∷ ks;
        host = c ∷ s;
        port = port;
        file = 47 ∷ path;
        version = v ∷ vs;
      })
parse_address-line k ks c s port path v vs stale command plain h url version =
    let authority = c ∷ s ++ 58 ∷ print_unsigned port in
    parse_address-words k ks 104 (ascii "ttp://" ++ (authority ++ 47 ∷ path)) v vs command url
      version stale
    ∙ ap (λ hpf. some (split_address (k ∷ ks) (v ∷ vs) hpf))
        (drop_http-http (authority ++ 47 ∷ path))
    ∙ ap some (split_address-authority c s path port plain h (k ∷ ks) (v ∷ vs))
