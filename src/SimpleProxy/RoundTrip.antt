-- ===== src/SimpleProxy/RoundTrip.antt =====
-- `strtok_r` and `parseAddress` (`Web Proxy_C/simplified version/proxy.c`) on texts put together from
-- words.
use tiny_projects_and_tools.Base.{
  ℕ, ◌^◌, ◌<◌, ◌≡◌, ◌≢◌, refl, sym, ap, subst, ap₂, ◌∙◌, List, [], ◌∷◌, ◌++◌, Option, none, some,
  arith, All, All-append, All-imp,
}
use tiny_projects_and_tools.Base.CString.{
  strstr, strchr, starts_with, until, from, atoi, to_unsigned,
}
use tiny_projects_and_tools.Base.Decimal.{print_int}
use tiny_projects_and_tools.Base.RoundTrip.{to_unsigned-print_int, print_int-All}
use tiny_projects_and_tools.SimpleProxy.Address.{
  leading, skip, behind, is_byte, token, strtok_r, cut, rest_of, scheme, with_port, split_host,
  drop_scheme, parse_address,
}

module _ (d : ℕ) where
  abbrev pub Not : ℕ → Type 0
  Not c = c ≢ d

  pub until-first : (xs ys : List ℕ) → All Not xs → until (is_byte d) (xs ++ d ∷ ys) ≡ xs
  unfolding until
  until-first [] ys h = ground arith
  until-first (x ∷ xs) ys h = ground (arith, h.0, until-first xs ys h.1)

  until-whole : (xs : List ℕ) → All Not xs → until (is_byte d) xs ≡ xs
  unfolding until
  until-whole [] h = refl
  until-whole (x ∷ xs) h = ground (arith, h.0, until-whole xs h.1)

  from-first : (xs ys : List ℕ) → All Not xs → from (is_byte d) (xs ++ d ∷ ys) ≡ d ∷ ys
  unfolding from
  from-first [] ys h = ground arith
  from-first (x ∷ xs) ys h = ground (arith, h.0, from-first xs ys h.1)

  pub strchr-first : (xs ys : List ℕ) → All Not xs → strchr (xs ++ d ∷ ys) d ≡ some (d ∷ ys)
  unfolding strchr
  strchr-first [] ys h = ground arith
  strchr-first (x ∷ xs) ys h = ground (arith, h.0, strchr-first xs ys h.1)

  strchr-absent : (xs : List ℕ) → All Not xs → strchr xs d ≡ none
  unfolding strchr
  strchr-absent [] h = refl
  strchr-absent (x ∷ xs) h = ground (arith, h.0, strchr-absent xs h.1)

  skip-none : (c : ℕ) (s : List ℕ) → c ≢ d → skip d (c ∷ s) ≡ c ∷ s
  unfolding skip
  skip-none c s h = ground arith

  leading-none : (c : ℕ) (s : List ℕ) → c ≢ d → leading d (c ∷ s) ≡ []
  unfolding leading
  leading-none c s h = ground arith

  pub cut-first : (c : ℕ) (s ys : List ℕ) → All Not (c ∷ s) → cut (c ∷ s ++ d ∷ ys) d ≡ c ∷ s
  unfolding cut
  cut-first c s ys h =
      ap₂ (λ front back. front ++ until (is_byte d) back) (leading-none c (s ++ d ∷ ys) h.0)
        (skip-none c (s ++ d ∷ ys) h.0)
      ∙ until-first (c ∷ s) ys h

  pub rest_of-first : (c : ℕ) (s ys : List ℕ) → All Not (c ∷ s) → rest_of (c ∷ s ++ d ∷ ys) d ≡ ys
  unfolding rest_of
  rest_of-first c s ys h =
      ap (λ t. behind (from (is_byte d) t)) (skip-none c (s ++ d ∷ ys) h.0)
      ∙ ap behind (from-first (c ∷ s) ys h)
      ∙ unfold behind in refl

  pub strtok_r-first :
      (c : ℕ) (s ys : List ℕ) → All Not (c ∷ s) → strtok_r (c ∷ s ++ d ∷ ys) d ≡ some (c ∷ s)
  unfolding strtok_r token
  strtok_r-first c s ys h =
      ap (λ t. token t d) (skip-none c (s ++ d ∷ ys) h.0) ∙ ap some (until-first (c ∷ s) ys h)

  strtok_r-whole : (c : ℕ) (s : List ℕ) → All Not (c ∷ s) → strtok_r (c ∷ s) d ≡ some (c ∷ s)
  unfolding strtok_r token
  strtok_r-whole c s h = ap (λ t. token t d) (skip-none c s h.0) ∙ ap some (until-whole (c ∷ s) h)

drop_scheme-scheme : (s : List ℕ) → drop_scheme (scheme ++ s) ≡ s
unfolding drop_scheme strstr starts_with
drop_scheme-scheme s = refl

-- The bytes of a host name: neither a colon nor a slash.
abbrev pub HostByte : ℕ → Type 0
HostByte c = (c ≢ 58) × (c ≢ 47)

module _ (c : ℕ) (s path : List ℕ) (plain : All HostByte (c ∷ s)) where
  parse_address-authority :
      (authority : List ℕ)
      → All (Not 47) (c ∷ authority)
      → parse_address (scheme ++ c ∷ authority ++ 47 ∷ path)
        ≡ split_host (c ∷ authority) (some (47 ∷ path))
  unfolding parse_address
  parse_address-authority authority h =
      ap (λ t. split_host (cut t 47) (strchr t 47))
        (drop_scheme-scheme (c ∷ authority ++ 47 ∷ path))
      ∙ ap₂ split_host (cut-first 47 c authority path h) (strchr-first 47 (c ∷ authority) path h)

  no_colon : All (Not 58) (c ∷ s)
  no_colon = All-imp HostByte (Not 58) (c ∷ s) (λ x h. h.0) plain

  no_slash : All (Not 47) (c ∷ s)
  no_slash = All-imp HostByte (Not 47) (c ∷ s) (λ x h. h.1) plain

  with_port-word :
      (port : ℕ) (file : Option (List ℕ)) (b : ℕ) (bs : List ℕ)
      → to_unsigned 32 (atoi (print_int port)) ≡ port
      → print_int port ≡ b ∷ bs
      → strtok_r (print_int port) 47 ≡ some (b ∷ bs)
      → with_port (c ∷ s ++ 58 ∷ print_int port) file
        ≡ some (record { host = c ∷ s; file = file; port = port })
  unfolding with_port
  with_port-word port file b bs read printed word = ground (
    arith,
    ap (λ t. strtok_r t 47) (rest_of-first 58 c s (print_int port) no_colon) ∙ word,
    cut-first 58 c s (print_int port) no_colon,
    ap (λ t. to_unsigned 32 (atoi t)) (sym printed) ∙ read,
  )

  with_port-port :
      (port : ℕ) (file : Option (List ℕ))
      → port < 2 ^ 32
      → with_port (c ∷ s ++ 58 ∷ print_int port) file
        ≡ some (record { host = c ∷ s; file = file; port = port })
  with_port-port port file h =
      let (b, bs, printed, word) =
        print_int-All (Not 47) port h (λ x low high. omega arith) (omega arith) in
      with_port-word port file b bs (to_unsigned-print_int port h) printed
        (ap (λ t. strtok_r t 47) printed ∙ strtok_r-whole 47 b bs word)

  split_host-port :
      (port : ℕ) (file : Option (List ℕ))
      → port < 2 ^ 32
      → split_host (c ∷ s ++ 58 ∷ print_int port) file
        ≡ some (record { host = c ∷ s; file = file; port = port })
  unfolding split_host
  split_host-port port file h =
      ground (arith, strchr-first 58 (c ∷ s) (print_int port) no_colon, with_port-port port file h)

  authority_no_slash : (port : ℕ) → port < 2 ^ 32 → All (Not 47) (c ∷ s ++ 58 ∷ print_int port)
  authority_no_slash port h =
      let (b, bs, printed, word) =
        print_int-All (Not 47) port h (λ x low high. omega arith) (omega arith) in
      All-append (Not 47) (c ∷ s) (58 ∷ print_int port) no_slash
        (omega arith, subst (All (Not 47)) (sym printed) word)

  -- A URL that is put together from a host without colon and slash, a port and a path is taken apart
  -- into them.
  pub parse_address-print_int :
      (port : ℕ)
      → port < 2 ^ 32
      → parse_address (scheme ++ (c ∷ s ++ 58 ∷ print_int port) ++ 47 ∷ path)
        ≡ some (record { host = c ∷ s; file = some (47 ∷ path); port = port })
  parse_address-print_int port h =
      parse_address-authority (s ++ 58 ∷ print_int port) (authority_no_slash port h)
      ∙ split_host-port port (some (47 ∷ path)) h

  -- A URL with the scheme, a host without colon and slash and a path, but no port, is taken apart into
  -- the host, the path and the port 80.
  pub parse_address-plain :
      parse_address (scheme ++ (c ∷ s) ++ 47 ∷ path)
      ≡ some (record { host = c ∷ s; file = some (47 ∷ path); port = 80 })
  parse_address-plain =
      parse_address-authority s no_slash
      ∙ unfold split_host in ground (arith, strchr-absent 58 (c ∷ s) no_colon)
