-- ===== src/Tests/SimpleProxy.antt =====
-- The proxy of `Web Proxy_C/simplified version` at concrete inputs.
use tiny_projects_and_tools.Base.{
  ℕ, List, ◌≡◌, [], ◌∷◌, ◌++◌, some, refl, arith, ascii, All, true, false, replicate,
}
use tiny_projects_and_tools.Base.Decimal.{print_int}
use tiny_projects_and_tools.SimpleProxy.Address.{scheme, parse_address}
use tiny_projects_and_tools.SimpleProxy.Session.{
  pass_headers, end_line, close_info, talked, web_talk,
}
use tiny_projects_and_tools.SimpleProxy.RoundTrip.{
  Not, HostByte, parse_address-print_int, parse_address-plain,
}
use tiny_projects_and_tools.SimpleProxy.Headers.{IsHeader, Passed, pass_headers-blank}
use tiny_projects_and_tools.SimpleProxy.Relay.{web_talk-get}
use tiny_projects_and_tools.Base.CString.{c_string}

-- The host "h", the path "x".
host_bytes : All HostByte (104 ∷ [])
host_bytes = ((omega arith, omega arith), tt)

parse_address-print_int_example :
    parse_address (scheme ++ ((104 ∷ []) ++ 58 ∷ print_int 8080) ++ 47 ∷ 120 ∷ [])
    ≡ some (record { host = 104 ∷ []; file = some (47 ∷ 120 ∷ []); port = 8080 })
parse_address-print_int_example =
    parse_address-print_int 104 [] (120 ∷ []) host_bytes 8080 (omega arith)

parse_address-plain_example :
    parse_address (scheme ++ (104 ∷ []) ++ 47 ∷ 120 ∷ [])
    ≡ some (record { host = 104 ∷ []; file = some (47 ∷ 120 ∷ []); port = 80 })
parse_address-plain_example = parse_address-plain 104 [] (120 ∷ []) host_bytes

-- A line that asks to keep the connection, in another case, and one that does not.
abbrev header_lines : List (List ℕ)
header_lines = ascii "connection: KEEP-alive\r\n" ∷ ascii "Host: h\r\n" ∷ []

header_lines-IsHeader : All IsHeader header_lines
unfolding c_string
header_lines-IsHeader = (λ e. absurd (cc e), (λ e. absurd (cc e), tt))

pass_headers-blank_example :
    (outs : List (List ℕ)) × Passed header_lines outs
    × (pass_headers (header_lines ++ end_line ∷ ascii "x" ∷ []) ≡ outs ++ end_line ∷ [])
pass_headers-blank_example = pass_headers-blank header_lines (ascii "x" ∷ []) header_lines-IsHeader

pass_headers_run :
    pass_headers (header_lines ++ end_line ∷ ascii "x" ∷ [])
    ≡ close_info ∷ ascii "Host: h\r\n" ∷ end_line ∷ []
unfolding pass_headers
pass_headers_run = refl

-- "GET http://h:80/x V", with one failed attempt.
url_bytes : All (Not 32) (scheme ++ (((104 ∷ []) ++ 58 ∷ print_int 80) ++ 47 ∷ 120 ∷ []))
unfolding print_int
url_bytes = (
  omega arith,
  (
    omega arith,
    (
      omega arith,
      (
        omega arith,
        (
          omega arith,
          (
            omega arith,
            (
              omega arith,
              (
                omega arith,
                (omega arith, (omega arith, (omega arith, (omega arith, (omega arith, tt))))),
              ),
            ),
          ),
        ),
      ),
    ),
  ),
)

-- The line as it is printed where the words do not overlap the buffer.
abbrev printed : List ℕ → List ℕ → List ℕ → List ℕ
printed cmd file version = cmd ++ ascii " " ++ file ++ ascii " " ++ version ++ end_line

web_talk-get_example :
    (outs : List (List ℕ)) × Passed header_lines outs
    × (web_talk printed
          (ascii "GET "
            ++ ((scheme ++ (((104 ∷ []) ++ 58 ∷ print_int 80) ++ 47 ∷ 120 ∷ []))
                ++ (32 ∷ ((86 ∷ []) ++ end_line))))
          (replicate 1 false ++ true ∷ [])
          (header_lines ++ end_line ∷ [])
          ((1 ∷ []) ∷ [] ∷ [])
        ≡ talked (record {
          opened = record { host = 104 ∷ []; file = some (47 ∷ 120 ∷ []); port = 80 };
          to_server = printed (ascii "GET") (47 ∷ 120 ∷ []) (86 ∷ []) ∷ (outs ++ end_line ∷ []);
          to_client = (1 ∷ []) ∷ [];
          closes = true;
        }))
web_talk-get_example =
    web_talk-get printed 104 [] (120 ∷ []) 80 86 [] 1 [] header_lines [] ((1 ∷ []) ∷ []) []
      host_bytes (omega arith) url_bytes (refl, tt) (omega arith) header_lines-IsHeader
      (omega arith, tt)
