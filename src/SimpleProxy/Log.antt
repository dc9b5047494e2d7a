-- ===== src/SimpleProxy/Log.antt =====
-- `format_log_entry` of `Web Proxy_C/simplified version/proxy.c`. The time as text is an argument, and
-- so is the peer's address, which `getpeername` may not have.
use tiny_projects_and_tools.Base.{ℕ, ◌/◌, ◌%◌, ◌^◌, List, ◌++◌, Option, none, some, ascii}
use tiny_projects_and_tools.Base.Decimal.{print_unsigned, print_int}

pub record Quad : Type 0 where
  pub a : ℕ
  pub b : ℕ
  pub c : ℕ
  pub d : ℕ

-- The four bytes of an address of 32 bits.
unfoldable pub quad : ℕ → Quad
quad host = record {
  a = host / 2 ^ 24 % 256;
  b = host / 2 ^ 16 % 256;
  c = host / 2 ^ 8 % 256;
  d = host % 256;
}

unfoldable pub format_log_entry : List ℕ → Option ℕ → List ℕ → ℕ → Option (List ℕ)
unfolding quad
format_log_entry time none uri size = none
format_log_entry time (some host) uri size =
    let q = quad host in
    some (
      time
      ++ ascii ": "
      ++ print_unsigned q.a
      ++ ascii "."
      ++ print_unsigned q.b
      ++ ascii "."
      ++ print_unsigned q.c
      ++ ascii "."
      ++ print_unsigned q.d
      ++ ascii " "
      ++ uri
      ++ ascii " "
      ++ print_int size
      ++ ascii "\n")
