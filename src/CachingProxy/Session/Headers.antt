-- ===== src/CachingProxy/Session/Headers.antt =====
-- A header that a session (`Web Proxy_C/Proxy with Cache/main.cpp`) reads from either side.
use mathlib.Core.List.{append_assoc}
use tiny_projects_and_tools.Base.{
  ℕ, zero, suc, ◌-◌, ◌<◌, ◌≡◌, ◌≢◌, refl, sym, ap, ◌∙◌, true, false, List, [], ◌∷◌, ◌++◌, Option,
  some, length, All, ascii, str_eq, arith,
}
use tiny_projects_and_tools.CachingProxy.Header.{Header, append}
use tiny_projects_and_tools.CachingProxy.Comm.{max_line, Client, readlinex}
use tiny_projects_and_tools.CachingProxy.Comm.Stream.{pending, IsReady}
use tiny_projects_and_tools.CachingProxy.Comm.Lines.{split_line, readlinex-splits, readlinex-space}
use tiny_projects_and_tools.CachingProxy.Session.World.{World, ok, Action, client_line, server_line}
use tiny_projects_and_tools.CachingProxy.Session.Requests.{is_blank_line, read_header}

-- A line that one `readlinex` takes and that does not end a header.
pub record HeaderLine (l : List ℕ) : Type 0 where
  pub front : List ℕ
  pub ends : l ≡ front ++ 10 ∷ []
  pub plain : All (λ c. c ≢ 10) front
  pub short : length front < max_line - 1
  pub not_blank : is_blank_line l ≡ false

-- The text of a header with its blank line, in front of more text, and the header of such lines.
abbrev pub header_text : List (List ℕ) → List ℕ → List ℕ
header_text [] rest = ascii "\r\n" ++ rest
header_text (l ∷ lines) rest = l ++ header_text lines rest

abbrev pub header_of : Header → List (List ℕ) → Header
header_of h [] = append h (ascii "\r\n")
header_of h (l ∷ lines) = header_of (append h l) lines

pub split_line-front :
    (room : ℕ) (front rest : List ℕ)
    → All (λ c. c ≢ 10) front
    → length front < room
    → split_line room (front ++ 10 ∷ rest) ≡ (front ++ 10 ∷ [], rest)
unfolding split_line
split_line-front zero front rest p h = absurd (omega arith)
split_line-front (suc room) [] rest p h = refl
split_line-front (suc room) (c ∷ front) rest p h =
    ground (arith, p.0, split_line-front room front rest p.1 (omega arith))

nonempty : (front : List ℕ) → 0 < length (front ++ 10 ∷ [])
nonempty [] = omega arith
nonempty (c ∷ front) = omega arith

blank : List ℕ
blank = ascii "\r\n"

blank_is_blank : is_blank_line blank ≡ true
unfolding is_blank_line blank str_eq
blank_is_blank = refl

-- What one call of a `readlinex` leaves of a client.
pub record Reads (c : Client) (line rest : List ℕ) : Type 0 where
  pub reads : (readlinex c max_line).1 ≡ some line
  pub left : pending (readlinex c max_line).0 ≡ rest
  pub ready : IsReady (readlinex c max_line).0
  pub space : (readlinex c max_line).0.counter < max_line

pub readlinex-Reads :
    (c : Client) (front rest : List ℕ)
    → IsReady c
    → All (λ x. x ≢ 10) front
    → length front < max_line - 1
    → pending c ≡ front ++ 10 ∷ rest
    → Reads c (front ++ 10 ∷ []) rest
readlinex-Reads c front rest r plain short e =
    let (reads, left, ready) = readlinex-splits c max_line r in
    let split =
      ap (split_line (max_line - 1)) e ∙ split_line-front (max_line - 1) front rest plain short in
    record {
      reads = reads ∙ ap (λ p. some p.0) split;
      left = left ∙ ap (λ p. p.1) split;
      ready = ready;
      space = readlinex-space c r;
    }

-- One side of a session: what its lines do to it, and what they leave alone.
pub record Side (line : Action (Option (List ℕ))) : Type 1 where
  pub side : World → Client
  pub forget : World → World
  pub after : World → World
  pub takes : (w : World) → line w ≡ (ok (readlinex (side w) max_line).1, after w)
  pub side_after : (w : World) → side (after w) ≡ (readlinex (side w) max_line).0
  pub forgets : (w : World) → forget (after w) ≡ forget w

module _ {line : Action (Option (List ℕ))} (s : Side line) where
  pub record HeaderRead (w : World) (fuel : ℕ) (h : Header) (lines : List (List ℕ)) (rest : List ℕ)
      : Type 0 where
    pub after : World
    pub reads : read_header line fuel h w ≡ (ok (header_of h lines, some (ascii "\r\n")), after)
    pub ready : IsReady (s.side after)
    pub left : pending (s.side after) ≡ rest
    pub space : (s.side after).counter < max_line
    pub kept : s.forget after ≡ s.forget w

  module _ (w w' : World) (fuel : ℕ) (h : Header) where
    next_line :
        (l : List ℕ)
        → 0 < length l
        → line w ≡ (ok (some l), w')
        → is_blank_line l ≡ false
        → read_header line (suc fuel) h w ≡ read_header line fuel (append h l) w'
    unfolding read_header
    next_line [] p e b = absurd (omega arith)
    next_line (c ∷ l) p e b = ground (arith, e, b)

    last_line :
        (l : List ℕ)
        → 0 < length l
        → line w ≡ (ok (some l), w')
        → is_blank_line l ≡ true
        → read_header line (suc fuel) h w ≡ (ok (append h l, some l), w')
    unfolding read_header
    last_line [] p e b = absurd (omega arith)
    last_line (c ∷ l) p e b = ground (arith, e, b)

  pub read_header-lines :
      (lines : List (List ℕ)) (rest : List ℕ) (w : World) (fuel : ℕ) (h : Header)
      → All HeaderLine lines
      → IsReady (s.side w)
      → pending (s.side w) ≡ header_text lines rest
      → length lines < fuel
      → HeaderRead w fuel h lines rest
  unfolding blank
  read_header-lines lines rest w zero h all r e f = absurd (omega arith)
  read_header-lines [] rest w (suc fuel) h all r e f =
      let t = readlinex-Reads (s.side w) (13 ∷ []) rest r (omega arith, tt) (omega arith) e in
      record {
        after = s.after w;
        reads =
            last_line w (s.after w) fuel h blank (omega arith)
              (s.takes w ∙ ap (λ o. (ok o, s.after w)) t.reads) blank_is_blank;
        ready = rw (s.side_after w) t.ready;
        left = rw (s.side_after w) t.left;
        space = rw (s.side_after w) t.space;
        kept = s.forgets w;
      }
  read_header-lines (l ∷ lines) rest w (suc fuel) h all r e f =
      let a = all.0 in
      let t = readlinex-Reads (s.side w) a.front (header_text lines rest) r a.plain a.short (
        e
        ∙ ap (λ t. t ++ header_text lines rest) a.ends
        ∙ append_assoc a.front (10 ∷ []) (header_text lines rest)) in
      let again =
        read_header-lines lines rest (s.after w) fuel (append h l) all.1
          (rw (s.side_after w) t.ready) (rw (s.side_after w) t.left) (omega arith) in
      record {
        after = again.after;
        reads =
            next_line w (s.after w) fuel h l (rw a.ends (nonempty a.front))
              (s.takes w ∙ ap (λ o. (ok o, s.after w)) (t.reads ∙ ap some (sym a.ends))) a.not_blank
            ∙ again.reads;
        ready = again.ready;
        left = again.left;
        space = again.space;
        kept = again.kept ∙ s.forgets w;
      }

-- The client's side and the server's side.
unfoldable pub client_side : Side client_line
unfolding client_line
client_side = record {
  side = λ w. w.client;
  forget = λ w. record w { client = w.server; buf = [] };
  after = λ w. (client_line w).1;
  takes = λ w. refl;
  side_after = λ w. refl;
  forgets = λ w. refl;
}

unfoldable pub server_side : Side server_line
unfolding server_line
server_side = record {
  side = λ w. w.server;
  forget = λ w. record w { server = w.client; buf = [] };
  after = λ w. (server_line w).1;
  takes = λ w. refl;
  side_after = λ w. refl;
  forgets = λ w. refl;
}
