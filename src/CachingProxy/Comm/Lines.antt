-- ===== src/CachingProxy/Comm/Lines.antt =====
-- `readlinex` (`Web Proxy_C/Proxy with Cache/commclient.cpp`) and the stream of bytes.
use mathlib.Core.List.{append-nil, append_assoc}
use tiny_projects_and_tools.Base.{
  ℕ, zero, suc, ◌-◌, ◌<◌, ◌≡◌, refl, ap, ◌∙◌, ◌⊎◌, inl, inr, List, [], ◌∷◌, ◌++◌, some, ◌==◌,
  if◌then◌else◌, arith, Bool-cases,
}
use tiny_projects_and_tools.CachingProxy.Comm.{max_line, Client, line_loop, readlinex}
use tiny_projects_and_tools.CachingProxy.Comm.Stream.{pending, IsReady}
use tiny_projects_and_tools.CachingProxy.Comm.Bytes.{read_fb-Byte, read_fb-End}

-- The first line of `s` with its newline, of at most `room` bytes, and what follows it.
unfoldable pub split_line : ℕ → List ℕ → List ℕ × List ℕ
split_line zero s = ([], s)
split_line (suc room) [] = ([], [])
split_line (suc room) (b ∷ s) =
    let (line, rest) = split_line room s in if b == 10 then (b ∷ [], s) else (b ∷ line, rest)

pub record Splits (room : ℕ) (c : Client) (line : List ℕ) : Type 0 where
  pub after : Client
  pub reads : line_loop room c line ≡ (after, some (line ++ (split_line room (pending c)).0))
  pub left : pending after ≡ (split_line room (pending c)).1
  pub ready : IsReady after
  pub space : (0 < room) ⊎ (c.counter < max_line) → after.counter < max_line

pub pending_cases : (s : List ℕ) → (s ≡ []) ⊎ ((b : ℕ) × (rest : List ℕ) × (s ≡ b ∷ rest))
pending_cases [] = inl refl
pending_cases (b ∷ rest) = inr (b, rest, refl)

pub line_loop-Splits : (room : ℕ) (c : Client) (line : List ℕ) → IsReady c → Splits room c line
unfolding line_loop split_line
line_loop-Splits zero c line r = record {
  after = c;
  reads = rw append-nil;
  left = refl;
  ready = r;
  space = λ h. omega arith;
}
line_loop-Splits (suc room) c line r = elim (pending_cases (pending c)) [
  | inl e ↦
      let d = read_fb-End c r e in
      record {
        after = d.after;
        reads = ground (arith, d.reads, e, append-nil line);
        left = rw e d.left;
        ready = d.ready;
        space = λ h. d.space;
      }
  | inr (b, rest, e) ↦
      let d = read_fb-Byte c b rest r e in
      let s = line_loop-Splits room d.after (line ++ b ∷ []) d.ready in
      elim (Bool-cases (b == 10)) [
        | inl newline ↦ record {
          after = d.after;
          reads = ground (arith, d.reads, e, newline);
          left = rw (e, newline) d.left;
          ready = d.ready;
          space = λ h. d.space;
        }
        | inr other ↦ record {
          after = s.after;
          reads = ground (
            arith,
            d.reads,
            d.left,
            e,
            s.reads,
            append_assoc line (b ∷ []) (split_line room rest).0,
          );
          left = rw (e, other) (s.left ∙ ap (λ l. (split_line room l).1) d.left);
          ready = s.ready;
          space = λ h. s.space (inr d.space);
        }
      ]
]

-- On a stream without failures `readlinex` returns the next line with its newline, cut to
-- `size - 1` bytes, or what is left of the stream if it ends before. What it did not return is
-- still to be delivered, and the client is ready for the next call.
pub readlinex-splits :
    (c : Client) (size : ℕ)
    → IsReady c
    → ((readlinex c size).1 ≡ some (split_line (size - 1) (pending c)).0)
      × (pending (readlinex c size).0 ≡ (split_line (size - 1) (pending c)).1)
      × IsReady (readlinex c size).0
unfolding readlinex
readlinex-splits c size r =
    let s = line_loop-Splits (size - 1) c [] r in rw s.reads (refl, s.left, s.ready)

pub readlinex-space : (c : Client) → IsReady c → (readlinex c max_line).0.counter < max_line
unfolding readlinex
readlinex-space c r =
    let s = line_loop-Splits (max_line - 1) c [] r in rw s.reads (s.space (inl (omega arith)))
