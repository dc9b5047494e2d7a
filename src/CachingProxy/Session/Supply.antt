-- ===== src/CachingProxy/Session/Supply.antt =====
-- That a read of a client (`Web Proxy_C/Proxy with Cache/commclient.cpp`) uses up what it returns,
-- whatever the state of the client and however the read ends.
use Prim.Native.Nat.{min}
use tiny_projects_and_tools.Base.{
  ℕ, zero, suc, ◌+◌, ◌-◌, ◌≤◌, ◌<◌, ◌≡◌, refl, sym, ap, subst, ◌∙◌, false, List, [], ◌∷◌, ◌++◌,
  Option, none, some, length, length-append, length-drop, length-take, drop, leb, ltb, leb→le,
  Option-cases, ◌==◌, if◌then◌else◌, arith, inl, inr, Bool-cases,
}
use tiny_projects_and_tools.CachingProxy.Comm.{
  max_line, Event, arrived, interrupted, failed, Client, read_events, refill, take_buffered,
  read_fb, line_loop, readlinex, readx_buffered, readx_direct, readx,
}
use tiny_projects_and_tools.CachingProxy.Comm.Lines.{pending_cases}
use tiny_projects_and_tools.CachingProxy.Session.Reading.{arrivals, supply}

-- How many bytes a call returns.
abbrev pub count : Option (List ℕ) → ℕ
count none = 0
count (some bs) = length bs

-- A call returns at most `size` bytes, and uses up as many.
abbrev pub Uses : ℕ → Client → Client × Option (List ℕ) → Type 0
Uses size c (c', got) = (count got ≤ size) × (count got + supply c' ≤ supply c)

leb-false : (a b : ℕ) → leb a b ≡ false → b < a
leb-false a b h = ground arith

read_events-arrivals :
    (input : List Event) (size : ℕ)
    → (count (read_events input size).0 ≤ size)
      × (count (read_events input size).0 + arrivals (read_events input size).1 ≤ arrivals input)
unfolding read_events arrivals
read_events-arrivals [] size = (omega arith, omega arith)
read_events-arrivals (interrupted ∷ r) size = read_events-arrivals r size
read_events-arrivals (failed ∷ r) size = (omega arith, omega arith)
read_events-arrivals (arrived bs ∷ r) size = elim (Bool-cases (leb (length bs) size)) [
  | inl all ↦ rw all (leb→le (length bs) size all, omega arith)
  | inr part ↦ rw part (
    omega (arith, length-take size bs),
    omega (arith, length-take size bs, length-drop size bs, leb-false (length bs) size part),
  )
]

take_buffered-Uses : (c : Client) (size : ℕ) → Uses size c (take_buffered c size)
unfolding take_buffered supply
take_buffered-Uses c size =
    let n = length-take (min c.counter size) (drop c.pos c.buffer) in
    (omega (arith, n), omega (arith, n))

readx_buffered-Uses : (c : Client) (size : ℕ) → Uses size c (readx_buffered c size)
unfolding readx_buffered supply
readx_buffered-Uses c size =
    let n = length-take (min c.counter size) (drop c.pos c.buffer) in
    (omega (arith, n), omega (arith, n))

readx_direct-Uses : (c : Client) (size : ℕ) → Uses size c (readx_direct c size)
unfolding readx_direct supply
readx_direct-Uses c size = ground (arith, read_events-arrivals c.input size)

pub readx-Uses : (c : Client) (size : ℕ) → Uses size c (readx c size)
unfolding readx
readx-Uses c size = elim (Bool-cases (ltb 0 c.counter)) [
  | inl some_left ↦ rw some_left (readx_buffered-Uses c size)
  | inr none_left ↦ elim (Bool-cases (ltb 0 size)) [
    | inl room ↦ rw (none_left, room) (readx_direct-Uses c size)
    | inr no_room ↦ rw (none_left, no_room) (omega arith, omega arith)
  ]
]

-- A buffer that is filled again.
refill-supply : (c : Client) → c.counter ≡ 0 → supply (refill c).0 ≤ supply c
unfolding refill supply
refill-supply c k = ground (arith, k, read_events-arrivals c.input max_line)

read_fb-Uses : (c : Client) (size : ℕ) → Uses size c (read_fb c size)
unfolding read_fb
read_fb-Uses c size =
    ground (arith, take_buffered-Uses c size, take_buffered-Uses (refill c).0 size, refill-supply c)

-- What one round of the loop does, by what was read.
module _ (room : ℕ) (c : Client) (line : List ℕ) where
  abbrev after : Client
  after = (read_fb c 1).0

  loop_error : (read_fb c 1).1 ≡ none → line_loop (suc room) c line ≡ (after, none)
  unfolding line_loop
  loop_error e = rw (e, line_loop) refl

  loop_end : (read_fb c 1).1 ≡ some [] → line_loop (suc room) c line ≡ (after, some line)
  unfolding line_loop
  loop_end e = rw (e, line_loop) refl

  loop_byte :
      (b : ℕ) (more : List ℕ)
      → (read_fb c 1).1 ≡ some (b ∷ more)
      → line_loop (suc room) c line ≡ (
          if b == 10 then (after, some (line ++ b ∷ [])) else line_loop room after (line ++ b ∷ []))
  unfolding line_loop
  loop_byte b more e = rw (e, line_loop) refl

-- At most `n` bytes are returned, and they and what is left are at most `k`.
abbrev Within : ℕ → ℕ → Client × Option (List ℕ) → Type 0
Within n k (c', got) = (count got ≤ n) × (count got + supply c' ≤ k)

byte-Within :
    (room : ℕ) (c : Client) (line : List ℕ) (b : ℕ) (more : List ℕ)
    → (read_fb c 1).1 ≡ some (b ∷ more)
    → Within
        (room + length (line ++ b ∷ []))
        (length (line ++ b ∷ []) + supply (read_fb c 1).0)
        (line_loop room (read_fb c 1).0 (line ++ b ∷ []))
    → Within (suc room + length line) (length line + supply c) (
        if b == 10
        then ((read_fb c 1).0, some (line ++ b ∷ []))
        else line_loop room (read_fb c 1).0 (line ++ b ∷ []))
byte-Within room c line b more e again =
    let n = length-append line (b ∷ []) in
    let used : suc (length more) + supply (read_fb c 1).0 ≤ supply c =
      subst (λ o. count o + supply (read_fb c 1).0 ≤ supply c) e (read_fb-Uses c 1).1 in
    elim (Bool-cases (b == 10)) [
      | inl newline ↦ rw newline (omega (arith, n), omega (arith, n, used))
      | inr other ↦ rw other (omega (arith, n, again.0), omega (arith, n, used, again.1))
    ]

line_loop-Within :
    (room : ℕ) (c : Client) (line : List ℕ)
    → Within (room + length line) (length line + supply c) (line_loop room c line)
line_loop-Within zero c line = unfold line_loop in (omega arith, omega arith)
line_loop-Within (suc room) c line = elim (Option-cases (read_fb c 1).1) [
  | inl e ↦
      subst (Within (suc room + length line) (length line + supply c))
        (sym (loop_error room c line e)) (omega arith, omega (arith, (read_fb-Uses c 1).1))
  | inr (bs, e) ↦ elim (pending_cases bs) [
    | inl none_left ↦
        subst (Within (suc room + length line) (length line + supply c))
          (sym (loop_end room c line (e ∙ ap some none_left)))
          (omega arith, omega (arith, (read_fb-Uses c 1).1))
    | inr (b, more, some_left) ↦
        subst (Within (suc room + length line) (length line + supply c))
          (sym (loop_byte room c line b more (e ∙ ap some some_left)))
          (byte-Within room c line b more (e ∙ ap some some_left)
            (line_loop-Within room (read_fb c 1).0 (line ++ b ∷ [])))
  ]
]

-- Whatever state a client is in and however the call ends, `readlinex` returns at most `size - 1`
-- bytes, and what it returned and what can still be read are at most what could be read before.
pub readlinex-Uses : (c : Client) (size : ℕ) → Uses (size - 1) c (readlinex c size)
unfolding readlinex
readlinex-Uses c size =
    let (small, used) = line_loop-Within (size - 1) c [] in (omega arith, omega arith)
