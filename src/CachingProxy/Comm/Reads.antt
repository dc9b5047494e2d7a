-- ===== src/CachingProxy/Comm/Reads.antt =====
-- `readx` (`Web Proxy_C/Proxy with Cache/commclient.cpp`) and the stream of bytes.
use Prim.Native.Nat.{min}
use tiny_projects_and_tools.Base.{
  ℕ, ◌-◌, ◌*◌, ◌≤◌, ◌<◌, ◌≡◌, refl, ap, sym, ◌∙◌, inl, inr, List, [], ◌∷◌, ◌++◌, Option, some,
  length, take, drop, ltb, arith, Bool-cases,
}
use tiny_projects_and_tools.CachingProxy.Comm.{
  max_line, Client, Event, read_events, readx, readx_buffered, readx_direct,
}
use tiny_projects_and_tools.CachingProxy.Comm.Stream.{
  pending, bytes_of, Flows, IsReady, empty_window, read_events-Delivers, read_events_end,
}
use tiny_projects_and_tools.CachingProxy.Comm.Lines.{pending_cases}

pub record Takes (c : Client) (result : Client × Option (List ℕ)) : Type 0 where
  pub bytes : List ℕ
  pub reads : result.1 ≡ some bytes
  pub whole : bytes ++ pending result.0 ≡ pending c
  pub ready : IsReady result.0

buffered-Takes :
    (c : Client) (size : ℕ) → IsReady c → c.counter ≤ size → Takes c (readx_buffered c size)
unfolding readx_buffered pending
buffered-Takes c size r h = record {
  bytes = take c.counter (drop c.pos c.buffer);
  reads = rw all;
  whole = rw (all, none_left);
  ready = record {
    fd = r.fd;
    is_open = r.is_open;
    fits = omega (arith, r.fits);
    whole = r.whole;
    flows = r.flows;
  };
}
  where
    all : min c.counter size ≡ c.counter
    all = omega arith

    none_left : c.counter - c.counter ≡ 0
    none_left = omega arith

-- A read straight from the socket, by what the system returns.
direct-Takes_of :
    (c : Client) (size fd : ℕ) (bytes : List ℕ) (input' : List Event)
    → c.socket_fd ≡ some fd
    → c.counter ≡ 0
    → c.pos ≤ length c.buffer
    → length c.buffer ≡ max_line
    → read_events c.input size ≡ (some bytes, input')
    → Flows input'
    → bytes ++ bytes_of input' ≡ pending c
    → Takes c (readx_direct c size)
unfolding readx_direct
direct-Takes_of c size fd bytes input' o k fits whole got flows same = rw step (record {
  bytes = bytes;
  reads = refl;
  whole = ap (λ l. bytes ++ l) (empty_window after k) ∙ same;
  ready = record { fd = fd; is_open = o; fits = omega arith; whole = whole; flows = flows };
})
  where
    after : Client
    after = record c { input = input' }

    step : readx_direct c size ≡ (after, some bytes)
    step = ground (arith, o, got)

direct-Takes :
    (c : Client) (size : ℕ) → IsReady c → c.counter ≡ 0 → 0 < size → Takes c (readx_direct c size)
direct-Takes c size r k h = elim (pending_cases (pending c)) [
  | inl e ↦
      direct-Takes_of c size r.fd [] [] r.is_open k (omega (arith, r.fits)) r.whole
        (read_events_end c.input size r.flows (sym (empty_window c k) ∙ e)) tt
        (unfold bytes_of in sym e)
  | inr (b, rest, e) ↦
      let d = read_events-Delivers c.input size b rest r.flows (sym (empty_window c k) ∙ e) h in
      direct-Takes_of c size r.fd (b ∷ d.chunk) d.input' r.is_open k (omega (arith, r.fits)) r.whole
        d.reads d.flows (ap (◌∷◌ b) d.same ∙ sym e)
]

-- On a stream without failures, a `readx` of at least as many bytes as the buffer holds returns bytes off the front of
-- the stream and keeps the rest to be delivered.
pub readx-Takes : (c : Client) (size : ℕ) → IsReady c → c.counter ≤ size → Takes c (readx c size)
unfolding readx
readx-Takes c size r h = elim (Bool-cases (ltb 0 c.counter)) [
  | inl some_left ↦ rw some_left (buffered-Takes c size r h)
  | inr none_left ↦ elim (Bool-cases (ltb 0 size)) [
    | inl room ↦ rw (none_left, room) (direct-Takes c size r (ground arith) (ground arith))
    | inr no_room ↦
        rw (none_left, no_room) (record { bytes = []; reads = refl; whole = refl; ready = r })
  ]
]

-- Two calls of `readx` for the same number of bytes, of which the buffer holds at least twice as
-- many, return the same bytes: the second does not go on where the first stopped.
pub readx_repeats :
    (c : Client) (size : ℕ)
    → 0 < size
    → 2 * size ≤ c.counter
    → (readx c size).1 ≡ (readx (readx c size).0 size).1
unfolding readx
readx_repeats c size p h = ground arith
