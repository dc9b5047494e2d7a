-- ===== src/CachingProxy/Comm/Bytes.antt =====
-- What a `_read_fb` of one byte returns and leaves
-- (`Web Proxy_C/Proxy with Cache/commclient.cpp`).
use tiny_projects_and_tools.Base.{
  ℕ, suc, ◌-◌, ◌≤◌, ◌<◌, ◌≡◌, ◌⊎◌, inl, inr, refl, ap, ◌∙◌, sym, List, [], ◌∷◌, ◌++◌, some, length,
  length-append, length-drop, length-take, take, drop, arith,
}
use tiny_projects_and_tools.CachingProxy.Comm.{
  max_line, Client, read_events, take_buffered, read_fb,
}
use tiny_projects_and_tools.CachingProxy.Comm.Stream.{
  bytes_of, pending, IsReady, window, take_all, Delivers, read_events-Delivers, read_events_end,
  empty_window,
}

-- What a `_read_fb` of one byte leaves, by what was pending.
pub record Byte (c : Client) (b : ℕ) (rest : List ℕ) : Type 0 where
  pub after : Client
  pub reads : read_fb c 1 ≡ (after, some (b ∷ []))
  pub ready : IsReady after
  pub left : pending after ≡ rest
  pub space : after.counter < max_line

-- One byte off the front of a buffer that is not empty.
taken :
    (c : Client) (n b : ℕ) (rest : List ℕ)
    → IsReady c
    → c.counter ≡ suc n
    → pending c ≡ b ∷ rest
    → let after = record c { counter = n; pos = suc c.pos } in
      (take_buffered c 1 ≡ (after, some (b ∷ []))) × IsReady after × (pending after ≡ rest)
unfolding take_buffered pending
taken c n b rest r k e =
    let (x, all, first) = window c.pos n c.buffer (omega (arith, r.fits)) in
    let front : x ∷ (take n (drop (suc c.pos) c.buffer) ++ bytes_of c.input) ≡ b ∷ rest =
      ap (λ l. l ++ bytes_of c.input) (sym all)
      ∙ ap (λ k'. take k' (drop c.pos c.buffer) ++ bytes_of c.input) (sym k)
      ∙ e in
    (
      ground (arith, first, front, k),
      record {
        fd = r.fd;
        is_open = r.is_open;
        fits = omega (arith, r.fits);
        whole = r.whole;
        flows = r.flows;
      },
      cc front,
    )

buffered-Byte :
    (c : Client) (n b : ℕ) (rest : List ℕ)
    → IsReady c
    → c.counter ≡ suc n
    → pending c ≡ b ∷ rest
    → Byte c b rest
unfolding read_fb
buffered-Byte c n b rest r k e =
    let (t, ready, left) = taken c n b rest r k e in
    record {
      after = record c { counter = n; pos = suc c.pos };
      reads = ground (arith, r.is_open, t);
      ready = ready;
      left = left;
      space = omega (arith, r.fits, r.whole, k);
    }

refilled_length :
    (bs buffer : List ℕ)
    → length bs ≤ length buffer
    → length (bs ++ drop (length bs) buffer) ≡ length buffer
refilled_length bs buffer h =
    omega (arith, length-append bs (drop (length bs) buffer), length-drop (length bs) buffer)

fresh-Byte :
    (c : Client) (b : ℕ) (rest : List ℕ)
    → IsReady c
    → c.counter ≡ 0
    → pending c ≡ b ∷ rest
    → Byte c b rest
unfolding read_fb
fresh-Byte c b rest r k e = record {
  after = record c' { counter = length d.chunk; pos = 1 };
  reads = ground (arith, r.is_open, d.reads, step.0);
  ready = step.1;
  left = step.2;
  space = omega (arith, d.short);
}
  where
    d : Delivers c.input max_line b rest
    d =
        read_events-Delivers c.input max_line b rest r.flows (sym (empty_window c k) ∙ e)
          (omega arith)

    bs : List ℕ
    bs = b ∷ d.chunk

    c' : Client
    c' = record c {
      buffer = bs ++ drop (length bs) c.buffer;
      counter = length bs;
      pos = 0;
      input = d.input';
    }

    size : length c'.buffer ≡ length c.buffer
    size = refilled_length bs c.buffer (omega (arith, d.short, r.whole))

    ready' : IsReady c'
    ready' = record {
      fd = r.fd;
      is_open = r.is_open;
      fits = omega (arith, d.short, r.whole, size);
      whole = size ∙ r.whole;
      flows = d.flows;
    }

    step :
        (take_buffered c' 1 ≡ (record c' { counter = length d.chunk; pos = 1 }, some (b ∷ [])))
        × IsReady (record c' { counter = length d.chunk; pos = 1 })
        × (pending (record c' { counter = length d.chunk; pos = 1 }) ≡ rest)
    step = taken c' (length d.chunk) b rest ready' refl (
        unfold pending in
        ap (λ l. l ++ bytes_of d.input') (take_all bs (drop (length bs) c.buffer))
        ∙ ap (◌∷◌ b) d.same)

-- A client with bytes pending delivers the first one.
pub read_fb-Byte :
    (c : Client) (b : ℕ) (rest : List ℕ) → IsReady c → pending c ≡ b ∷ rest → Byte c b rest
read_fb-Byte c b rest r e = elim (size) [
  | inl k ↦ fresh-Byte c b rest r k e
  | inr k ↦ buffered-Byte c (c.counter - 1) b rest r k e
]
  where
    size : (c.counter ≡ 0) ⊎ (c.counter ≡ suc (c.counter - 1))
    size = omega arith

counter-le-length : (c : Client) → IsReady c → c.counter ≤ length (pending c)
unfolding pending
counter-le-length c r = omega (
  arith,
  r.fits,
  length-append (take c.counter (drop c.pos c.buffer)) (bytes_of c.input),
  length-take c.counter (drop c.pos c.buffer),
  length-drop c.pos c.buffer,
)

-- A client with nothing pending reports the end of the stream, and stays so.
pub record End (c : Client) : Type 0 where
  pub after : Client
  pub reads : read_fb c 1 ≡ (after, some [])
  pub ready : IsReady after
  pub left : pending after ≡ []
  pub space : after.counter < max_line

pub read_fb-End : (c : Client) → IsReady c → pending c ≡ [] → End c
unfolding read_fb
read_fb-End c r e = record {
  after = after;
  reads = ground (arith, r.is_open, k, ends);
  ready = record {
    fd = r.fd;
    is_open = r.is_open;
    fits = omega (arith, r.fits, k);
    whole = r.whole;
    flows = tt;
  };
  left = unfold pending in refl;
  space = omega arith;
}
  where
    after : Client
    after = record c { counter = 0; pos = 0; input = [] }

    k : c.counter ≡ 0
    k = omega (arith, counter-le-length c r, ap length e)

    ends : read_events c.input max_line ≡ (some [], [])
    ends = read_events_end c.input max_line r.flows (sym (empty_window c k) ∙ e)
