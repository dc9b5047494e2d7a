-- ===== src/CachingProxy/Comm/Progress.antt =====
-- That a `readx` (`Web Proxy_C/Proxy with Cache/commclient.cpp`) of a client with bytes to deliver
-- goes forward, and empties its buffer.
use Prim.Native.Nat.{min}
use tiny_projects_and_tools.Base.{
  true, ltb, ℕ, suc, ◌-◌, ◌≤◌, ◌<◌, ◌≡◌, ◌⊎◌, inl, inr, refl, sym, ap, ◌∙◌, List, ◌∷◌, ◌++◌, some,
  length, length-take, take, drop, arith,
}
use tiny_projects_and_tools.CachingProxy.Comm.{Client, readx_buffered, readx_direct, readx}
use tiny_projects_and_tools.CachingProxy.Comm.Stream.{
  pending, bytes_of, IsReady, window, empty_window, read_events-Delivers,
}

pub record Gives (c : Client) (size b : ℕ) (rest : List ℕ) : Type 0 where
  pub after : Client
  pub chunk : List ℕ
  pub reads : readx c size ≡ (after, some (b ∷ chunk))
  pub short : length (b ∷ chunk) ≤ size
  pub left : chunk ++ pending after ≡ rest
  pub drained : after.counter ≡ 0
  pub ready : IsReady after

buffered-Gives :
    (c : Client) (n size b : ℕ) (rest : List ℕ)
    → IsReady c
    → c.counter ≡ suc n
    → suc n ≤ size
    → pending c ≡ b ∷ rest
    → Gives c size b rest
unfolding readx readx_buffered pending
buffered-Gives c n size b rest r k h e =
    let (x, all, _) = window c.pos n c.buffer (omega (arith, r.fits)) in
    let front : x ∷ (take n (drop (suc c.pos) c.buffer) ++ bytes_of c.input) ≡ b ∷ rest =
      ap (λ l. l ++ bytes_of c.input) (sym all)
      ∙ ap (λ k'. take k' (drop c.pos c.buffer) ++ bytes_of c.input) (sym k)
      ∙ e in
    let same : x ≡ b = cc front in
    let head : take (suc n) (drop c.pos c.buffer) ≡ b ∷ take n (drop (suc c.pos) c.buffer) =
      all ∙ ap (λ y. y ∷ take n (drop (suc c.pos) c.buffer)) same in
    record {
      after = record c { counter = 0 };
      chunk = take n (drop (suc c.pos) c.buffer);
      reads = rw (positive, amount, none_left, head);
      short = omega (arith, length-take n (drop (suc c.pos) c.buffer));
      left = cc front;
      drained = refl;
      ready = record {
        fd = r.fd;
        is_open = r.is_open;
        fits = omega (arith, r.fits);
        whole = r.whole;
        flows = r.flows;
      };
    }
  where
    positive : ltb 0 c.counter ≡ true
    positive = ground (arith, k)

    amount : min c.counter size ≡ suc n
    amount = omega arith

    none_left : c.counter - suc n ≡ 0
    none_left = omega arith

direct-Gives :
    (c : Client) (size b : ℕ) (rest : List ℕ)
    → IsReady c
    → c.counter ≡ 0
    → 0 < size
    → pending c ≡ b ∷ rest
    → Gives c size b rest
unfolding readx readx_direct
direct-Gives c size b rest r k h e =
    let d = read_events-Delivers c.input size b rest r.flows (sym (empty_window c k) ∙ e) h in
    record {
      after = record c { input = d.input' };
      chunk = d.chunk;
      reads = ground (arith, k, r.is_open, d.reads);
      short = d.short;
      left = ap (λ l. d.chunk ++ l) (empty_window (record c { input = d.input' }) k) ∙ d.same;
      drained = k;
      ready = record {
        fd = r.fd;
        is_open = r.is_open;
        fits = r.fits;
        whole = r.whole;
        flows = d.flows;
      };
    }

pub readx-Gives :
    (c : Client) (size b : ℕ) (rest : List ℕ)
    → IsReady c
    → 0 < size
    → c.counter ≤ size
    → pending c ≡ b ∷ rest
    → Gives c size b rest
readx-Gives c size b rest r p h e = elim (counter_cases) [
  | inl k ↦ direct-Gives c size b rest r k p e
  | inr k ↦ buffered-Gives c (c.counter - 1) size b rest r k (omega arith) e
]
  where
    counter_cases : (c.counter ≡ 0) ⊎ (c.counter ≡ suc (c.counter - 1))
    counter_cases = omega arith
