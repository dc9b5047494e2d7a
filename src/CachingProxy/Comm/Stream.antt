-- ===== src/CachingProxy/Comm/Stream.antt =====
-- What a client (`Web Proxy_C/Proxy with Cache/commclient.cpp`) has still to deliver: the bytes in
-- its buffer and those that the socket will give.
use mathlib.Core.List.{append_assoc}
use tiny_projects_and_tools.Base.{
  ℕ, zero, suc, ◌+◌, ◌≤◌, ◌<◌, ◌≡◌, inl, inr, refl, ap, ◌∙◌, sym, List, [], ◌∷◌, ◌++◌, some, length,
  length-take, take, drop, take-append-drop, leb, arith, Bool-cases, leb→le,
}
use tiny_projects_and_tools.CachingProxy.Comm.{
  max_line, Event, arrived, interrupted, failed, Client, read_events,
}

-- The bytes of events up to the end of the stream.
unfoldable pub bytes_of : List Event → List ℕ
bytes_of [] = []
bytes_of (arrived bs ∷ r) = bs ++ bytes_of r
bytes_of (interrupted ∷ r) = bytes_of r
bytes_of (failed ∷ r) = []

-- No failure, and no end of the stream before the last event.
abbrev pub Flows : List Event → Type 0
Flows [] = Unit {0}
Flows (arrived [] ∷ r) = ⊥
Flows (arrived (b ∷ bs) ∷ r) = Flows r
Flows (interrupted ∷ r) = Flows r
Flows (failed ∷ r) = ⊥

unfoldable pub pending : Client → List ℕ
unfolding bytes_of
pending c = take c.counter (drop c.pos c.buffer) ++ bytes_of c.input

pub record IsReady (c : Client) : Type 0 where
  pub fd : ℕ
  pub is_open : c.socket_fd ≡ some fd
  pub fits : c.pos + c.counter ≤ length c.buffer
  pub whole : length c.buffer ≡ max_line
  pub flows : Flows c.input

-- A window of a list that is not empty begins with the element at its start.
pub window {ℓ} :
    {A : Type ℓ} (p n : ℕ) (xs : List A)
    → p + suc n ≤ length xs
    → (x : A) × (take (suc n) (drop p xs) ≡ x ∷ take n (drop (suc p) xs))
      × (take 1 (drop p xs) ≡ x ∷ [])
window zero n [] h = absurd (omega arith)
window zero n (x ∷ xs) h = (x, refl, refl)
window (suc p) n [] h = absurd (omega arith)
window (suc p) n (x ∷ xs) h = window p n xs (omega arith)

pub take_all {ℓ} : {A : Type ℓ} (xs ys : List A) → take (length xs) (xs ++ ys) ≡ xs
take_all [] ys = refl
take_all (x ∷ xs) ys = ap (◌∷◌ x) (take_all xs ys)

pub record Delivers (input : List Event) (size : ℕ) (b : ℕ) (rest : List ℕ) : Type 0 where
  pub chunk : List ℕ
  pub input' : List Event
  pub reads : read_events input size ≡ (some (b ∷ chunk), input')
  pub short : length (b ∷ chunk) ≤ size
  pub flows : Flows input'
  pub same : chunk ++ bytes_of input' ≡ rest

Flows-drop :
    (n : ℕ) (xs : List ℕ) (r : List Event)
    → n < length xs
    → Flows r
    → Flows (arrived (drop n xs) ∷ r)
Flows-drop zero [] r h f = absurd (omega arith)
Flows-drop zero (x ∷ xs) r h f = f
Flows-drop (suc n) [] r h f = absurd (omega arith)
Flows-drop (suc n) (x ∷ xs) r h f = Flows-drop n xs r (omega arith) f

chunk-Delivers :
    (x : ℕ) (xs : List ℕ) (r : List Event) (n : ℕ)
    → Flows r
    → Delivers (arrived (x ∷ xs) ∷ r) (suc n) x (xs ++ bytes_of r)
unfolding read_events bytes_of
chunk-Delivers x xs r n f = elim (Bool-cases (leb (suc (length xs)) (suc n))) [
  | inl all ↦ record {
    chunk = xs;
    input' = r;
    reads = rw all;
    short = leb→le _ _ all;
    flows = f;
    same = refl;
  }
  | inr part ↦ record {
    chunk = take n xs;
    input' = arrived (drop n xs) ∷ r;
    reads = rw part;
    short = omega (arith, length-take n xs);
    flows = Flows-drop n xs r (ground arith) f;
    same =
        sym (append_assoc (take n xs) (drop n xs) (bytes_of r))
        ∙ ap (λ l. l ++ bytes_of r) (take-append-drop n xs);
  }
]

-- A read of a flowing stream takes bytes off its front, and some if there are any.
pub read_events-Delivers :
    (input : List Event) (size b : ℕ) (rest : List ℕ)
    → Flows input
    → bytes_of input ≡ b ∷ rest
    → 0 < size
    → Delivers input size b rest
unfolding read_events bytes_of
read_events-Delivers [] size b rest f e h = cc
read_events-Delivers (interrupted ∷ r) size b rest f e h =
    let d = read_events-Delivers r size b rest f e h in
    record {
      chunk = d.chunk;
      input' = d.input';
      reads = d.reads;
      short = d.short;
      flows = d.flows;
      same = d.same;
    }
read_events-Delivers (failed ∷ r) size b rest f e h = cc
read_events-Delivers (arrived [] ∷ r) size b rest f e h = absurd f
read_events-Delivers (arrived (x ∷ xs) ∷ r) zero b rest f e h = absurd (omega arith)
read_events-Delivers (arrived (x ∷ xs) ∷ r) (suc n) b rest f e h =
    let p : x ≡ b = cc in
    let q : xs ++ bytes_of r ≡ rest = cc in rw (← p, ← q) (chunk-Delivers x xs r n f)

pub read_events_end :
    (input : List Event) (size : ℕ)
    → Flows input
    → bytes_of input ≡ []
    → read_events input size ≡ (some [], [])
unfolding read_events bytes_of
read_events_end [] size f e = refl
read_events_end (interrupted ∷ r) size f e = read_events_end r size f e
read_events_end (failed ∷ r) size f e = absurd f
read_events_end (arrived [] ∷ r) size f e = absurd f
read_events_end (arrived (x ∷ xs) ∷ r) size f e = cc

pub empty_window : (c : Client) → c.counter ≡ 0 → pending c ≡ bytes_of c.input
unfolding pending
empty_window c k = rw k
