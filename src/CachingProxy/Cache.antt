-- ===== src/CachingProxy/Cache.antt =====
-- `Cache` of `Web Proxy_C/Proxy with Cache/cache.cpp`: a hash map from keys to instances, and a list
-- of the keys from the one used longest ago on. Instances stand in a heap, since the cache writes
-- their iterators through pointers; list nodes are numbered. `none` is an assertion that fails, or
-- an iterator that is not valid. The mutex makes each call one step.
pub mod Entries
pub mod View
pub mod Calls
pub mod Eviction
pub mod Insertion
pub mod Contents
pub mod Heaps
use tiny_projects_and_tools.Base.{
  ℕ, zero, suc, ◌+◌, ◌-◌, ◌%◌, Bool, true, false, List, [], ◌∷◌, ◌++◌, Option, none, some, length,
  leb, ◌==◌, if◌then◌else◌, ◌>>=◌,
}
use mathlib.Core.Logic.{ite}
use mathlib.Core.List.{head?}
use tiny_projects_and_tools.CachingProxy.Instance.{Instance, size_mod, total_size}

pub record Cache (K : Type 0) : Type 0 where
  pub max_size : ℕ
  pub size : ℕ
  pub map : K → Option ℕ
  pub list : List (ℕ × K)
  -- The number of the next list node.
  pub next : ℕ
  pub heap : ℕ → Instance

-- The constructor, and `setCacheSize`.
unfoldable pub new_cache : (K : Type 0) → (ℕ → Instance) → Cache K
new_cache K heap = record {
  max_size = 0;
  size = 0;
  map = λ k. none;
  list = [];
  next = 0;
  heap = heap;
}

unfoldable pub set_cache_size : {K : Type 0} → Cache K → ℕ → Cache K
set_cache_size c size = record c { max_size = size }

-- `memoryList.erase(ite)`.
unfoldable pub erase_node : {K : Type 0} → ℕ → List (ℕ × K) → Option (List (ℕ × K))
erase_node ite [] = none
erase_node ite ((id, k) ∷ l) =
    let rest = erase_node ite l >>= λ l'. some ((id, k) ∷ l') in if id == ite then some l else rest

-- `setIterator`, through the pointer.
unfoldable pub set_iterator : (ℕ → Instance) → ℕ → ℕ → ℕ → Instance
set_iterator heap address id a = if a == address then record (heap a) { ite = id } else heap a

module _ {K : Type 0} (dec : Discrete K) where
  unfoldable pub update : (K → Option ℕ) → K → Option ℕ → K → Option ℕ
  update map k v j = ite (dec j k) v (map j)

  -- Both functions `erase`, at the entry of `key` with the instance at `address`, whose list node
  -- is `node`.
  unfoldable pub erase_entry : Cache K → K → ℕ → ℕ → Option (Cache K)
  unfolding update erase_node
  erase_entry c key address node = do
    tot ← total_size (c.heap address)
    list' ← erase_node node c.list
    some (record c {
      size = (c.size + size_mod - tot) % size_mod;
      list = list';
      map = update c.map key none;
    })

  -- `erase` at an iterator of the map.
  unfoldable pub erase_map : Cache K → K → ℕ → Option (Cache K)
  unfolding erase_entry
  erase_map c key address = erase_entry c key address (c.heap address).ite

  -- `erase` at an iterator of the list; the key has to be in the map.
  unfoldable pub erase_list : Cache K → ℕ × K → Option (Cache K)
  unfolding erase_entry
  erase_list c (node, key) = do address ← c.map key; erase_entry c key address node

  -- Put a key at the end of the list, and tell its instance.
  unfoldable pub push_back : Cache K → K → ℕ → Cache K
  unfolding set_iterator
  push_back c key address = record c {
    list = c.list ++ (c.next, key) ∷ [];
    next = c.next + 1;
    heap = set_iterator c.heap address c.next;
  }

  unfoldable pub get_hit : Cache K → K → ℕ → Option (Cache K × Option ℕ)
  unfolding erase_node push_back
  get_hit c key address = do
    list' ← erase_node (c.heap address).ite c.list
    some (push_back (record c { list = list' }) key address, some address)

  -- `get`: the address of the instance, or `none` for the null pointer.
  unfoldable pub get : Cache K → K → Option (Cache K × Option ℕ)
  unfolding get_hit
  get c key = elim (c.map key) [ none ↦ some (c, none) | some address ↦ get_hit c key address ]

  -- `ite_list = memoryList.begin(); erase(ite_list)`.
  unfoldable pub erase_begin : Cache K → Option (Cache K)
  unfolding erase_list
  erase_begin c = head? c.list >>= λ front. erase_list c front

  -- The loop of `put`: erase at the front of the list while the cache is too large. Each round takes
  -- a node off the list, and `begin()` of an empty list is not valid.
  unfoldable pub shrink : ℕ → Cache K → Option (Cache K)
  unfolding erase_begin
  shrink zero c = if leb c.size c.max_size then some c else none
  shrink (suc rounds) c = elim (leb c.size c.max_size) [
    | true ↦ some c
    | false ↦ erase_begin c >>= λ c'. shrink rounds c'
  ]

  -- `memoryMap.insert`, which keeps an entry that is there.
  unfoldable pub insert : (K → Option ℕ) → K → ℕ → K → Option ℕ
  unfolding update
  insert map k address = elim (map k) [ none ↦ update map k (some address) | some _ ↦ map ]

  -- `put` from the insertion on.
  unfoldable pub put_new : Cache K → K → ℕ → Option (Cache K)
  put_new c key address = do
    let map' = insert c.map key address
    found ← map' key
    let c' = push_back (record c { map = map' }) key found
    tot ← total_size (c'.heap found)
    shrink (length c'.list) (record c' { size = (c'.size + tot) % size_mod })

  -- `put`.
  unfoldable pub put : Cache K → K → ℕ → Option (Cache K)
  put c key address = elim (c.map key) [
    | none ↦ put_new c key address
    | some old ↦ do c' ← erase_map c key old; put_new c' key address
  ]
