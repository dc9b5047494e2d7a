-- ===== src/CachingProxy/Instance.antt =====
-- `CacheInstance` of `Web Proxy_C/Proxy with Cache/cacheinstance.cpp`: a header and a body, and where
-- its key stands in the list of the cache. List nodes have numbers, and an iterator is one.
use tiny_projects_and_tools.Base.{
  ℕ, ◌+◌, ◌-◌, ◌%◌, ◌^◌, ◌≡◌, ◌||◌, List, Option, none, some, length, ◌==◌, if◌then◌else◌, arith,
}
use tiny_projects_and_tools.CachingProxy.Header.{Header}

pub record Instance : Type 0 where
  pub header : Header
  pub body : List ℕ
  pub ite : ℕ

-- `size_t` is of 64 bits.
abbrev pub size_mod : ℕ
size_mod = 2 ^ 64

-- `getTotSize`; the assertion allows a header that names the body's size, or -1.
unfoldable pub total_size : Instance → Option ℕ
total_size i =
    if i.header.body_size == length i.body || i.header.body_size == size_mod - 1
    then some ((length i.header.text + i.header.body_size) % size_mod)
    else none

-- The size of an instance whose assertion holds.
unfoldable pub weight : Instance → ℕ
weight i = (length i.header.text + i.header.body_size) % size_mod

-- What the assertion asks for.
pub record IsSound (i : Instance) : Type 0 where
  pub agrees : total_size i ≡ some (weight i)

pub IsSound-of : (i : Instance) → i.header.body_size ≡ length i.body → IsSound i
unfolding total_size weight
IsSound-of i e = record { agrees = ground arith }
