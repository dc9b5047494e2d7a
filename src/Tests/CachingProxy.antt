-- ===== src/Tests/CachingProxy.antt =====
-- The cache and the client of `Web Proxy_C/Proxy with Cache` at concrete inputs.
use native.Mathlib.Decide.{ℕ_discrete}
use tiny_projects_and_tools.Base.{
  ascii, ℕ, zero, suc, ◌≡◌, ◌≤◌, List, [], ◌∷◌, none, some, refl, arith, take,
}
use tiny_projects_and_tools.Base.CString.{strcasestr}
use tiny_projects_and_tools.CachingProxy.Header.{empty_header, append, append_text}
use tiny_projects_and_tools.CachingProxy.Instance.{Instance, weight, total_size}
use tiny_projects_and_tools.CachingProxy.Cache.{Cache, get, put}
use tiny_projects_and_tools.CachingProxy.Cache.Entries.{find, touch, remove, total, evict}
use tiny_projects_and_tools.CachingProxy.Cache.View.{Represents}
use tiny_projects_and_tools.CachingProxy.Cache.Calls.{get-touch}
use tiny_projects_and_tools.CachingProxy.Cache.Insertion.{put-evict}
use tiny_projects_and_tools.CachingProxy.Comm.{
  arrived, interrupted, Client, of_socket, readlinex, readx, accepted, sent, writex,
}
use tiny_projects_and_tools.CachingProxy.Comm.Stream.{IsReady, pending}
use tiny_projects_and_tools.CachingProxy.Comm.Lines.{split_line, readlinex-splits}
use tiny_projects_and_tools.CachingProxy.Comm.Reads.{Takes, readx-Takes, readx_repeats}
use tiny_projects_and_tools.CachingProxy.Comm.Writes.{writex_prefix, writex_whole, writex_overruns}

-- Two instances, of 3 and of 4 bytes.
abbrev heap : ℕ → Instance
heap zero = record {
  header = record empty_header { text = 65 ∷ []; body_size = 2 };
  body = 1 ∷ 2 ∷ [];
  ite = 0;
}
heap (suc a) = record {
  header = record empty_header { text = 65 ∷ []; body_size = 3 };
  body = 1 ∷ 2 ∷ 3 ∷ [];
  ite = 1;
}

-- A cache of 5 bytes that holds the first under the key 7.
abbrev small_cache : Cache ℕ
small_cache = record {
  max_size = 5;
  size = 3;
  map = λ k. find ℕ_discrete k ((7, 0) ∷ []);
  list = (0, 7) ∷ [];
  next = 1;
  heap = heap;
}

small_cache-Represents : Represents ℕ_discrete small_cache ((7, 0) ∷ [])
unfolding total weight total_size
small_cache-Represents = record {
  keys = λ k. refl;
  nodes = refl;
  distinct = (tt, tt);
  fresh = (omega arith, tt);
  sound = (refl, tt);
  size = refl;
  small = omega arith;
}

-- The second instance does not fit beside the first.
put-evict_example :
    (c' : Cache ℕ) × (put ℕ_discrete small_cache 8 1 ≡ some c')
    × Represents ℕ_discrete c' (evict heap 5 (touch ℕ_discrete 8 1 ((7, 0) ∷ [])))
    × (c'.max_size ≡ 5)
    × (c'.size ≤ 5)
put-evict_example =
    put-evict ℕ_discrete small_cache ((7, 0) ∷ []) 8 1 small_cache-Represents (omega arith, tt)
      (unfold total_size weight in refl) (unfold total weight remove ℕ_discrete in omega arith)

get-touch_example :
    (c' : Cache ℕ) × (get ℕ_discrete small_cache 7 ≡ some (c', find ℕ_discrete 7 ((7, 0) ∷ [])))
    × Represents ℕ_discrete c' (elim (find ℕ_discrete 7 ((7, 0) ∷ [])) [
      | none ↦ (7, 0) ∷ []
      | some a ↦ touch ℕ_discrete 7 a ((7, 0) ∷ [])
    ])
    × (c'.max_size ≡ 5)
get-touch_example = get-touch ℕ_discrete small_cache ((7, 0) ∷ []) 7 small_cache-Represents

-- A new client whose line arrives in two pieces.
abbrev client : Client
client = of_socket 3 (arrived (71 ∷ 69 ∷ []) ∷ interrupted ∷ arrived (84 ∷ 10 ∷ 72 ∷ []) ∷ [])

client-IsReady : IsReady client
unfolding of_socket
client-IsReady = record { fd = 3; is_open = refl; fits = omega arith; whole = refl; flows = tt }

readlinex-splits_example :
    ((readlinex client 100).1 ≡ some (split_line 99 (pending client)).0)
    × (pending (readlinex client 100).0 ≡ (split_line 99 (pending client)).1)
    × IsReady (readlinex client 100).0
readlinex-splits_example = readlinex-splits client 100 client-IsReady

readx-Takes_example : Takes client (readx client 2)
readx-Takes_example = readx-Takes client 2 client-IsReady (unfold of_socket in omega arith)

abbrev buffered : Client
buffered = record (of_socket 3 []) { counter = 4 }

readx_repeats_example : (readx buffered 2).1 ≡ (readx (readx buffered 2).0 2).1
readx_repeats_example = readx_repeats buffered 2 (omega arith) (omega arith)

writex_prefix_example :
    (l : ℕ) × (2 ≤ l) × (◌≡◌ {A = List ℕ} (7 ∷ 8 ∷ 9 ∷ []) (take l (7 ∷ 8 ∷ 9 ∷ [])))
unfolding of_socket
writex_prefix_example =
    writex_prefix client 3 2 (accepted 1 ∷ accepted 2 ∷ []) (7 ∷ 8 ∷ 9 ∷ []) (7 ∷ 8 ∷ 9 ∷ []) refl
      (unfold writex in refl)

writex_whole_example : writex client (accepted 5 ∷ []) (7 ∷ 8 ∷ 9 ∷ []) 2 ≡ sent (7 ∷ 8 ∷ [])
unfolding of_socket
writex_whole_example = writex_whole client 3 5 2 [] (7 ∷ 8 ∷ 9 ∷ []) refl (omega arith)

writex_overruns_example :
    writex client (accepted 1 ∷ accepted 2 ∷ []) (7 ∷ 8 ∷ 9 ∷ []) 2 ≡ sent (7 ∷ 8 ∷ 9 ∷ [])
unfolding of_socket
writex_overruns_example =
    writex_overruns client 3 1 2 2 [] (7 ∷ 8 ∷ 9 ∷ []) refl (omega arith) (omega arith)
      (omega arith)

-- `strcasestr` does not look behind a 0, so the key behind it is not seen and the line is kept.
abbrev zero_line : List ℕ
zero_line = 65 ∷ 0 ∷ ascii "Connection:x\r\n"

append_zero : append empty_header zero_line ≡ append_text empty_header zero_line
unfolding append strcasestr
append_zero = refl
