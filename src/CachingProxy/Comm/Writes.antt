-- ===== src/CachingProxy/Comm/Writes.antt =====
-- What `writex` (`Web Proxy_C/Proxy with Cache/commclient.cpp`) sends.
use Prim.Native.Nat.{min}
use tiny_projects_and_tools.Base.{
  ℕ, zero, suc, ◌+◌, ◌-◌, ◌≤◌, ◌<◌, ◌≡◌, sym, ◌∙◌, List, [], ◌∷◌, some, take, drop, take-add,
  drop-drop, arith,
}
use tiny_projects_and_tools.CachingProxy.Comm.{
  Client, Answer, accepted, again, broken, sent, write_loop, writex,
}

-- With `k` bytes sent, an answer of `n` bytes goes on from there.
write_loop-accepted :
    (n size k remain : ℕ) (r : List Answer) (buf : List ℕ)
    → write_loop (accepted n ∷ r) size (drop k buf) (suc remain) (take k buf)
      ≡ write_loop r size
          (drop (k + min n size) buf)
          (suc remain - min n size)
          (take (k + min n size) buf)
unfolding write_loop
write_loop-accepted n size k remain r buf =
    rw (← take-add k (min n size) buf, ← drop-drop k (min n size) buf)

write_loop_prefix :
    (answers : List Answer) (size k remain : ℕ) (buf out : List ℕ)
    → write_loop answers size (drop k buf) remain (take k buf) ≡ sent out
    → (l : ℕ) × (k + remain ≤ l) × (out ≡ take l buf)
unfolding write_loop
write_loop_prefix [] size k zero buf out e = (k, omega arith, cc)
write_loop_prefix (a ∷ r) size k zero buf out e = (k, omega arith, cc)
write_loop_prefix [] size k (suc remain) buf out e = cc
write_loop_prefix (again ∷ r) size k (suc remain) buf out e =
    write_loop_prefix r size k (suc remain) buf out e
write_loop_prefix (broken ∷ r) size k (suc remain) buf out e = cc
write_loop_prefix (accepted n ∷ r) size k (suc remain) buf out e =
    let (l, enough, same) =
      write_loop_prefix r size (k + min n size) (suc remain - min n size) buf out
        (sym (write_loop-accepted n size k remain r buf) ∙ e) in
    (l, omega arith, same)

-- Whatever the system answers on an open connection, a `writex` that succeeds has sent the memory at its pointer in
-- order and without a gap, and at least the bytes that it was given.
pub writex_prefix :
    (c : Client) (fd size : ℕ) (answers : List Answer) (buf out : List ℕ)
    → c.socket_fd ≡ some fd
    → writex c answers buf size ≡ sent out
    → (l : ℕ) × (size ≤ l) × (out ≡ take l buf)
unfolding writex
writex_prefix c fd size answers buf out o e =
    let (l, enough, same) = write_loop_prefix answers size 0 size buf out started in
    (l, omega arith, same)
  where
    started : write_loop answers size (drop 0 buf) size (take 0 buf) ≡ sent out
    started = ground (arith, o, e)

-- On an open connection, a write that the system takes whole at the first call sends exactly the bytes that it was given.
pub writex_whole :
    (c : Client) (fd n size : ℕ) (r : List Answer) (buf : List ℕ)
    → c.socket_fd ≡ some fd
    → size ≤ n
    → writex c (accepted n ∷ r) buf size ≡ sent (take size buf)
unfolding writex write_loop
writex_whole c fd n zero r buf o h = ground (arith, o)
writex_whole c fd n (suc size) r buf o h =
    ground (arith, o, write_loop-accepted n (suc size) 0 size r buf)

module _ (p n size : ℕ) (r : List Answer) (buf : List ℕ) where
  first_part :
      p < suc size
      → write_loop (accepted p ∷ accepted n ∷ r) (suc size) buf (suc size) []
        ≡ write_loop (accepted n ∷ r) (suc size) (drop p buf) (suc (size - p)) (take p buf)
  first_part h =
      let offered : 0 + min p (suc size) ≡ p = omega arith in
      let remain : suc size - min p (suc size) ≡ suc (size - p) = omega arith in
      write_loop-accepted p (suc size) 0 size (accepted n ∷ r) buf ∙ rw (offered, remain)

  second_part :
      0 < p
      → suc size ≤ n
      → write_loop (accepted n ∷ r) (suc size) (drop p buf) (suc (size - p)) (take p buf)
        ≡ sent (take (suc size + p) buf)
  unfolding write_loop
  second_part pos h =
      let offered : min n (suc size) ≡ suc size = omega arith in
      let remain : suc (size - p) - suc size ≡ 0 = omega arith in
      let total : p + suc size ≡ suc size + p = omega arith in
      write_loop-accepted n (suc size) p (size - p) r buf ∙ rw (offered, remain, total)

-- On an open connection, a write that the system takes in two parts, `p` bytes at first and then all that is offered, sends
-- `p` bytes too many: those behind the bytes that it was given.
pub writex_overruns :
    (c : Client) (fd p n size : ℕ) (r : List Answer) (buf : List ℕ)
    → c.socket_fd ≡ some fd
    → 0 < p
    → p < size
    → size ≤ n
    → writex c (accepted p ∷ accepted n ∷ r) buf size ≡ sent (take (size + p) buf)
unfolding writex
writex_overruns c fd p n zero r buf o pos part h = absurd (omega arith)
writex_overruns c fd p n (suc size) r buf o pos part h =
    ground (arith, o, first_part p n size r buf part, second_part p n size r buf pos h)
