-- ===== src/CachingProxy/Comm.antt =====
-- `CommClient` of `Web Proxy_C/Proxy with Cache/commclient.cpp`: a socket with a read buffer. What
-- the system calls `read` and `write` will answer is a list of events. A file descriptor of -1 and
-- a result of -1 are `none`.
pub mod Stream
pub mod Bytes
pub mod Lines
pub mod Reads
pub mod Writes
pub mod Progress
use Prim.Native.Nat.{min}
use tiny_projects_and_tools.Base.{
  ℕ, zero, suc, ◌+◌, ◌-◌, ◌*◌, Bool, true, false, ◌&&◌, List, [], ◌∷◌, ◌++◌, Option, none, some,
  length, take, drop, replicate, ltb, leb, ◌==◌, str_eq, if◌then◌else◌,
}

abbrev pub max_line : ℕ
max_line = 8192

-- A `read` delivers the bytes that have arrived, an empty event is the end of the stream.
pub data Event : Type 0 where
  arrived : List ℕ → Event
  interrupted : Event
  failed : Event

pub record Client : Type 0 where
  pub socket_fd : Option ℕ
  pub port : ℕ
  pub host : List ℕ
  pub buffer : List ℕ
  -- `buf_ptr`, as an offset into `buffer`.
  pub pos : ℕ
  pub counter : ℕ
  pub input : List Event

-- The constructors, and `init`.
unfoldable pub init : List ℕ → ℕ → List Event → Client
init host port input = record {
  socket_fd = none;
  port = port;
  host = host;
  buffer = replicate max_line 0;
  pos = 0;
  counter = 0;
  input = input;
}

unfoldable pub of_socket : ℕ → List Event → Client
unfolding init
of_socket fd input = record (init [] 0 input) { socket_fd = some fd }

-- `_read`: a call of `read` that is made again when a signal interrupts it. The system gives at most
-- `size` bytes, and keeps what is left.
unfoldable pub read_events : List Event → ℕ → Option (List ℕ) × List Event
read_events [] size = (some [], [])
read_events (interrupted ∷ r) size = read_events r size
read_events (failed ∷ r) size = (none, r)
read_events (arrived bs ∷ r) size =
    if leb (length bs) size then (some bs, r) else (some (take size bs), arrived (drop size bs) ∷ r)

-- `_read` into the client's own buffer: the bytes stand in front, the rest of the array stays.
unfoldable pub refill : Client → Client × Option ℕ
refill c = elim c.socket_fd [
  | none ↦ (c, none)
  | some fd ↦
      let (got, input') = read_events c.input max_line in
      elim got [
        | none ↦ (record c { counter = 0; pos = 0; input = input' }, none)
        | some bs ↦ (
          record c {
            buffer = bs ++ drop (length bs) c.buffer;
            counter = length bs;
            pos = 0;
            input = input';
          },
          some (length bs),
        )
      ]
]

-- The end of `_read_fb`: bytes from the buffer.
unfoldable pub take_buffered : Client → ℕ → Client × Option (List ℕ)
take_buffered c size =
    let num_read = min c.counter size in
    (
      record c { counter = c.counter - num_read; pos = c.pos + num_read },
      some (take num_read (drop c.pos c.buffer)),
    )

-- `_read_fb`: bytes from the buffer, which is filled again if it is empty.
unfoldable pub read_fb : Client → ℕ → Client × Option (List ℕ)
unfolding refill take_buffered
read_fb c size = elim c.socket_fd [
  | none ↦ (c, none)
  | some fd ↦
      if ltb 0 c.counter
      then take_buffered c size
      else let (c', got) = refill c in
        elim got [
          | none ↦ (c', none)
          | some zero ↦ (c', some [])
          | some (suc n) ↦ take_buffered c' size
        ]
]

-- The loop of `readlinex`, with `remain` bytes of room before the final 0 and `line` read so far.
unfoldable pub line_loop : ℕ → Client → List ℕ → Client × Option (List ℕ)
line_loop zero c line = (c, some line)
line_loop (suc remain) c line =
    let (c', got) = read_fb c 1 in
    elim got [
      | none ↦ (c', none)
      | some [] ↦ (c', some line)
      | some (b ∷ _) ↦
          let rest = line_loop remain c' (line ++ b ∷ []) in
          if b == 10 then (c', some (line ++ b ∷ [])) else rest
    ]

-- `readlinex`: the bytes of the line, whose number the source returns.
unfoldable pub readlinex : Client → ℕ → Client × Option (List ℕ)
unfolding line_loop read_fb
readlinex c size = line_loop (size - 1) c []

-- `readx` with bytes in the buffer: the pointer into it stays where it is.
unfoldable pub readx_buffered : Client → ℕ → Client × Option (List ℕ)
readx_buffered c size =
    let num_read = min c.counter size in
    (record c { counter = c.counter - num_read }, some (take num_read (drop c.pos c.buffer)))

-- `readx` with an empty buffer: straight from the socket.
unfoldable pub readx_direct : Client → ℕ → Client × Option (List ℕ)
readx_direct c size = elim c.socket_fd [
  | none ↦ (c, none)
  | some fd ↦ let (got, input') = read_events c.input size in (record c { input = input' }, got)
]

unfoldable pub readx : Client → ℕ → Client × Option (List ℕ)
unfolding readx_buffered readx_direct
readx c size =
    if ltb 0 c.counter
    then readx_buffered c size
    else if ltb 0 size
    then readx_direct c size
    else (c, some [])

unfoldable pub closex : Client → Client
closex c = record c { socket_fd = none }

-- What the system answers to `write`: how many bytes it takes, at most those that are offered.
pub data Answer : Type 0 where
  accepted : ℕ → Answer
  again : Answer
  broken : Answer

-- How `writex` ends, with the bytes that went out. `waiting` is a call that the system has not
-- answered.
pub data Outcome : Type 0 where
  sent : List ℕ → Outcome
  error : List ℕ → Outcome
  waiting : List ℕ → Outcome

-- The loop of `writex`: `_write` is offered `size` bytes from `buf` on, however many remain.
unfoldable pub write_loop : List Answer → ℕ → List ℕ → ℕ → List ℕ → Outcome
write_loop answers size buf zero out = sent out
write_loop [] size buf (suc remain) out = waiting out
write_loop (again ∷ r) size buf (suc remain) out = write_loop r size buf (suc remain) out
write_loop (broken ∷ r) size buf (suc remain) out = error out
write_loop (accepted n ∷ r) size buf (suc remain) out =
    let num_write = min n size in
    write_loop r size (drop num_write buf) (suc remain - num_write) (out ++ take num_write buf)

-- `writex` of `size` bytes; `buf` is the memory from the pointer on, to beyond those bytes.
unfoldable pub writex : Client → List Answer → List ℕ → ℕ → Outcome
unfolding write_loop
writex c answers buf size = elim c.socket_fd [
  | none ↦ if ltb 0 size then error [] else sent []
  | some fd ↦ write_loop answers size buf size []
]

-- `openx`: the socket that the system makes, whether the host is known and answers, and what the new
-- connection will deliver.
unfoldable pub openx : Client → Option ℕ → Bool → Bool → List Event → Client × Bool
openx c socket known connects input = elim c.socket_fd [
  | some fd ↦ (c, true)
  | none ↦ elim socket [
    | none ↦ (c, false)
    | some fd ↦
        if known && connects
        then (record c { socket_fd = some fd; input = input }, true)
        else (c, false)
  ]
]

-- `setHostPort`: an open connection to the same host and port is kept, any other is closed.
unfoldable pub set_host_port : Client → List ℕ → ℕ → Client
unfolding init
set_host_port c host port = elim c.socket_fd [
  | none ↦ init host port []
  | some fd ↦ if str_eq c.host host && (c.port == port) then c else init host port []
]
