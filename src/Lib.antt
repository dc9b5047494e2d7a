-- ===== src/Lib.antt =====
-- Verification library for Tiny-Projects-And-Tools-In-Cpp, a repository of independent programs.
--
-- The program's parts and the files that model them:
--
-- * `DHT_Chord`, a peer-to-peer lookup service: nodes on a ring of 2^32 positions. A node
--   (`DHT_Chord/chord/chord.c`) keeps its neighbours and a table of 32 fingers, answers lookups
--   (`findClosestPort`), serves the messages of other nodes (`chordNode`) and repairs the ring on
--   its own (`notify`, `stabilize`, `heartBeat`, `fix_fingers`). Chord/Hash and Chord/State hold
--   the positions and the state, Chord/Lookup the lookup, Chord/Stabilize what a node does on its
--   own, Chord/Handler the served messages, Chord/Query the client `DHT_Chord/query/query.c`.
--   Chord/Ring reads the tests of positions as intervals, Chord/Network composes the lookups of
--   the nodes of a network, Chord/Closer and Chord/Keys hold what the operations do to the
--   neighbours, Chord/Keys/Messages what the served messages do to them, Chord/Protocol reads the
--   printed messages back, and Chord/Links follows the messages by which a node is linked into a
--   ring. The SHA-1 library is a parameter; what the network does, connections that fail
--   included, is an argument of each operation.
-- * `ECC Code`, an erasure code over the field of 256 elements. Ecc/Field holds the tables and
--   the operations of `ECC Code/galoisField.cpp`, Ecc/Field/Product the product of polynomials
--   that they are compared with, Ecc/Encoder the loops of `dfs_encoder` of `ECC
--   Code/encoder.cpp`, and Ecc/Polynomial what a code word is. Ecc/Decoder models `ECC
--   Code/decoder.cpp`, Ecc/Decoder/Loops the inner loops of its elimination; Ecc/Decoder/System
--   follows the system of equations that it builds, Ecc/Decoder/Totality and Ecc/Decoder/Decoding
--   its reads and writes. A read outside of a vector or of a table is `none`. Ecc/Field257 models
--   the arithmetic of `ECC Code/fft_encoder.cpp`.
-- * `Web Proxy_C/Proxy with Cache`, a caching proxy. CachingProxy/Cache models `cache.cpp`: a
--   map, a list of keys in the order of their use, and a heap of instances, whose iterators the
--   cache writes through pointers; CachingProxy/Cache/Entries is the abstract cache.
--   CachingProxy/Instance and CachingProxy/Header model `cacheinstance.cpp` and `httpheader.cpp`,
--   CachingProxy/Comm the buffered sockets of `commclient.cpp` over lists of what the system
--   answers. CachingProxy/Request models `parseAddress` of `main.cpp`, and CachingProxy/Session
--   its `minion`: World is the state of a session with its calls of the sockets, Requests reads a
--   request and answers it from the cache, Fetch gets a response from the server and stores it,
--   and Turn puts them together. The other modules of CachingProxy/Session follow a turn through:
--   Sending, Headers, Bodies, Messages and Responses its steps, Caching the cache, Serving,
--   Misses, Hits, Ends and Relaying the turn, and Supply, Fuel, Rounds and Termination its loops.
-- * `Web Proxy_C/simplified version/proxy.c`, a proxy without a cache. SimpleProxy/Address models
--   `parseAddress` and `find_target_address`, SimpleProxy/Session `webTalk` with `secureTalk` and
--   `forwarder`, SimpleProxy/Log `format_log_entry`; SimpleProxy/RoundTrip takes printed URLs
--   apart, SimpleProxy/Headers describes the header lines that are passed on, and
--   SimpleProxy/Relay follows a session. The source prints the first line for the server into the
--   buffer that it reads, which C leaves undefined: what that call leaves is an argument too,
--   `overlapped`. What the client and the server send, and which attempts to connect succeed, are
--   arguments.
-- * `MiniShell/myShell.cpp`, a shell. MiniShell/Words models `parseLine` and the loops of `main`
--   that split a line and leave out its redirections, MiniShell/Dirs the directory stack, which
--   is a queue that is rotated, MiniShell/Builtins the commands that the shell carries out by
--   itself, and MiniShell/Child the scan of a line's words in the process that is forked for any
--   other command; MiniShell/Parsing, MiniShell/Ends, MiniShell/Stack, MiniShell/Rounds and
--   MiniShell/Pipelines hold what these do. `chdir` is a parameter, and the ends of a pipe's fork
--   and wait are an argument.
-- * Base holds what the parts share: tests on numbers, lists, the exclusive or, and the functions
--   of the C library that the sources call, on texts as lists of bytes.
--
-- Bounds and fuel: an `int` and an `unsigned int` are numbers below 2^32, an `int` as its bit
-- pattern. `find_in` takes the number of hops, which the distance to the key bounds, and lets
-- each node try as often. `shrink` of the cache runs at most as often as the list has nodes,
-- since each round takes one off. The printed decimal of a number below 2^32 has at most ten
-- digits. `take_words` and `split_line` of the shell take the length of the text, since each
-- round takes a byte off it. The loops of `minion` take what the client or the server can still
-- send, `supply`, since each round reads a byte at least. `child` of the shell takes `rescans` of
-- the number of words, since words are gone through once more only after some were taken out.
--
-- Not modelled: the transform of the FFT encoder of `ECC Code`, the system calls of the shell,
-- the loops in which the programs accept connections and commands, and the copies of other
-- projects' libraries (`sha1.c`, `csapp.c`), which are parameters where they are called.
pub mod Base
pub mod Ecc
pub mod CachingProxy
pub mod Chord
pub mod SimpleProxy
pub mod MiniShell
pub mod Tests
