-- ===== src/Lib.antt =====
-- Verification of the network core of emt, a framework for game servers in Go.
--
-- The program's own logic is the reliable transport of network/kcp: an ARQ protocol over UDP, with
-- forward error correction below it and a scheduler of timers beside it. Sessions of network/session
-- run over it or over the connections of network/tcp, with a codec of network/codec; they hand their
-- messages to a pipeline, behind which a game runs (example/core/game, util/framesync). app.go
-- registers the servers of a program in a registry (registry/redis, registry/zookeeper) and starts
-- its clients. The other directories wire WebSocket, broker and RPC clients into servers.
--
-- Which file models which part:
--   Kcp/State    the types and constants of network/kcp/kcp.go, and NewKCP
--   Kcp/Codec    IkcpEncode* and IkcpDecode*, segment.encode, the header that Input reads
--   Kcp/Window   _imin, _imax, _ibound, _itimediff
--   Kcp/Recv     PeekSize, Recv, parseData
--   Kcp/Send     Send
--   Kcp/Ack      updateAck, shrinkBuf, parseAck, parseFastack, parseUna, ackPush, settings, current,
--                nocwnd, incr
--   Kcp/Writer   makeSpace, flushBuffer, the writes of a segment
--   Kcp/Announce wndUnused, the acknowledgements and window commands of flush
--   Kcp/Transmit rangeRef
--   Kcp/Flush    flush, segs, noc
--   Kcp/Input    Input
--   Kcp/Config   ReserveBytes, SetMtu, NoDelay, WndSize, WaitSnd, ReleaseTX, Update, Check
--   Fec/Packet   the packets and constants of network/kcp/fec.go, and the codec as a parameter
--   Fec/Encoder  newFECEncoder, encode, markData, markParity
--   Fec/Shards   the packets that the decoder keeps, and the searches over them, freeRange
--   Fec/Decoder  newFECDecoder, decode, shoulTune, fecNestif, release
--   Fec/Tune     network/kcp/aototune.go: Sample, FindPeriod
--   Udp/Session  UDPSession of network/kcp/udp.go: output, the protocol's callback, uncork, defaultTx
--   Udp/Input    packetInput, kcpInput, lendata, biggerThan, ranger
--   Udp/Stream   Read, Write, WriteBuffers, WaitSnd
--   Udp/Control  newUDPSession, update, Close, the setters
--   Udp/Listener Listener of network/kcp/ln.go: lsess, packetInput, closeSession, AcceptKCP
--   Tcp/Parser   msgParser of network/tcp/msg.go
--   Session      network/session/session.go: Run, WriteMessage, GetData, SetData
--   Pipeline     util/pipeline/pipeline.go, its steps in Pipeline/Steps
--   Registry     registry/redis/redis.go: keys, Register, ListServices, the watcher's tick
--   Scheduler    network/kcp/timesched.go, its steps in Scheduler/Steps
--   Tcp/Conn     network/tcp/conn.go: newConn, Write, Close
--   Server       network/tcp/server.go and network/kcp/server.go: run and Stop
--   Protobuf     network/codec/protobuf: Registe, Marshal, Unmarshal
--   Zookeeper    registry/zookeeper/utils.go; Zookeeper/Registrations has Register, DeRegister,
--                ListServices and the tick of a watch
--   Addr         util/addr/addr.go: Extract, isPrivateIP
--   App          the tables of app.go; App/Register its registration, App/Run the calls of Run, and
--                App/OnRedis fills the interface of the registry
--   Game         example/core/game: game.go, inout.go, room.go; Game/Control has ctrl.go, and the
--                messages that example/core/srv.go registers
--   FrameSync    util/framesync: NewFrameSync, Start, Stop, update, input, HistoryFrames
-- A file below one of these (Kcp/Recv/Ready, Kcp/Flush/Packets) holds lemmas and theorems about it;
-- Kcp/Invariant and the files below it are about the operations together, and the files named Tests
-- run them on concrete data.
-- Word has the 32-bit arithmetic, Common the lists, options and tests that all files use.
--
-- How the code is read:
--   * A Go function with a receiver *KCP is a function on the record Kcp. Segments and byte slices
--     are lists. Unsigned 32-bit arithmetic is written out with its wrap (add32, sub32, mul32), and
--     int32 is the range from - 2 ^ 31 of the integers (to_i32).
--   * Output is not under this code's control: what it is given is appended to the log `sent`.
--   * Every reading of the clock is numbered: a Clock gives the n-th reading, and `reads` counts them.
--   * An index or a slice out of range, which stops a Go program, sets `panicked`, or is the value
--     none where nothing else can be returned.
--   * Of the packet under construction only the bytes behind the reserved prefix are kept.
--   * The loop of Input runs on fuel: a round takes the 24 bytes of a header at least, so one more
--     than the length of the packet is enough.
--   * The Reed-Solomon codec is another package's: a record of its functions, which the definitions
--     take. newFECDecoder is modelled where the codec can be made; without one Go has a decoder that
--     panics at its first search.
--
--   * A session whose protocol has panicked goes nowhere: the call is the value none.
--   * A session is given a World: the codec, two clocks, and which writes to the socket succeed. What
--     it wrote is the log `wire`. The protocol collects what it sends in `sent`, and the callback runs
--     on it when the call of the protocol has ended; no call reads what the callback changes.
--   * Read and WriteBuffers are loops around a wait. A round of each is a function, whose result says
--     if the code waits. The inner loop of WaitSnd runs on one round more than there are bytes, which
--     is enough if Mss is not 0.
--   * The sessions of a listener stand in a store; the pointers to them are indices. Close of a session
--     is a sequence of steps, with those of other goroutines in between (Udp/Listener/Reach).
--   * The codec and the cipher of a network session are records of functions too.
--   * A redis server is a record of its functions, which the definitions take. SET is given the time to
--     live, but no time passes: a key that was set is there until it is deleted.
--   * The goroutines of a pipeline take turns: each part between two channel operations is a step, and
--     a select takes any case that is ready. A handler's result is sent to a caller that waits for it,
--     or to a nil channel, for ever.
--   * So do those of a connection, of a server and of the scheduler. container/heap is a record of two functions,
--     with its documented laws as hypotheses; the loop over tasks that are due runs on as many rounds
--     as there are tasks, which is enough since each takes one. Timers are those of Go before 1.23.
--   * The users of the game are shared by address. A panic of a handler gives none.
--   * A registry, a zookeeper client, the protobuf library and what the package net gives are records
--     of functions.
--
-- Not modelled: the deadlines of a session, the goroutines that read sockets, the reuse of pooled
-- memory (newSegment, delSegment), the mutex that callers hold, a pipeline of length 0, the options and
-- the connections of the registries, the clients of TCP and KCP, the servers and clients of UDP, WebSocket and RPC, the
-- brokers, the codec for JSON, and everything that is only calls of sockets, goroutines or other
-- packages.
pub mod Common
pub mod Word
pub mod Kcp
pub mod Fec
pub mod FrameSync
pub mod Pipeline
pub mod Registry
pub mod Udp
pub mod Tcp
pub mod Session
pub mod Game
pub mod Scheduler
pub mod Addr
pub mod App
pub mod Zookeeper
pub mod Protobuf
pub mod Server
