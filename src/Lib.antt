-- ===== src/Lib.antt =====
-- Verification of redisproxy, a proxy between clients and redis servers.
--
-- The program reads requests of clients from sockets into reference-counted buffers, parses them in
-- one of two formats, prints them for an upstream server, queues who waits for a reply in a ring, and
-- passes each reply of the server on as it stands. Modelled are these parts, each over those above it:
--
--   Error    src/error.h, src/error.cpp: `class Error`, by its code.
--   Recycle  src/recycle.h: `Recycle<T>` (`push` is `Push`, `pop` is `Pop`, and so on) and
--            `Iterator<T>`. `Recycle.Valid` has the invariant, `Recycle.Fifo` the queue that the ring
--            stands for, `Recycle.Walk` the loop over it.
--   Mem      src/mem_alloc.cpp: blocks with a size and a count of references on an explicit heap.
--            What `malloc` answers is an argument; an access through a pointer to no block, or past
--            the end of a block, is a fault. `Mem.Counting` is about the count of references.
--   Buffer   src/buffer.h, src/buffer.cpp: `class Buffer`, a window into such a block. `append_bytes`
--            is `Append( const char*, std::size_t )`, `append` is `Append( const Buffer&, … )`, and
--            `compact`, `relocate` and `allocate` are the branches of `AppendCapacity`. A buffer is
--            live in the sense of `Buffer.Window` when its block is in use and its window lies in it.
--            `Buffer.View` states what the operations do to the bytes that a buffer shows.
--   Reader   src/buffer_reader.cpp and `ParseInt32` of src/utils.cpp, over the bytes that buffers show.
--   Cmd      src/cmd.h, src/cmd.cpp: `Cmd` with `FormatRESP2`; `Cmd.Inline` is `InlineParser`,
--            `Cmd.Multibulk` is `MultibulkParser`, `Cmd.Parser` is `CmdParser`.
--   Event    src/io.h, src/epoll.cpp: `struct Event`, with `epoll_ctl` as a parameter (`Epoll`, whose laws
--            are its documented behaviour) and `Event::writeEvents` as an explicit list. `Event.Interest`
--            is about what the system watches, `Event.Listed` about the list of events to write.
--   Socket   src/netio.cpp: `Listen`, `Connect` and the options of a socket. `Sockets` is what the system's
--            calls do to the descriptors that are open. `Event` of io.h takes part by `attach`.
--   Conn     src/connections.h, src/connections.cpp, and `Write` and `Close` of src/netio.cpp: `class
--            Connection` on a heap of connections (`Net`). What `write` answers is an argument; the
--            handler of closed connections is a parameter. A deleted connection is a fault.
--            `Conn.Link` is `Connect` and `Reconnect`, and `Conn.Polling` is `HandleWriteEvents` of
--            src/netio.cpp, with `Conn.Round`, `Conn.Drain` and `Conn.Stale` about what a round does.
--            A send buffer is the bytes that it shows and its `Place` in the block (`Conn.Window`):
--            `append_place` is `AppendCapacity`, and `overlapped` says that it has called `memcpy` on two
--            ranges that overlap. `Conn.Trace` and `Conn.Overlap` are about this.
--   Upstream src/upstream.h, src/upstream.cpp: `class Upstream`, `cmd::Auth`, and `PushRequest` of
--            `UpstreamPool`. `Upstream.Env` is what it calls: the readers of replies
--            (`UpstreamReader`) and methods of `Connection`.
--   Session  src/session.h, src/session.cpp: `class Session`. `Session.Env` is what it calls:
--            `PushRequest` of the pool and methods of `Connection`.
--   Proxy    the parts together: `server_env` and `session_env` are what upstreams and sessions call, done
--            by `Conn`, `Upstream` and `Session`, with one upstream and without the cluster mode;
--            `OnReadEvent` and `OnClosedEvent` of src/connections.cpp. `Proxy.Forward` follows the requests
--            of a client to the connection to the server, `Proxy.Deliver` the replies back, and
--            `Proxy.Answer` both. `Proxy.Accepting` is `Accept` of src/netio.cpp with
--            `newClientConnection` of src/server.cpp, and `Proxy.Welcome` is about what a client finds.
--            `Proxy.Reading` is `Read` of src/netio.cpp and `OnReadable` of src/connections.cpp with the
--            handlers behind it, `Proxy.Looping` is `PollOnce` of src/epoll.cpp and `RunOnce` of
--            src/server.cpp, and `Proxy.Starting` is `Init` of src/server.cpp and of `UpstreamPool`.
--            `Proxy.Sound` is the invariant of the program between two events; `Proxy.Pushing` and
--            `Proxy.Popping` are about requests and replies, `Proxy.Handled` about
--            the handlers, `Proxy.Serving` about an event, `Proxy.Turn` about a turn of the loop,
--            `Proxy.Joining` and `Proxy.History` about histories of clients, data and writing,
--            and `Proxy.Alone`, `Proxy.Handlers` and `Proxy.Started` about the start.
--   Settings src/options.h, src/options.cpp, and the options in src/connections.h, src/io.h and src/logger.h:
--            the defaults, and `Load`, with `std::stoi` as a parameter. `Settings.Table` has the options of
--            connections as a table.
--   Metric   src/metric.h: `TimeSumMetric`, and `MetricFactory` without what `PrintInfo` prints.
--   Base     shared names, lists over native numbers, 32-bit integers, and what the program uses of
--            the C library: `memchr`, `atoi` and the printing of numbers.
--
-- Bounds. `std::size_t` is 64 bits and wraps; `int32_t` and `uint32_t` are 32 bits. The loops over
-- bulks run for as many rounds as `multibulkLen_ - multibulkIndex_` says. The loop of
-- `InlineParser::HandleRequest` has as many rounds of fuel as the buffer has bytes, and one. The loops
-- of `OnServerRead` and `OnClientRead` have as many rounds as the input has bytes, and two: a round
-- behind a reset of the parser takes at least a byte. A round of `HandleWriteEvents` has as many steps
-- as the list has nodes, and one.
-- `int64_t` is an integer without a bound: it only counts microseconds.
--
-- Not modelled. `assert`, which the build turns off; the messages of errors, the log, and what is printed;
-- address resolution; `Run` and `main`, which only repeat and call the modelled functions, and what no
-- code calls. What `read`, `write`, `accept` and `epoll_wait` report are arguments. The invariant of the program
-- is about connections that stay open and are not to be closed: a session outlives its connection, and the
-- code then uses what it has deleted, and so does a round of writing behind one that has closed a
-- connection, which it does after a wrong request. What `memcpy` does to two ranges that overlap is not
-- defined in C. In `Buffer` it is a fault; `Conn` notes it of send buffers and goes on as if the bytes had
-- been moved, and so do the layers above it; of receive buffers they do not note it. The layers from the
-- reader on take memory as sufficient and an input as shorter than
-- 2 ^ 31 bytes; `Event` and the layers above it keep of a buffer the bytes that it shows and its free room.
pub mod Base
pub mod Error
pub mod Recycle
pub mod Mem
pub mod Buffer
pub mod Reader
pub mod Event
pub mod Socket
pub mod Conn
pub mod Upstream
pub mod Settings
pub mod Metric
pub mod Session
pub mod Cmd
pub mod Proxy
