-- ===== src/Lib.antt =====
-- sfo-reuseport: servers that share a port between worker threads. A worker runtime starts the
-- threads. A TCP, UDP or QUIC server either gives each worker a socket of its own on the same port,
-- and lets the kernel choose, or receives on one socket and dispatches to the workers itself. QUIC
-- packets go by the worker's index in their connection id, which the generator of connection ids puts
-- there and which a BPF program in the kernel reads; all else goes by a hash of the addresses. A limit
-- on concurrent handlers guards each worker.
--
-- Which file models which part:
--   Error, Config, Config.Socket, Net: src/core/error.rs, src/core/config.rs, and the addresses of the
--     standard library. A message is the list of the pieces that its `format!` joins.
--   System: what the code that sets servers up asks of the operating system, the kernel and the
--     workers. A call is a value and is logged; what it answers is a parameter of every definition, an
--     arbitrary function of the calls made before. `Action` is the monad of such code, with the state
--     of the server and Rust's `?`. System.Script says that an action makes the calls of a list up to
--     the first that fails, System.Registered that every task spawned has been registered.
--   Platform.Options, Platform.Binding: src/platform/mod.rs, unix.rs, linux.rs, bsd.rs and windows.rs,
--     the options of a socket and the opening of a listener and a UDP socket on each platform.
--   Platform.Bpf, Platform.Linux: the two kernel programs of src/platform/linux.rs, instruction by
--     instruction, the probe that tests them, and the order in which the workers' sockets are bound for
--     them. The kernel's machine is a parameter that implements the documented effect of each
--     instruction. The packet of the classic BPF program is the payload and its result a socket; the
--     packet of the eBPF program begins at the UDP header and its result is a verdict. The programs have 7 and 34 instructions and only jump forwards, so as many steps are
--     enough to end.
--   Platform.Linux.Attach: the loading and attaching of these programs in src/platform/linux.rs, as
--     system calls that are logged; their answers are a parameter.
--   Platform.Linux.OriginalDst: the receive of src/platform/linux.rs that tells a datagram's original
--     destination, from the control messages of `recvmsg` to the addresses, byte by byte. What
--     `recvmsg` brings is a parameter; a control message is a value, as libc's macros walk over them.
--   Cid: src/core/cid.rs. `getrandom::fill` is a parameter, which may fail.
--   Quic.Route: `quic_worker_index` and its helpers in src/core/quic.rs; Quic.Route.Laws states the
--     wire formats, Quic.Route.RoundTrip relates it to the generator.
--   Schedule: src/core/schedule.rs, the FNV-1a hash of the addresses; `usize` has 64 bits.
--   Concurrency: src/core/concurrency.rs. The module itself has the operations run without
--     interference, which the loops use. Concurrency.Steps has each atomic access as a step of an
--     interleaving of any number of tasks with one task that waits; the waker's slot is a parameter.
--   Dispatch: what the loops that dispatch between workers share: flags, limits, the offer of an item
--     to a worker. Quic.Routed, Udp.Simulated and Tcp.Simulated are those loops, of src/core/quic.rs,
--     src/core/udp.rs and src/core/tcp.rs. A loop is a function of the rounds that the environment
--     brings about: what is received, what the flags are, which handlers have finished.
--   Listen: what the loops that run on each worker share, which take a permit before they receive;
--     Udp.Direct, Quic.Direct and Tcp.Direct are those loops.
--   Work: the loops of a worker that start the handlers of the work sent to it.
--   Udp.State, Udp.Routed, Udp.Callback, Udp.Wake: the state of a UDP server, the socket that a
--     callback receives from, the dispatcher that feeds it, and the wake-up of a blocked receive, in
--     src/core/udp.rs.
--   Udp.Socket: `UdpSocket` of src/core/udp.rs, over a socket of the runtime or a routed socket, and the
--     receive of a packet with its local address.
--   Tcp.State: the state of a TCP server, in src/core/tcp.rs.
--   Server, Server.Setup: src/core/server_runtime.rs, the start of the workers, the choice of a task's
--     worker, and the submission of a task to one. Server.Shutdown is the drop of the runtime, over
--     Runtime.Tokio, with the worker threads as steps in any order.
--   Tcp.Server, Udp.Server, Quic.Server: the functions of src/core/tcp.rs, udp.rs and quic.rs that set
--     servers up, whole, as actions over System; Udp.Task names the tasks that they submit.
--   Runtime.Tokio: src/runtime/tokio.rs, the executor of a worker thread. Its loop, the threads that
--     send it commands and the tasks that finish are steps in any order.
--   Runtime.AsyncStd: src/runtime/async_std.rs, the executor of a worker thread there.
--   Runtime.Net, Runtime.Net.Tokio, Runtime.Net.AsyncStd, Runtime.Adapter: the sockets of
--     src/runtime/tokio.rs and async_std.rs and the choice between both in src/runtime/mod.rs. The
--     sockets of tokio and async-std are a parameter, a record of operations on a state of the network.
--   Examples.HyperStatic: examples/hyper_static.rs, a server of static files: the reading of a
--     request's head, the decoding of its path, the file that the path names, and the response, as values
--     for tokio and as bytes (Examples.HyperStatic.Plain) for async-std. The file system, the head
--     that hyper takes apart and hyper's path of a URI are parameters.
--
-- Loops over rounds need no fuel: they are recursive in the list of rounds, and the reading of a
-- request in what its client sends.
--
-- Not modelled: tokio, async-std, hyper and the operating system themselves. A listener that runs before
-- its server is set up entirely is not interleaved with the rest of the set-up; the flags and sockets
-- that it reads are arguments of its loop. The drop of a runtime on a thread of its own workers, which
-- would join itself, and the drop over async-std are left out. Android is taken as Linux,
-- without the kernel programs. Of examples/hyper_static.rs the arguments of the command line and the
-- root's canonical path are left out; the other examples only call the library.
pub mod Cid
pub mod Concurrency
pub mod Config
pub mod Dispatch
pub mod Error
pub mod Examples
pub mod Listen
pub mod Net
pub mod Platform
pub mod Prelude
pub mod Quic
pub mod Runtime
pub mod Schedule
pub mod Server
pub mod System
pub mod Tcp
pub mod Udp
pub mod Work
