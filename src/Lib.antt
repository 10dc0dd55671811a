-- ===== src/Lib.antt =====
-- Verification of network_structure, a C++ server for networked devices: an event loop over epoll
-- with TCP connections on top (Network), timeouts (OSAL), and an older server of descriptors.
--
-- FdManager          src/Network/src/FdManager.cpp: bounded vectors of descriptors, and in
--                    FdManager/Sets a dictionary of such vectors by name.
-- Reactor            the event loop, one module for each class:
--   Channel          src/Network/include/Channel.h: event masks, callbacks, the data of a channel.
--   Poller           src/Network/src/Poller.cpp: `update_channel`, `remove_channel`, `poll` are the
--                    methods of these names; Poller/Epoll is the interface to epoll_ctl(2).
--   World            the state that the classes share. A pointer is an address: `conns` and the heap of
--                    channels are functions from addresses. A bound callback is a value that names its
--                    method, and `Reactor.MyServer.run_callback` and `run_functor` call it.
--   EventLoop        src/Network/src/EventLoop.cpp and the dispatch of src/Network/src/Channel.cpp.
--   TcpConnection    src/Network/src/TcpConnection.cpp: `send`, `handle_write`, `handle_read`,
--                    `handle_close` and the others are the methods of these names, each split where
--                    the source branches. Reactor/Buffer is the interface to its output buffer.
--   TcpServer        src/Network/src/TcpServer.cpp and Acceptor.cpp: the map of connections.
--   MyServer         src/Network/src/MyServer.cpp: the count, the limit, the host; in MyServer/Startup the
--                    constructors, up to InitNetworkServer of src/Network/src/Network.cpp, and in
--                    MyServer/Registry the map of connections under the whole program, loop included.
-- TcpServerSocket    src/Network/src/TcpServerSocket.cpp: both servers of descriptors, and in
--                    TcpServerSocket/Threads their event loops; TcpServerSocket/Process is the loop of
--                    the forked server, `ConcurrentProcess`, and TcpServerSocket/Image the frame of an
--                    image, `SendPgmImage`.
-- UdpSocket          src/Network/src/UdpSocket.cpp: the server that answers datagrams.
-- Address            src/Network/src/InetAddress.cpp and SocketOps.cpp: the address of a socket, its
--                    text and the order of its bytes.
-- Fifo               src/Tools/src/Ipc.cpp: the pipe with a name and the thread that reads it.
-- Realtime           src/OSAL/src/realtime.cpp: the scheduling class of a thread and its limits.
-- Logging            src/Logging/src/logging.cpp: the filter by tag and level and what passes it.
-- Bmp                src/Tools/src/bmp.cpp: the writers and the reader (Bmp/Read) of bitmaps.
-- Ipc                src/Network/src/Ipc.cpp: the server of the local socket, and its client in
--                    Ipc/Client.
-- Network            src/Network/src/Network.cpp: starting, stopping and registering over the
--                    servers of descriptors; Network/Listener its thread that waits.
-- TcpClientSocket    src/Network/src/TcpClientSocket.cpp: the client of such a server.
-- DataParser         src/Network/src/DataParser.cpp: the commands of the host; HSTRING and the
--                    reader are not in the repository and are the parameter `Parsing` and a list
--                    of actions.
-- Timeout            src/OSAL/include/timeout.h: `CTimeout` (Micro), `CTimeoutmS` (Milli) and
--                    `TimerCallback` (Callback), whose threads make their steps in any order.
-- Prelude            Boolean tests, lists, association lists and signed integers.
--
-- How the parts interact: the loop polls the poller, which marks the active channels; the dispatch
-- of a channel runs callbacks of connections, of the acceptor and of the loop; these change the
-- connections, the poller and the server, and queue functors, which the loop runs at the end of
-- the round. The operating system is a parameter: the result of a call may depend on the whole
-- trace of calls so far, which the state keeps, newest first. A step that aborts or is undefined
-- in the source is `none`. Many functions have a result type and no return statement at their end,
-- which the language leaves undefined. For `Start`, `Stop`, `PollTest` and `InitNetworkServer`
-- what the compiler makes of that is a parameter; for the others (`Poller::poll`, `ClearAll` and
-- `CloseAllConnections`, `IpcWrite`, the starts and stops of the threads, `UdpSocket::Run`), whose
-- results no caller uses, the caller is taken to go on. The forked server passes what it reads to
-- its parent by the client of Ipc and stops at a message of it; Network starts and stops the
-- servers of descriptors and gives them one configuration; Timeout, Realtime, Logging and Bmp
-- stand alone. Machine integers wrap where the source relies on it (`Timeout`, `to_size`,
-- `sub_size`); counts of objects in memory do not reach 2^64 and are natural numbers.
--
-- The name of a connection holds the text of the server's address, which Address makes.
-- `InitNetworkServer` (Reactor/MyServer/Startup) makes the loop in one thread and runs it in
-- another, so the registry (Reactor/MyServer/Registry) is followed in any thread: there a removal
-- is queued, not made at once.
--
-- Bounds and fuel: `loopthread` runs for a given number of rounds, since the source runs until it
-- is told to quit; the theorems hold after every round. The threads of TcpServerSocket take the
-- values that `isThreadRunning` has at each test, IPCThread those of its `exit_thread`, and the
-- forked server a number of rounds. `setscheduler` takes the tries that its goto may make, of
-- which two suffice; the UDP server and the thread of the pipe take the list of what the operating
-- system reports to them; and the search of Logging as many tokens as the list has characters and
-- one more, which suffices as well. Every other loop is structural.
--
-- Not modelled: what the other parts log and print; src/Network/src/Buffer.h, which is a copy of
-- muduo's and is the interface Reactor/Buffer; what asks ioctl(2) for the network configuration;
-- the threads that stream images in TcpServerSocket, whose code is disabled; the destructor of
-- TcpConnection, so that a connection that is let go of keeps its descriptor and is never expired;
-- the signal timer and the wrappers of one system call each, whose calls appear in the traces.
mod Prelude
pub mod FdManager
pub mod Reactor
pub mod Timeout
pub mod TcpServerSocket
pub mod DataParser
pub mod Realtime
pub mod Address
pub mod UdpSocket
pub mod TcpClientSocket
pub mod Fifo
pub mod Bmp
pub mod Logging
pub mod Ipc
pub mod Network
