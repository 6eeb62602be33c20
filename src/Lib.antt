-- ===== src/Lib.antt =====
-- The verification library of dlms-transport, the protocol-neutral input and output layer of a
-- DLMS/COSEM framework in C++.
--
-- Prelude has the shared names and lemmas: native numbers, C's `int` and its casts, lists. Status
-- is include/dlms/transport/transport_status.hpp. Buffer is the caller's buffers: an input is a
-- null pointer with a size or a list of bytes, a read returns its status, `bytesRead` and what it
-- put at the front of the buffer.
--
-- Os is the operating system, which is not part of the repository. Every system call is an entry
-- of a log, with its arguments and its answer, and the answers are a parameter: one function for
-- each call, which may depend on the whole log so far, so that every behaviour of the system is
-- covered. An operation of a transport is an action on the log. `live` tells from the log which
-- descriptors are in use, `accepted` which bytes were taken over for a descriptor; `IsPosix` and
-- `IsPatient` name what is assumed of the system where a theorem needs it, and `IsDatagramSystem`
-- what Linux documents of the datagrams that wait in a socket: `FIONREAD` tells the size of the
-- one in front, `recv` takes one and loses what does not fit.
--
-- Tcp is src/transport/tcp_stream_transport.cpp (include/dlms/transport/tcp_stream_transport.hpp):
-- Socket has the helpers over one socket, Stream the object and its operations, Session the calls
-- of one object's life. The loop over the addresses is a recursion on their list. The loop of
-- `WriteAll` is on fuel: `none` is a loop that has not ended, and Writing says what fuel is
-- enough.
--
-- Udp is src/transport/udp_transport.cpp: Socket has its helpers, Transport the object and its
-- operations, Session the calls of one life. Ownership, for each of Tcp, Udp and Serial, is about
-- the descriptors in use, Tcp/Opening about the statuses of `Open`, Addresses about the lists of
-- `getaddrinfo`, Tcp/Reading, Udp/Datagrams and Udp/Sending about the bytes of one call, Promises
-- about how `Open` answers on a closed object.
--
-- Serial is src/transport/serial_transport.cpp: Port has the object and its operations, with its
-- write loop on fuel like that of Tcp, Session the calls of one life. Discovery is
-- src/transport/serial_port_discovery.cpp in its build for Unix, over the entries of "/dev", with
-- `std::sort` as an insertion sort; Order, Sorting and Listing are about it.
--
-- Transfer is the loop that `WriteAll` is in three of the transports, over the actions that wait
-- and that write a part. It has no code of its own: each transport's loop is shown to be an
-- instance.
--
-- Server is src/transport/tcp_server_transport.cpp: Accepted is its `AcceptedTcpStream`, Listener
-- its `TcpServerTransport`; a `std::unique_ptr<IByteStream>` is an optional stream, and the one
-- that it held is destroyed when `Accept` begins. Process is no code of the repository but its
-- use: a list of transports of all these kinds on one system, which are constructed, called and
-- destroyed in any order.
--
-- ByteStream is the interface of include/dlms/transport/byte_stream.hpp, as a record of operations
-- on all the state that they may change, and four records of what its comments promise: two
-- clauses are records of their own, since the TCP client answers more failures of `Open` than the
-- header names, and the fake stream can stay open after a peer close. DatagramTransport is that of
-- include/dlms/transport/datagram_transport.hpp. Tcp/Interface, Serial/Interface and
-- Fake/Interface have the transports as an `IByteStream`, Udp/Interface has its own as an
-- `IDatagramTransport`; in the first two the write loops run on the fuel that is enough for the
-- input and the patience of the system. Tls is src/transport/tls_stream_transport.cpp over such a
-- lower stream and over a backend, which are parameters; a pointer may be null, and `none` is the
-- dereference of a null pointer.
--
-- Fake is include/dlms/transport/fake_transport.hpp, the scripted stream, datagram channel and
-- clock for tests, as pure functions on their states; Interface has the fake stream as a
-- `ByteStream`.
--
-- EventLoop is include/dlms/transport/transport_event_loop.hpp: the `std::map` of registrations is
-- an ordered association list (Table), the callbacks are a parameter, which may change the loop
-- itself. An `int` is there its 32 bits as a natural number, and `nextToken_++` wraps; the order
-- of the table is that of `int` while the tokens are not negative, up to 2 ^ 31 - 1 registrations.
-- ModeE is src/transport/iec62056_21_mode_e.cpp, the sign-on helpers of IEC 62056-21 mode E, with
-- a `std::string` as the list of its bytes.
--
-- Timer is src/transport/timer_scheduler.cpp over a parameter for the steady clock and the sleep
-- of the C++ library; the clock counts in ticks of its own, of which a millisecond has a number.
-- CApi is src/transport/transport_c_api.cpp and include/dlms/transport/transport_c_api.h: a handle
-- is the object behind it or `none` for null, a status is its number, and whether an allocation
-- succeeds is an argument of the functions that create. Programs has what a C program does with
-- one handle, and Refinement which call of the C++ object each C call comes to.
--
-- Trace is include/dlms/transport/transport_trace.hpp, whose events no other part emits: there is
-- no more to it than the null check of the sink, which is the user's.
--
-- A callback, a backend and a system call are functions on the whole state that they may see. Two
-- threads on one object are not modelled, as the code has no locks. Of the helpers the POSIX
-- branch is modelled, not the WinSock branch, and not `FD_SETSIZE`, the limit of `select`. A
-- timeout is passed to the system as the code passes it, and no time goes by in the model of the
-- transports.
pub mod Prelude
pub mod Status
pub mod Buffer
pub mod Os
pub mod Timer
pub mod Transfer
pub mod Tcp
pub mod Udp
pub mod Serial
pub mod Server
pub mod Process
pub mod CApi
pub mod ByteStream
pub mod DatagramTransport
pub mod Tls
pub mod Fake
pub mod EventLoop
pub mod ModeE
pub mod Trace
mod Tests
