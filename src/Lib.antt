-- ===== src/Lib.antt =====
-- A model of setka, a C++ library of sockets and asynchronous DNS lookup (src/setka).
--
-- The parts and their files:
--   Std      std::map, std::multimap and std::list, as far as the sources use them, with their laws.
--   Utki     what the sources use of the library utki, as a parameter (`Utki`) with its documented
--            behaviour: big-endian conversions and the bounds test of a span.
--   Address  src/setka/address.hpp: the IP address and the address with a port.
--     Parse   src/setka/address.cpp: `ip::parse` and `address(str)` (`of_string`), with inet_pton as
--             the parameter `Inet`; Parse.Port the port, Parse.Whole whole strings, Parse.Bounds the
--             ranges of what is read.
--     Print   ip::to_string, with the numbers as a std::stringstream writes them.
--     Tests   concrete strings.
--   Dns      src/setka/dns_resolver.cpp and .hpp: the lookup of names.
--     Ids     LookupThread::FindFreeId, on the map of the ids in use.
--     Name    host names in packets: ParseHostNameFromDNSPacket (`parse_host_name_from_dns_packet`)
--             and the label loop of SendRequestToDNS (`write_host_name`).
--     Query   the datagram that SendRequestToDNS builds (`request_datagram`).
--     Reply   ParseReplyFromDNS (`parse_reply_from_dns`). Reply.Answers says what a reply means,
--             without the code's order of reading.
--             Reply.Compressed is about owners that end in a pointer.
--     Thread  the tables of LookupThread and RemoveResolver (`remove_resolver`). Thread.Consistent
--             says what ties the tables together.
--     Client  dns_resolver::resolve and cancel (`resolve`, `cancel`): the calls of the users, which
--             share the lookup thread. Each holds dns::mutex from start to end and is one step from a
--             state (`Threads`) to the next; Client.Between is about the moment at which resolve lets
--             go of the mutex of the thread.
--             Client.Lookups is what they promise, on the names of the active lookups alone.
--     Init    LookupThread::InitDNS on the text of resolv.conf (`init_dns`); Init.Registry on the
--             registry of Windows (`init_dns_windows`).
--     Run     LookupThread::run: one round of the loop (`round`), RemoveAllResolvers, CallCallback and
--             the messages of the queue. What the socket and the clock give is an `Event`; what other
--             threads do while a callback runs is the parameter `meanwhile`; in Run.WithCalls it is
--             calls of resolve and cancel. Run.System is the start of the thread, and its rounds
--             among messages and calls, as a step relation; Run.Loop is the whole of it (`run`) as a
--             function, on a list of the passages of its loop (`Turn`). Run.Loop.Late is about a request
--             whose time wraps around. Run.Ends: that a round ends;
--             Run.Reports and Run.Answers: what is reported.
--     Locks   the mutexes and the join of resolve, cancel, clean_up and the lookup thread with its
--             callbacks, as a step relation of any number of threads. Locks.Invariant says who has
--             locked what; Locks.Stuck is about calls that wait for one another, and
--             Locks.Returns about the others. It follows one lookup thread: a `resolve` that finds it
--             exiting replaces it, and a socket that cannot be opened ends it with dns::mutex locked;
--             these states are there, and what the thread that replaces it does is not.
--     Tests   concrete messages, calls, rounds and files.
--   Socket   src/setka/socket.hpp and .cpp: the base class of the sockets.
--     Method  methods that change an object and may throw. Posix: the system calls, as the parameter
--             `Kernel`, and what POSIX says of descriptors (`Descriptors`) and byte order.
--     Inet    addresses for system calls, and back (make_ip_address).
--     Tcp     src/setka/tcp_socket.cpp: `open_tcp`, `send`, `recieve`, the addresses.
--     Create  the creation of sockets that take IPv6 and IPv4, which Server and Udp share.
--     Server  src/setka/tcp_server_socket.cpp: `open_server`, `accept`.
--     Udp     src/setka/udp_socket.cpp: `open_udp`, `send`, `recieve`.
--     Moves   socket::operator= (`move`). Owns, Owned: rules for methods that keep account of the
--             descriptors, as Hoare triples (`Ensures`). Calls: sequences of calls.
--     Interrupts  the loops over interrupted system calls.
--     Windows  the parts of the sockets for Windows that handle events, with Winsock as the parameter
--             `Winsock`: set_waiting_flags, check_signaled, close and operator=.
--     Tests   a small system, and calls on it.
--   InitGuard  src/setka/init_guard.cpp: how the process takes SIGPIPE, with signal as the parameter
--             `Signals`, and dns_resolver::clean_up, with whether the join of the lookup thread returns
--             as a parameter.
--
-- Numbers: all of them are natural numbers, with the wrap-around of the code's type written out. A
-- pointer into a packet or a string is the list of what stands from it on. A pointer to an object
-- is a number. A read outside of a packet, an exception and a null pointer are values of their own.
--
-- Fuel: `read_labels`, `write_labels` and `read_servers` take as much fuel as there are bytes. Each
-- round takes at least one byte, so this is enough (Name.Loops, Init.Lines). The loops of Run over
-- the tables take fuel too: each of their rounds removes a request or sends one. Where callbacks add no
-- requests, n + n (n + 1) / 2 and one more are enough for n requests (Run.Ends); else it depends on what
-- they add. The rounds of `run_loop` take that much of themselves (`round_fuel`), and its passages are as
-- many as are listed. The loops over an interrupted system call (`retry`) take as much fuel as there are
-- interruptions and one more (Socket.Interrupts).
--
-- Not modelled: the join of a previous thread, which run does before all else; the registration of sockets
-- with wait sets; the other branches for Windows, and those for Mac OS in udp_socket::send; that memory runs out;
-- assertions and traces.
pub mod Prelude
pub mod Std
pub mod Utki
pub mod Address
pub mod Socket
pub mod Dns
pub mod InitGuard
