-- ===== src/Lib.antt =====
-- A model of the TCP server of this repository, and what holds of it.
--
-- The server accepts TCP connections in one thread, receives on them in another one, cuts what it
-- receives into messages, and hands the messages to the application. Its parts and their files here:
--   * Bcb: ByteCircularBuffer.cpp, the ring that holds what was received on a connection. `Bcb` is the
--     struct, `write`, `read`, `available_size`, `is_full` and `reset` are BCBWrite, BCBRead and so on.
--     Bcb/Valid has the invariant and the abstract contents, Bcb/Contract the theorems on single calls,
--     Bcb/Fifo the bounded queue with a lock that the ring is measured against in Bcb/History, and
--     Bcb/Abstract the quotient of the rings by what calls can tell of them.
--   * Demarcar: TcpMsgDemarcar.cpp and the classes of variable and fixed size. `process_msg` is
--     ProcessMsg, `process_client_msg` the virtual ProcessClientMsg. Stream describes the wire format
--     (two bytes of length, then the message) without reference to the code.
--   * TcpClient: TcpClient.cpp, one connection; Flags has the bit operations of its states.
--   * ClientDb: TcpClientDBManager.cpp, the list of all clients.
--   * Service: TcpClientServiceManager.cpp, the list that the service thread listens to and what it does
--     on an event; Receive is its loop over `recv` on one connection. Receive/Progress has the interface
--     of a socket that gives what its peer has sent.
--   * Acceptor: TcpNewConnectionAcceptor.cpp; the body of its accept loop is Controller/Accept.
--   * Controller: TcpServerController.cpp, which owns the three objects above. Controller/Run is
--     the run of the two threads as a step relation, with the operator's commands that stop and
--     start the acceptance of connections and connect to another server; a second start, stop and
--     disable-client-listen are no steps of it,
--     Controller/InOrder its invariant, Controller/Stream what one client's log says over a run,
--     Controller/Distinct the invariant that its clients have different descriptors.
--     Controller/Pipeline joins a client program, the acceptor and the service;
--     Controller/Watched compares what epoll watches (Service/Interest) with the service's list.
--     Controller/Threads takes the two threads call by call: ProcessNewClient in four turns, an event in
--     one turn for what is received and three for a client that is given up. Threads/Sound has the
--     invariant, Threads/Whole the turns in a row, Threads/Reused an order of them after which a client
--     is never served.
--     Controller/Disconnect is about a peer that closes its connection, Controller/Starving about
--     one whose frames the ring cannot hold.
--   * NetworkUtils: network_utils.cpp. App: testapp.cpp, its handlers, command trees, callbacks
--     (App/Notices, with the address lines of both Display functions) and main. App/Changes has what
--     one command does to the list of servers, App/Session runs the commands of a user.
--   * Senders: the client programs tcp_client_fix_sizestr_sender.cpp, tcp_client_string_sender.cpp and
--     tcp_client.cpp, as the bytes that they send.
-- Base has the library names, tests on numbers, lists with native indices, the heap as an association
-- list, and the outcomes of a call. Tests holds runs on small inputs and instances of the theorems.
--
-- Conventions. A call ends in an `Outcome`: a result, a wait for a mutex that the thread itself
-- holds, undefined behaviour (an access outside an array, through a null or dangling pointer, of a
-- field that was never set), the end of the process, or exhausted fuel. 16-bit fields wrap where
-- the source converts. Objects that are shared live on a heap by address. Results of system calls
-- and of `new`, `calloc`, `inet_pton` and `atoi` are arguments; `recv` is a function on a state of
-- the world of which the theorems on safety assume only that it gives no more bytes than were asked
-- for, and those on progress that it gives what is pending. Epoll's interest list is an interface,
-- `Epoll` of Service/Interest, with what epoll_ctl(2) and close(2) document as its laws. `Platform`
-- of ClientDb tells whether two things that are undefined go on: a call on the rwlock of the list
-- of clients, which no code initialises, and a read through the end of a list, whose value is never
-- used. Where one does not go on, the call ends in undefined behaviour. The creation of the
-- service's thread is taken to succeed, and what that thread does before its loop is one step.
-- Results of pure output are dropped, and `Display` and the callbacks return what they print.
--
-- Fuel. `process_frames` and `process_blocks` get one round for each byte held and one more, `write_all`
-- one for each byte to be written and one more, `purge_loop` and `stop_loop` one for each element and
-- one more; the theorems on `process_msg`, `purge` and `stop` show that these are enough. The loop over
-- `recv` ends only when the peer pauses or closes, so `drain` takes a number of rounds; its theorems on
-- safety hold for any number, and one round more than there are bytes pending lets it end by itself.
--
-- Not modelled: the command parser of the folder CommandParser, a library of another project; the
-- branches that the preprocessor leaves out (select, the fixed-size class in the acceptor, the shell in
-- `main`); data races within one call on a list or an object, as a turn of a thread in
-- Controller/Threads is one call, and a step in Controller/Run one handler; output.
pub mod Base
pub mod Bcb
pub mod Stream
pub mod Demarcar
pub mod Senders
pub mod Flags
pub mod TcpClient
pub mod Receive
pub mod ClientDb
pub mod Service
pub mod Acceptor
pub mod Controller
pub mod NetworkUtils
pub mod App
pub mod Tests
