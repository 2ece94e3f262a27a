-- ===== src/Controller/Threads.antt =====
-- The two threads of a server, call by call: the loop of StartTcpConnectionAcceptorThreadInternal of
-- TcpNewConnectionAcceptor.cpp with ProcessNewClient of TcpServerController.cpp, and the loop of
-- StartTcpClientServiceManagerThreadInternal of TcpClientServiceManager.cpp. Between two turns of one
-- thread the other one may take any of its own.
pub mod Whole
pub mod Sound
pub mod Newcomer
pub mod Arriving
pub mod Attending
pub mod Started
pub mod Order
pub mod Lost
pub mod Unserved
pub mod Later
pub mod Departing
pub mod Together
pub mod Reused
use linux_tcp_server.Base.{
  ℕ, ◌≡◌, Bool, true, false, Option, none, some, List, [], ◌∷◌, ◌++◌, find, Outcome, done, ◌>>=◌,
}
use linux_tcp_server.Demarcar.{deref}
use linux_tcp_server.TcpClient.{holds, get}
use linux_tcp_server.Receive.{Recv, Ending, full, closed, idle, error, running, drain}
use linux_tcp_server.ClientDb
use linux_tcp_server.ClientDb.{Host, call, close, epoll_del, load, store_client}
use linux_tcp_server.Service.{
  Entry, client_fd_start_listen, add_client_to_epoll, get_client_by_fd, remove_client,
}
use linux_tcp_server.Service.Interest.{Epoll, watched}
use linux_tcp_server.Controller.{TcpServerController, multiplex}
use linux_tcp_server.Controller.Accept.{Allocations, Connection, new_client}
use linux_tcp_server.Controller.Accepted.{all_succeed}

-- Where the acceptor's thread is: it waits in `accept`, or the next call for its new client is
-- `AddClienttoDb`, `SetState`, `ClientFDStartListen` or `AddClientToEpoll`.
pub data Accepting : Type 0 where
  waiting : Accepting
  made in_db flagged listed : ℕ → Accepting

-- Where the service's thread is: it waits for an event, or the next call for a client that it gives up
-- is `close`, the deletion from epoll, or `RemoveClient`.
pub data Leaving : Type 0 where
  attending : Leaving
  to_close : ℕ → ℕ → ℕ → Leaving
  to_forget : ℕ → ℕ → Leaving
  to_remove : ℕ → Leaving

pub record Shared (W : Type 0) : Type 0 where
  pub controller : TcpServerController
  pub host : Host
  pub log : List Entry
  pub world : W
  pub acceptor : Accepting
  pub service : Leaving

-- `accept` has given a connection: the client up to the callback for new connections and the
-- demarcator. `p` is the address that `new` gives.
unfoldable pub accept_turn :
    {W : Type 0} → Allocations → ℕ → Connection → Shared W → Outcome (Shared W)
accept_turn a p conn s = do
  notify ← get s.controller.client_connected
  done (record s {
    host = store_client p (new_client a conn s.controller) s.host;
    acceptor = made p;
  })

-- The next call of `ProcessNewClient`.
unfoldable pub acceptor_turn : {W : Type 0} → Accepting → Shared W → Outcome (Shared W)
unfolding multiplex
acceptor_turn waiting s = done s
acceptor_turn (made p) s = do
  db ← deref s.controller.tcp_client_db_mgr
  done (record s {
    controller = record s.controller { tcp_client_db_mgr = some (ClientDb.add_client_to_db p db) };
    acceptor = in_db p;
  })
acceptor_turn (in_db p) s = do
  h ← multiplex p s.host
  done (record s { host = h; acceptor = flagged p })
acceptor_turn (flagged p) s = do
  svc ← deref s.controller.tcp_client_svc_mgr
  done (record s {
    controller = record s.controller { tcp_client_svc_mgr = some (client_fd_start_listen p svc) };
    acceptor = listed p;
  })
acceptor_turn (listed p) s = do
  svc ← deref s.controller.tcp_client_svc_mgr
  h ← add_client_to_epoll p svc s.host
  done (record s { host = h; acceptor = waiting })

-- What follows the loop over `recv`, by the way it ended.
abbrev pub leaving : Ending → ℕ → ℕ → ℕ → Leaving
leaving full p comm_fd fd = attending
leaving idle p comm_fd fd = attending
leaving running p comm_fd fd = attending
leaving closed p comm_fd fd = to_close p comm_fd fd
leaving error p comm_fd fd = to_close p fd fd

-- The next call for a client that is given up.
unfoldable pub leaving_turn : {W : Type 0} → Leaving → Shared W → Outcome (Shared W)
leaving_turn attending s = done s
leaving_turn (to_close p comm_fd fd) s =
    done (record s { host = call (close comm_fd) s.host; service = to_forget p fd })
leaving_turn (to_forget p fd) s = do
  svc ← deref s.controller.tcp_client_svc_mgr
  epfd ← get svc.epfd
  done (record s { host = call (epoll_del fd) s.host; service = to_remove p })
leaving_turn (to_remove p) s = do
  svc ← deref s.controller.tcp_client_svc_mgr
  (svc', h) ← remove_client p svc s.host
  done (record s {
    controller = record s.controller { tcp_client_svc_mgr = some svc' };
    host = h;
    service = attending;
  })

module _ {W : Type 0} (recv : ℕ → ℕ → W → Recv × W) where
  -- An event up to the end of the loop over `recv`, for a client that was found.
  unfoldable receive_turn : ℕ → Bool → ℕ → Option ℕ → Shared W → Outcome (Shared W)
  receive_turn rounds registered fd none s = done s
  receive_turn rounds registered fd (some p) s = do
    c ← load p s.host
    msgd ← get c.msgd
    d ← deref msgd
    comm_fd ← get c.comm_fd
    r ← drain recv rounds registered comm_fd d s.world
    done (record s {
      host = store_client p (record c { msgd = holds (some r.msgd) }) s.host;
      log = s.log ++ record { client = p; received = r.received; deliveries = r.deliveries } ∷ [];
      world = r.world;
      service = leaving r.ending p comm_fd fd;
    })

  unfoldable pub event_turn : ℕ → Bool → ℕ → Shared W → Outcome (Shared W)
  unfolding receive_turn
  event_turn rounds registered fd s = do
    svc ← deref s.controller.tcp_client_svc_mgr
    found ← get_client_by_fd s.host fd svc
    receive_turn rounds registered fd found s

module _ ⦃kernel : Epoll⦄ {W : Type 0} (recv : ℕ → ℕ → W → Recv × W) where
  -- The turns. The kernel gives a new connection a descriptor that is not open, so epoll does not watch
  -- it, `new` an address that is not in use and the allocations of its demarcator succeed, and epoll
  -- reports only what it watches.
  pub data Move : Shared W → Shared W → Type 0 where
    accepts :
        (s s' : Shared W) (p : ℕ) (conn : Connection)
        → s.acceptor ≡ waiting
        → find p s.host.clients ≡ none
        → watched conn.comm_sock_fd s.host.calls ≡ false
        → accept_turn all_succeed p conn s ≡ done s'
        → Move s s'
    processes : (s s' : Shared W) → acceptor_turn s.acceptor s ≡ done s' → Move s s'
    reports :
        (s s' : Shared W) (registered : Bool) (rounds fd : ℕ)
        → s.service ≡ attending
        → watched fd s.host.calls ≡ true
        → s.controller.client_msg_recvd ≡ holds registered
        → event_turn recv rounds registered fd s ≡ done s'
        → Move s s'
    leaves : (s s' : Shared W) → leaving_turn s.service s ≡ done s' → Move s s'

  pub data Moves : Shared W → Shared W → Type 0 where
    at_rest : (s : Shared W) → Moves s s
    then_turn : (s s' s'' : Shared W) → Moves s s' → Move s' s'' → Moves s s''
