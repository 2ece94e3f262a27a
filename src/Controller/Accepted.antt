-- ===== src/Controller/Accepted.antt =====
-- What the server is like after it has accepted a connection.
use linux_tcp_server.Base.{
  ℕ, ◌≡◌, ◌≢◌, ◌∙◌, refl, subst, Bool, true, false, none, some, [], ◌∷◌, ◌++◌, arith, find,
  find-put_same, find-put_other, done, fault, Returns, ℕ_discrete,
}
use linux_tcp_server.Demarcar
use linux_tcp_server.Demarcar.{variable_size}
use linux_tcp_server.Demarcar.Fresh.{construct-Holds}
use linux_tcp_server.TcpClient
use linux_tcp_server.TcpClient.{
  TcpClient, ClientState, connect_in_progress, connected, passive_opener, active_opener,
  multiplex_listen, threaded, holds, set_state, is_state_set,
}
use linux_tcp_server.ClientDb
use linux_tcp_server.ClientDb.{Host, call, store_client, epoll_add, mem, TcpClientDbManager}
use linux_tcp_server.Service
use linux_tcp_server.Service.{TcpClientServiceManager, add_client_to_epoll}
use linux_tcp_server.Service.Serve.{IsTended}
use linux_tcp_server.Service.Isolation.{Tends, IsTended-still}
use linux_tcp_server.Controller.{TcpServerController, process_new_client, multiplex}
use linux_tcp_server.Controller.Accept.{Connection, Allocations, new_client, accept_client}
use linux_tcp_server.Controller.Joining.{mem-last_other}

abbrev pub all_succeed : Allocations
all_succeed = record { hdr = true; ring = true; buffer = true }

-- The states of an accepted client.
abbrev is_accepted_state : ClientState → Bool
is_accepted_state passive_opener = true
is_accepted_state connected = true
is_accepted_state multiplex_listen = true
is_accepted_state _ = false

-- The controller and the heap after a connection was accepted as client `p`: the client is last in both
-- lists, it has the connection's descriptor, just the three states and an empty ring, epoll was told, every
-- client of the service is in order, and the other clients are as they were.
pub record Accepts (p : ℕ) (conn : Connection) (svc : TcpClientServiceManager)
    (db : TcpClientDbManager) (c : TcpServerController) (h : Host) (r : TcpServerController × Host)
    : Type 0 where
  pub client : TcpClient
  pub is_client : find p r.1.clients ≡ some client
  pub is_fd : client.comm_fd ≡ holds conn.comm_sock_fd
  pub states : (s : ClientState) → is_state_set client s ≡ is_accepted_state s
  pub in_service : r.0.tcp_client_svc_mgr ≡ some (Service.add_client_to_db p svc)
  pub same_connected : r.0.client_connected ≡ c.client_connected
  pub same_msg_recvd : r.0.client_msg_recvd ≡ c.client_msg_recvd
  pub in_db : r.0.tcp_client_db_mgr ≡ some (ClientDb.add_client_to_db p db)
  pub tends : Tends 256 (Service.add_client_to_db p svc) r.1
  pub tended : IsTended 256 r.1 p
  pub has_conn_fd : tended.fd ≡ conn.comm_sock_fd
  pub empty : tended.kept ≡ []
  pub others : (q : ℕ) → p ≢ q → find q r.1.clients ≡ find q h.clients
  pub calls : r.1.calls ≡ h.calls ++ epoll_add conn.comm_sock_fd ∷ []

multiplex_lem :
    (p : ℕ) (x : TcpClient) (h : Host)
    → multiplex p (store_client p x h)
      ≡ done (store_client p (set_state x multiplex_listen) (store_client p x h))
unfolding multiplex
multiplex_lem p x h = rw (find-put_same p x h.clients) refl

pub add_client_to_epoll_lem :
    (p fd epfd : ℕ) (m : TcpClientServiceManager) (x : TcpClient) (h : Host)
    → find p h.clients ≡ some x
    → x.comm_fd ≡ holds fd
    → m.epfd ≡ holds epfd
    → add_client_to_epoll p m h ≡ done (call (epoll_add fd) h)
unfolding add_client_to_epoll
add_client_to_epoll_lem p fd epfd m x h live is_fd has_epoll = rw (live, is_fd, has_epoll) refl

module _ (p : ℕ) (conn : Connection) (c : TcpServerController) (h : Host) where
  -- The client as the controller leaves it, and the heap.
  abbrev listening : TcpClient
  listening = set_state (new_client all_succeed conn c) multiplex_listen

  abbrev after_host : Host
  after_host =
      call (epoll_add conn.comm_sock_fd)
        (store_client p listening (store_client p (new_client all_succeed conn c) h))

  listening_states : (s : ClientState) → is_state_set listening s ≡ is_accepted_state s
  unfolding is_state_set set_state new_client TcpClient.construct
  listening_states connect_in_progress = refl
  listening_states connected = refl
  listening_states passive_opener = refl
  listening_states active_opener = refl
  listening_states multiplex_listen = refl
  listening_states threaded = refl

  listening_fd : listening.comm_fd ≡ holds conn.comm_sock_fd
  unfolding set_state new_client
  listening_fd = refl

  untouched : (q : ℕ) → p ≢ q → find q after_host.clients ≡ find q h.clients
  untouched q differ = find-put_other p q listening _ differ ∙ find-put_other p q _ h.clients differ

  listening-IsTended : IsTended 256 after_host p
  unfolding set_state new_client
  listening-IsTended = record {
    client = listening;
    fd = conn.comm_sock_fd;
    demarcar = Demarcar.construct variable_size true true true 256;
    kept = [];
    is_client = find-put_same p listening _;
    is_fd = refl;
    is_msgd = refl;
    in_order = construct-Holds variable_size 256 (omega arith) (omega arith);
    incomplete = omega arith;
  }

  Tends-accepted :
      (svc : TcpClientServiceManager)
      → Tends 256 svc h
      → Tends 256 (Service.add_client_to_db p svc) after_host
  unfolding Service.add_client_to_db
  Tends-accepted svc t = record {
    epfd = t.epfd;
    has_epoll = t.has_epoll;
    each = λ q there. elim (ℕ_discrete p q) [
      | yes same ↦ subst (IsTended 256 after_host) same listening-IsTended
      | no differ ↦
          (IsTended-still 256 q h after_host (untouched q differ)
            (t.each q (mem-last_other q p svc.tcp_client_db differ there))).0
    ];
  }

-- If the service and the database are there and the service has its epoll descriptor, if its listed
-- clients are in order, the callback for new clients is set and the allocations for a new client
-- succeed, the client is taken into both lists, with the connection's descriptor, just the three states
-- of an accepted client and an empty ring; epoll is told of the descriptor, all listed clients are in
-- order, and the other clients are as before.
pub accept_client_lem :
    (p : ℕ) (conn : Connection) (c : TcpServerController) (h : Host) (svc : TcpClientServiceManager)
    (db : TcpClientDbManager) (has_callback : Bool)
    → c.tcp_client_svc_mgr ≡ some svc
    → c.tcp_client_db_mgr ≡ some db
    → c.client_connected ≡ holds has_callback
    → Tends 256 svc h
    → Returns (accept_client all_succeed p conn c h) (Accepts p conn svc db c h)
unfolding accept_client process_new_client Service.add_client_to_db listening-IsTended
accept_client_lem p conn c h svc db has_callback is_svc is_db is_callback t =
    rw
      (
        is_callback,
        is_db,
        is_svc,
        multiplex_lem p (new_client all_succeed conn c) h,
        add_client_to_epoll_lem p conn.comm_sock_fd t.epfd (Service.client_fd_start_listen p svc)
            (listening p conn c h)
            (store_client p (listening p conn c h)
              (store_client p (new_client all_succeed conn c) h))
            (find-put_same p _ _) (listening_fd p conn c h) t.has_epoll,
      )
      (record {
        client = listening p conn c h;
        is_client = find-put_same p _ _;
        is_fd = listening_fd p conn c h;
        states = listening_states p conn c h;
        in_service = refl;
        same_connected = refl;
        same_msg_recvd = refl;
        in_db = refl;
        tends = Tends-accepted p conn c h svc t;
        tended = listening-IsTended p conn c h;
        has_conn_fd = refl;
        empty = refl;
        others = untouched p conn c h;
        calls = refl;
      })

-- After the service was stopped, the acceptor, whose thread still runs, goes through a null pointer at
-- the next connection.
accept_without_service :
    (a : Allocations) (p : ℕ) (conn : Connection) (c : TcpServerController) (h : Host)
    (db : TcpClientDbManager) (has_callback : Bool)
    → c.tcp_client_svc_mgr ≡ none
    → c.tcp_client_db_mgr ≡ some db
    → c.client_connected ≡ holds has_callback
    → accept_client a p conn c h ≡ fault
unfolding accept_client process_new_client
accept_without_service a p conn c h db has_callback is_svc is_db is_callback =
    rw (is_callback, is_db, is_svc, multiplex_lem p (new_client a conn c) h) refl
