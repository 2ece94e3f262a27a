-- ===== src/Controller.antt =====
-- TcpServerController.cpp and .h: the object that owns the acceptor, the list of all clients and the
-- service. `delete` of an owned object is a null pointer in the model where the source sets it to null.
pub mod Accept
pub mod Joining
pub mod Accepted
pub mod Bits
pub mod Requests
pub mod Consistent
pub mod Active
pub mod Shutdown
pub mod Operator
pub mod Run
pub mod InOrder
pub mod Turns
pub mod Safety
pub mod Stream
pub mod Integrity
pub mod Starving
pub mod Distinct
pub mod Interest
pub mod Watched
pub mod Liveness
pub mod Pipeline
pub mod Disconnect
pub mod Threads
use linux_tcp_server.Base.{
  ℕ, Bool, true, false, Option, none, some, List, [], ◌∷◌, ◌++◌, put, if◌then◌else◌, Outcome, done,
  fault, ◌>>=◌, ◌>>◌,
}
use linux_tcp_server.Flags.{set_mask, unset_mask, has_mask}
use linux_tcp_server.Demarcar.{deref}
use linux_tcp_server.TcpClient
use linux_tcp_server.TcpClient.{
  TcpClient, Slot, unset, holds, Shown, set_state, connected, active_opener, multiplex_listen,
}
use linux_tcp_server.ClientDb
use linux_tcp_server.ClientDb.{
  Host, TcpClientDbManager, load, store_client, display_client_db, purge, Platform,
}
use linux_tcp_server.Service
use linux_tcp_server.Service.{TcpClientServiceManager, client_fd_start_listen, add_client_to_epoll}
use linux_tcp_server.Acceptor
use linux_tcp_server.Acceptor.{TcpNewConnectionAcceptor}

pub data ServerBit : Type 0 where
  tcp_server_initialized tcp_server_running tcp_server_not_accepting_new_connections : ServerBit
  tcp_server_not_listening_clients tcp_server_create_multi_thread_client : ServerBit

abbrev pub bit_value : ServerBit → ℕ
bit_value tcp_server_initialized = 1
bit_value tcp_server_running = 2
bit_value tcp_server_not_accepting_new_connections = 4
bit_value tcp_server_not_listening_clients = 8
bit_value tcp_server_create_multi_thread_client = 16

-- A callback is unset until `SetServerNotifCallbacks`; then the flag tells whether it is not null.
pub record TcpServerController : Type 0 where
  pub tcp_new_conn_acc : Option TcpNewConnectionAcceptor
  pub tcp_client_db_mgr : Option TcpClientDbManager
  pub tcp_client_svc_mgr : Option TcpClientServiceManager
  pub state_flags : ℕ
  pub ip_addr : ℕ
  pub port_no : ℕ
  pub name : List ℕ
  pub client_connected : Slot Bool
  pub client_disconected : Slot Bool
  pub client_msg_recvd : Slot Bool

unfoldable pub set_bit : ServerBit → TcpServerController → TcpServerController
set_bit b c = record c { state_flags = set_mask c.state_flags (bit_value b) }

unfoldable pub is_bit_set : ServerBit → TcpServerController → Bool
is_bit_set b c = has_mask c.state_flags (bit_value b)

unfoldable pub un_set_bit : ServerBit → TcpServerController → TcpServerController
un_set_bit b c = record c { state_flags = unset_mask c.state_flags (bit_value b) }

-- The constructor, given the address as a number and the result of `socket`.
unfoldable pub construct : Option ℕ → ℕ → ℕ → List ℕ → Outcome TcpServerController
construct socket ip_addr port_no name = do
  acc ← Acceptor.construct socket
  done (
      set_bit tcp_server_initialized (record {
        tcp_new_conn_acc = some acc;
        tcp_client_db_mgr = some ClientDb.construct;
        tcp_client_svc_mgr = some Service.construct;
        state_flags = 0;
        ip_addr = ip_addr;
        port_no = port_no;
        name = name;
        client_connected = unset;
        client_disconected = unset;
        client_msg_recvd = unset;
      }))

-- `Start`, given whether `pthread_create` succeeds for the acceptor.
unfoldable pub start : Bool → TcpServerController → Outcome TcpServerController
start created c = do
  svc ← deref c.tcp_client_svc_mgr
  svc' ← Service.start_thread svc
  acc ← deref c.tcp_new_conn_acc
  acc' ← Acceptor.start_thread created acc
  db ← deref c.tcp_client_db_mgr
  done (
      set_bit tcp_server_running
        (record c { tcp_client_svc_mgr = some svc'; tcp_new_conn_acc = some acc' }))

-- The flag of a client on the heap.
unfoldable multiplex : ℕ → Host → Outcome Host
multiplex p h = do client ← load p h; done (store_client p (set_state client multiplex_listen) h)

unfoldable pub process_new_client :
    ℕ → TcpServerController → Host → Outcome (TcpServerController × Host)
unfolding multiplex
process_new_client p c h = do
  db ← deref c.tcp_client_db_mgr
  h' ← multiplex p h
  svc ← deref c.tcp_client_svc_mgr
  let svc' = client_fd_start_listen p svc
  h'' ← add_client_to_epoll p svc' h'
  done (
    record c {
      tcp_client_db_mgr = some (ClientDb.add_client_to_db p db);
      tcp_client_svc_mgr = some svc';
    },
    h'',
  )

unfoldable pub set_server_notif_callbacks :
    Bool → Bool → Bool → TcpServerController → TcpServerController
set_server_notif_callbacks has_connected has_disconected has_msg_recvd c = record c {
  client_connected = holds has_connected;
  client_disconected = holds has_disconected;
  client_msg_recvd = holds has_msg_recvd;
}

-- What `Display` prints: the flags, in the order printed, and the clients, unless the server does not
-- run.
pub record ServerShown : Type 0 where
  pub name : List ℕ
  pub ip_addr : ℕ
  pub port_no : ℕ
  pub details : Option (List Bool × List Shown)

abbrev shown : TcpServerController → Option (List Bool × List Shown) → ServerShown
shown c details = record {
  name = c.name;
  ip_addr = c.ip_addr;
  port_no = c.port_no;
  details = details;
}

unfoldable pub display : Host → TcpServerController → Outcome ServerShown
display h c =
    let flags =
      is_bit_set tcp_server_initialized c
      ∷ is_bit_set tcp_server_running c
      ∷ is_bit_set tcp_server_not_accepting_new_connections c
      ∷ is_bit_set tcp_server_not_listening_clients c
      ∷ is_bit_set tcp_server_create_multi_thread_client c
      ∷ [] in
    let all = (do
      db ← deref c.tcp_client_db_mgr
      clients ← display_client_db h db
      done (shown c (some (flags, clients)))) in
    if is_bit_set tcp_server_running c then all else done (shown c none)

-- `StartConectionAcceptionSvc`, given the results of `socket` and `pthread_create`.
unfoldable pub start_conection_acception_svc :
    Option ℕ → Bool → TcpServerController → Outcome TcpServerController
start_conection_acception_svc socket created c =
    let renewed = (do
      acc ← Acceptor.construct socket
      acc' ← Acceptor.start_thread created acc
      done (record (un_set_bit tcp_server_not_accepting_new_connections c) {
        tcp_new_conn_acc = some acc';
      })) in
    if is_bit_set tcp_server_not_accepting_new_connections c then renewed else done c

unfoldable pub stop_connection_accepting_svc : TcpServerController → TcpServerController
stop_connection_accepting_svc c =
    if is_bit_set tcp_server_not_accepting_new_connections c
    then c
    else record (set_bit tcp_server_not_accepting_new_connections c) { tcp_new_conn_acc = none }

unfoldable pub stop_client_svc_mgr : Platform → TcpServerController → Outcome TcpServerController
stop_client_svc_mgr u c =
    let stopped = (do
      svc ← deref c.tcp_client_svc_mgr
      svc' ← Service.stop u svc
      done (record (set_bit tcp_server_not_listening_clients c) { tcp_client_svc_mgr = none })) in
    if is_bit_set tcp_server_not_listening_clients c then done c else stopped

-- `StartClientSvcMgr` is empty.
abbrev pub start_client_svc_mgr : TcpServerController → TcpServerController
start_client_svc_mgr c = c

-- The parts of `Stop` for the acceptor and the service, if they are there.
unfoldable stop_acceptor :
    Option TcpNewConnectionAcceptor → TcpServerController → TcpServerController
stop_acceptor none c = c
stop_acceptor (some acc) c =
    set_bit tcp_server_not_accepting_new_connections (stop_connection_accepting_svc c)

unfoldable stop_service :
    Platform → Option TcpClientServiceManager → TcpServerController → Outcome TcpServerController
stop_service u none c = done c
stop_service u (some svc) c = do
  c' ← stop_client_svc_mgr u c
  done (set_bit tcp_server_not_listening_clients c')

-- The assertions of the destructor.
unfoldable gone : {A : Type 0} → Option A → Outcome (Unit {0})
gone none = done tt
gone (some a) = fault

unfoldable destructor : TcpServerController → Outcome (Unit {0})
unfolding gone
destructor c = do gone c.tcp_client_db_mgr; gone c.tcp_client_svc_mgr; gone c.tcp_new_conn_acc

-- `Stop`, `delete this` included: the heap that is left.
unfoldable pub stop : Platform → TcpServerController → Host → Outcome Host
unfolding stop_acceptor stop_service destructor
stop u c h = do
  let c' = stop_acceptor c.tcp_new_conn_acc c
  c'' ← stop_service u c'.tcp_client_svc_mgr c'
  db ← deref c''.tcp_client_db_mgr
  (db', h') ← purge u db h
  ClientDb.destructor u db'
  destructor (un_set_bit tcp_server_running (record c'' { tcp_client_db_mgr = none }))
  done h'

-- `CreateActiveAClient`: `p` is the address that `new` gives, and `resolved` tells whether
-- `gethostbyname` finds the host. The results of `socket` and `connect` are only printed.
unfoldable pub create_active_a_client :
    ℕ → Bool → ℕ → ℕ → TcpServerController → Host → Outcome (TcpServerController × Host)
create_active_a_client p resolved server_ip_addr server_port_no c h =
    let client =
      record (set_state (set_state (TcpClient.construct c.ip_addr c.port_no) active_opener)
        connected) {
          server_ip_addr = holds server_ip_addr;
          server_port_no = holds server_port_no;
        } in
    let added = (do
      db ← deref c.tcp_client_db_mgr
      done (
        record c { tcp_client_db_mgr = some (ClientDb.add_client_to_db p db) },
        store_client p client h,
      )) in
    if resolved then added else fault
