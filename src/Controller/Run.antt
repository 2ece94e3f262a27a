-- ===== src/Controller/Run.antt =====
-- The two threads of a running server: StartTcpClientServiceManagerThreadInternal of
-- TcpClientServiceManager.cpp and StartTcpConnectionAcceptorThreadInternal of
-- TcpNewConnectionAcceptor.cpp take turns on the controller and the heap, with
-- the operator's commands that stop and start the acceptance of connections and connect to another
-- server. A second start, stop and disable-client-listen are no steps: after the last of these the
-- service is gone, and the next connection that is accepted is a null dereference.
use linux_tcp_server.Base.{ℕ, ◌≡◌, ◌≢◌, Bool, true, false, Option, none, some, find, List, done}
use linux_tcp_server.TcpClient.{holds}
use linux_tcp_server.Receive.{Recv}
use linux_tcp_server.ClientDb.{Host, mem}
use linux_tcp_server.Service.{
  TcpClientServiceManager, Entry, Serving, start_internal, wait_until_ready, serve_events,
}
use linux_tcp_server.Service.Lookup.{HasFd}
use linux_tcp_server.Acceptor.{SocketCalls, set_up}
use linux_tcp_server.Controller.{
  TcpServerController, stop_connection_accepting_svc, start_conection_acception_svc,
  create_active_a_client,
}
use linux_tcp_server.Controller.Accept.{Connection, accept_client}
use linux_tcp_server.Controller.Accepted.{all_succeed}

-- `accepting` tells that the acceptor's thread has passed `WaitUntilReady` and its set-up.
pub record System (W : Type 0) : Type 0 where
  pub controller : TcpServerController
  pub host : Host
  pub accepting : Bool
  pub log : List Entry
  pub world : W

-- The state of the service thread in the system.
abbrev pub serving : {W : Type 0} → System W → TcpClientServiceManager → Serving W
serving s m = record { log = s.log; manager = m; host = s.host; world = s.world }

module _ {W : Type 0} (recv : ℕ → ℕ → W → Recv × W) where
  -- The turns of the threads. The service gets ready once; the acceptor waits for that and sets its
  -- socket up; then it accepts connections, and the service handles what epoll reports. The operator
  -- stops and starts the acceptance of connections, which does not end the acceptor's thread, and
  -- connects to other servers, where `new` gives an address that is not in use. The thread that a
  -- renewed acceptance creates accepts as the first one does; that it sets its socket up is no step.
  pub data Step : System W → System W → Type 0 where
    service_ready :
        (s : System W) (m m' : TcpClientServiceManager) (epfd : ℕ) (h : Host)
        → s.controller.tcp_client_svc_mgr ≡ some m
        → m.is_ready ≡ false
        → start_internal epfd m s.host ≡ done (m', h)
        → Step s (record s {
          controller = record s.controller { tcp_client_svc_mgr = some m' };
          host = h;
        })
    acceptor_ready :
        (s : System W) (m : TcpClientServiceManager) (calls : SocketCalls)
        → s.controller.tcp_client_svc_mgr ≡ some m
        → wait_until_ready m ≡ done tt
        → set_up calls ≡ done tt
        → Step s (record s { accepting = true })
    accepts :
        (s : System W) (p : ℕ) (conn : Connection) (c : TcpServerController) (h : Host)
        → s.accepting ≡ true
        → accept_client all_succeed p conn s.controller s.host ≡ done (c, h)
        → Step s (record s { controller = c; host = h })
    events :
        (s : System W) (m : TcpClientServiceManager) (registered : Bool) (rounds : ℕ) (fds : List ℕ)
        (s' : Serving W)
        → s.controller.tcp_client_svc_mgr ≡ some m
        → m.is_ready ≡ true
        → s.controller.client_msg_recvd ≡ holds registered
        → serve_events recv rounds registered fds (serving s m) ≡ done s'
        → Step s (record s {
          controller = record s.controller { tcp_client_svc_mgr = some s'.manager };
          host = s'.host;
          log = s'.log;
          world = s'.world;
        })
    stops_accepting :
        (s : System W)
        → Step s (record s { controller = stop_connection_accepting_svc s.controller })
    starts_accepting :
        (s : System W) (socket : Option ℕ) (created : Bool) (c : TcpServerController)
        → start_conection_acception_svc socket created s.controller ≡ done c
        → Step s (record s { controller = c })
    connects :
        (s : System W) (p : ℕ) (resolved : Bool) (server_ip_addr server_port_no : ℕ)
        (c : TcpServerController) (h : Host)
        → find p s.host.clients ≡ none
        → create_active_a_client p resolved server_ip_addr server_port_no s.controller s.host
          ≡ done (c, h)
        → Step s (record s { controller = c; host = h })

  pub data Reaches : System W → System W → Type 0 where
    here : (s : System W) → Reaches s s
    further : (s s' s'' : System W) → Reaches s s' → Step s' s'' → Reaches s s''

  -- A connection that is accepted has a descriptor that no client of the service has.
  abbrev pub TakesFresh : (s s' : System W) → Step s s' → Type 0
  TakesFresh _ _ (accepts s p conn c h accepting e) =
      (m : TcpClientServiceManager)
      → s.controller.tcp_client_svc_mgr ≡ some m
      → (q : ℕ) → mem q m.tcp_client_db ≡ true
      → ¬ HasFd s.host q conn.comm_sock_fd
  TakesFresh _ _ (service_ready s m m' epfd h is_m unready e) = Unit
  TakesFresh _ _ (acceptor_ready s m calls is_m waited listening) = Unit
  TakesFresh _ _ (events s m registered rounds fds s'' is_m ready is_registered e) = Unit
  TakesFresh _ _ (stops_accepting s) = Unit
  TakesFresh _ _ (starts_accepting s socket created c e) = Unit
  TakesFresh _ _ (connects s p resolved server_ip_addr server_port_no c h fresh e) = Unit

  -- The acceptor's `new` gives another address than `p`.
  abbrev pub AcceptsOther : ℕ → (s s' : System W) → Step s s' → Type 0
  AcceptsOther p _ _ (accepts s q conn c h accepting e) = q ≢ p
  AcceptsOther p _ _ (service_ready s m m' epfd h is_m unready e) = Unit
  AcceptsOther p _ _ (acceptor_ready s m calls is_m waited listening) = Unit
  AcceptsOther p _ _ (events s m registered rounds fds s'' is_m ready is_registered e) = Unit
  AcceptsOther p _ _ (stops_accepting s) = Unit
  AcceptsOther p _ _ (starts_accepting s socket created c e) = Unit
  AcceptsOther p _ _ (connects s q resolved server_ip_addr server_port_no c h fresh e) = Unit

  -- A connection that is accepted has a descriptor that no client of the service has, and `new` gives
  -- an address that is not in use.
  abbrev pub TakesNew : (s s' : System W) → Step s s' → Type 0
  TakesNew _ _ (accepts s p conn c h accepting e) =
      TakesFresh s (record s { controller = c; host = h }) (accepts s p conn c h accepting e)
      × (find p s.host.clients ≡ none)
  TakesNew _ _ (service_ready s m m' epfd h is_m unready e) = Unit
  TakesNew _ _ (acceptor_ready s m calls is_m waited listening) = Unit
  TakesNew _ _ (events s m registered rounds fds s'' is_m ready is_registered e) = Unit
  TakesNew _ _ (stops_accepting s) = Unit
  TakesNew _ _ (starts_accepting s socket created c e) = Unit
  TakesNew _ _ (connects s q resolved server_ip_addr server_port_no c h fresh e) = Unit

  -- A run whose steps all have a property.
  pub data ReachesWith (P : (s s' : System W) → Step s s' → Type 0)
      : System W → System W → Type 0 where
    at_start : (s : System W) → ReachesWith P s s
    one_more :
        (s s' s'' : System W)
        → ReachesWith P s s'
        → (k : Step s' s'') → P s' s'' k
        → ReachesWith P s s''

  pub fresh_too : (s s' : System W) (k : Step s s') → TakesNew s s' k → TakesFresh s s' k
  fresh_too _ _ (accepts s p conn c h accepting e) (fresh, new) = fresh
  fresh_too _ _ (service_ready s m m' epfd h is_m unready e) new = tt
  fresh_too _ _ (acceptor_ready s m calls is_m waited listening) new = tt
  fresh_too _ _ (events s m registered rounds fds s'' is_m ready is_registered e) new = tt
  fresh_too _ _ (stops_accepting s) new = tt
  fresh_too _ _ (starts_accepting s socket created c e) new = tt
  fresh_too _ _ (connects s q resolved server_ip_addr server_port_no c h fresh e) new = tt

  -- A run whose connections are new is one whose connections are fresh.
  pub fresh_run : (s s' : System W) → ReachesWith TakesNew s s' → ReachesWith TakesFresh s s'
  fresh_run _ _ (at_start s) = at_start s
  fresh_run _ _ (one_more s s' s'' r k new) =
      one_more s s' s'' (fresh_run s s' r) k (fresh_too s' s'' k new)
