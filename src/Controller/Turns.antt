-- ===== src/Controller/Turns.antt =====
-- One turn of a thread, or one command of the operator, keeps a running server in order.
use linux_tcp_server.Base.{
  none_not_some, inl, inr, Bool-cases, ◌||◌, ◌==◌, done_inj, some_inj, ℕ, ◌≡◌, ◌≢◌, none, find, ◌∙◌,
  ap, refl, sym, subst, Bool, true, false, some, List, [], arith, Outcome, done, blocked,
  if◌then◌else◌, Returns,
}
use mathlib.Core.Bool.{false≢true}
use linux_tcp_server.TcpClient.{holds_inj, TcpClient, holds}
use linux_tcp_server.Receive.{Recv}
use linux_tcp_server.Receive.Stream.{IsBounded}
use linux_tcp_server.ClientDb.{Host, TcpClientDbManager, mem}
use linux_tcp_server.ClientDb
use linux_tcp_server.Service
use linux_tcp_server.Service.{
  TcpClientServiceManager, Entry, Serving, start_internal, wait_until_ready, serve_events,
  get_max_fd, watch_all, max_fd_from,
}
use linux_tcp_server.Service.Isolation.{Tends}
use linux_tcp_server.Service.Streams.{serve_events_lem}
use linux_tcp_server.Service.Logs.{Continues}
use linux_tcp_server.Controller.{TcpServerController}
use linux_tcp_server.Controller.Accept.{Connection, accept_client}
use linux_tcp_server.Controller.Run.{
  System, serving, Step, service_ready, acceptor_ready, accepts, events, stops_accepting,
  starts_accepting, connects,
}
use linux_tcp_server.Controller.Operator.{
  stop_connection_accepting_svc-SameService, start_conection_acception_svc-SameService,
  create_active_a_client-Connects,
}
use linux_tcp_server.Controller.Accepted.{all_succeed, Accepts, accept_client_lem}
use linux_tcp_server.Controller.Joining.{mem-last}
use linux_tcp_server.Controller.InOrder.{InOrder, ready_system, same-InOrder}

-- With an empty list the service only gets ready.
start_internal_empty :
    (epfd : ℕ) (m : TcpClientServiceManager) (h : Host)
    → m.tcp_client_db ≡ []
    → start_internal epfd m h
      ≡ done (record m { epfd = holds epfd; is_ready = true; max_fd = 0; tcp_client_db = [] }, h)
unfolding start_internal get_max_fd watch_all max_fd_from
start_internal_empty epfd m h e = rw e refl

returned :
    (b : Bool) → ◌≡◌ {A = Outcome (Unit {0})} (if b then done tt else blocked) (done tt) → b ≡ true
returned true e = refl
returned false e = cc

waited_ready : (m : TcpClientServiceManager) → wait_until_ready m ≡ done tt → m.is_ready ≡ true
unfolding wait_until_ready
waited_ready m e = returned m.is_ready e

add_ready :
    (p : ℕ) (m : TcpClientServiceManager) → (Service.add_client_to_db p m).is_ready ≡ m.is_ready
unfolding Service.add_client_to_db
add_ready p m = refl

or_right : (a b : Bool) → b ≡ true → (a || b) ≡ true
or_right a b e = ground arith

-- An accepted client joins both lists.
known_last :
    (p : ℕ) (m : TcpClientServiceManager) (db : TcpClientDbManager)
    → ((q : ℕ) → mem q m.tcp_client_db ≡ true → mem q db.tcp_client_db ≡ true)
    → (q : ℕ) → mem q (Service.add_client_to_db p m).tcp_client_db ≡ true
    → mem q (ClientDb.add_client_to_db p db).tcp_client_db ≡ true
unfolding Service.add_client_to_db ClientDb.add_client_to_db
known_last p m db known q there = elim (Bool-cases (mem q m.tcp_client_db)) [
  | inl listed ↦ mem-last q p db.tcp_client_db ∙ ap (λ b. b || (p == q)) (known q listed)
  | inr absent ↦
      mem-last q p db.tcp_client_db
      ∙ or_right (mem q db.tcp_client_db) (p == q)
          (ap (λ b. b || (p == q)) (sym absent) ∙ sym (mem-last q p m.tcp_client_db) ∙ there)
]

-- An address that is not in use is not that of a live client.
pub fresh_other :
    (h : Host) (p q : ℕ) (c : TcpClient)
    → find p h.clients ≡ none
    → find q h.clients ≡ some c
    → p ≢ q
fresh_other h p q c fresh is_client same =
    none_not_some (sym fresh ∙ ap (λ x. find x h.clients) same ∙ is_client)

-- The manager that a step finds is that of the invariant.
pub same_manager :
    {W : Type 0} (s : System W) (m : TcpClientServiceManager)
    → s.controller.tcp_client_svc_mgr ≡ some m
    → (o : InOrder s) → o.svc ≡ m
same_manager s m is_m o = some_inj (sym o.is_svc ∙ is_m)

-- What `StartTcpClientServiceManagerThreadInternal` does before its loop.
pub gets_ready :
    {W : Type 0} (s : System W) (m m' : TcpClientServiceManager) (epfd : ℕ) (h : Host)
    → s.controller.tcp_client_svc_mgr ≡ some m
    → m.is_ready ≡ false
    → start_internal epfd m s.host ≡ done (m', h)
    → InOrder s
    → ◌≡◌ {A = TcpClientServiceManager × Host}
        (m', h)
        (record m { epfd = holds epfd; is_ready = true; max_fd = 0; tcp_client_db = [] }, s.host)
gets_ready s m m' epfd h is_m unready e o = done_inj (
    sym e
    ∙ start_internal_empty epfd m s.host
        (sym (ap (λ x. x.tcp_client_db) same) ∙ o.nobody (ap (λ x. x.is_ready) same ∙ unready)))
  where
    same : o.svc ≡ m
    same = same_manager s m is_m o

pub takes_in :
    {W : Type 0} (s : System W) (p : ℕ) (conn : Connection) (c : TcpServerController) (h : Host)
    → s.accepting ≡ true
    → accept_client all_succeed p conn s.controller s.host ≡ done (c, h)
    → (o : InOrder s) → Accepts p conn o.svc o.db s.controller s.host (c, h)
takes_in s p conn c h accepting e o =
    subst (λ x. Returns x (Accepts p conn o.svc o.db s.controller s.host)) e
      (accept_client_lem p conn s.controller s.host o.svc o.db o.has_callback o.is_svc o.is_db
        o.is_callback (o.tends (o.ready_first accepting)))

-- What the events of a step bring, by a law on events for clients in order.
pub events_bring :
    {W : Type 0} (recv : ℕ → ℕ → W → Recv × W) (P : Serving W → Type 0) (s : System W)
    (m : TcpClientServiceManager) (registered : Bool) (rounds : ℕ) (fds : List ℕ) (s' : Serving W)
    → (Tends 256 m s.host → Returns (serve_events recv rounds true fds (serving s m)) P)
    → s.controller.tcp_client_svc_mgr ≡ some m
    → m.is_ready ≡ true
    → s.controller.client_msg_recvd ≡ holds registered
    → serve_events recv rounds registered fds (serving s m) ≡ done s'
    → InOrder s
    → P s'
events_bring recv P s m registered rounds fds s' law is_m ready is_registered e o =
    subst (λ x. Returns x P)
      (ap (λ x. serve_events recv rounds x fds (serving s m)) (sym has_callback) ∙ e)
      (law (subst (λ x. Tends 256 x s.host) same (o.tends (ap (λ x. x.is_ready) same ∙ ready))))
  where
    same : o.svc ≡ m
    same = same_manager s m is_m o

    has_callback : registered ≡ true
    has_callback = holds_inj (sym is_registered ∙ o.is_registered)

pub goes_on :
    {W : Type 0} (recv : ℕ → ℕ → W → Recv × W)
    (bounded : (fd space : ℕ) (w : W) → IsBounded space (recv fd space w).0) (s : System W)
    (m : TcpClientServiceManager) (registered : Bool) (rounds : ℕ) (fds : List ℕ) (s' : Serving W)
    → s.controller.tcp_client_svc_mgr ≡ some m
    → m.is_ready ≡ true
    → s.controller.client_msg_recvd ≡ holds registered
    → serve_events recv rounds registered fds (serving s m) ≡ done s'
    → InOrder s
    → Continues 256 (serving s m) s'
goes_on recv bounded s m registered rounds fds s' =
    events_bring recv (Continues 256 (serving s m)) s m registered rounds fds s'
      (λ t. serve_events_lem recv bounded rounds 256 fds (serving s m) t (omega arith))

module _ {W : Type 0} (recv : ℕ → ℕ → W → Recv × W)
    (bounded : (fd space : ℕ) (w : W) → IsBounded space (recv fd space w).0) where
  pub step-InOrder : (s s' : System W) → Step recv s s' → InOrder s → InOrder s'
  step-InOrder _ _ (service_ready s m m' epfd h is_m unready e) o =
      ready_system _ m' o.db o.has_callback refl o.is_db o.is_callback o.is_registered
        (ap (λ x. x.0.is_ready) result)
        (record {
          epfd = epfd;
          has_epoll = ap (λ x. x.0.epfd) result;
          each = λ p there.
              absurd (false≢true (ap (mem p) (sym (ap (λ x. x.0.tcp_client_db) result)) ∙ there));
        })
        (λ p there.
          absurd (false≢true (ap (mem p) (sym (ap (λ x. x.0.tcp_client_db) result)) ∙ there)))
    where
      result :
          ◌≡◌ {A = TcpClientServiceManager × Host}
            (m', h)
            (
              record m { epfd = holds epfd; is_ready = true; max_fd = 0; tcp_client_db = [] },
              s.host,
            )
      result = gets_ready s m m' epfd h is_m unready e o
  step-InOrder _ _ (acceptor_ready s m calls is_m waited listening) o = record {
    svc = o.svc;
    db = o.db;
    has_callback = o.has_callback;
    is_svc = o.is_svc;
    is_db = o.is_db;
    is_callback = o.is_callback;
    is_registered = o.is_registered;
    tends = o.tends;
    nobody = o.nobody;
    known = o.known;
    ready_first =
        λ accepting. ap (λ x. x.is_ready) (some_inj (sym o.is_svc ∙ is_m)) ∙ waited_ready m waited;
  }
  step-InOrder _ _ (accepts s p conn c h accepting e) o =
      ready_system _ (Service.add_client_to_db p o.svc) (ClientDb.add_client_to_db p o.db)
        o.has_callback a.in_service a.in_db (a.same_connected ∙ o.is_callback)
        (a.same_msg_recvd ∙ o.is_registered) (add_ready p o.svc ∙ o.ready_first accepting) a.tends
        (known_last p o.svc o.db o.known)
    where
      a : Accepts p conn o.svc o.db s.controller s.host (c, h)
      a = takes_in s p conn c h accepting e o
  step-InOrder _ _ (events s m registered rounds fds s'' is_m ready is_registered e) o =
      ready_system _ s''.manager o.db o.has_callback refl o.is_db o.is_callback o.is_registered
        (k.1 ∙ ready) k.0
        (λ q there.
          o.known q (ap (λ x. mem q x.tcp_client_db) (same_manager s m is_m o) ∙ (k.2 q there).0))
    where
      k : Continues 256 (serving s m) s''
      k = goes_on recv bounded s m registered rounds fds s'' is_m ready is_registered e o
  step-InOrder _ _ (stops_accepting s) o =
      same-InOrder s _ s.host (stop_connection_accepting_svc-SameService s.controller)
        (λ q c is_client. is_client) o
  step-InOrder _ _ (starts_accepting s socket created c e) o =
      same-InOrder s c s.host
        (start_conection_acception_svc-SameService socket created s.controller c e)
        (λ q d is_client. is_client) o
  step-InOrder _ _ (connects s p resolved server_ip_addr server_port_no c h fresh e) o =
      let (same, others) =
        create_active_a_client-Connects p resolved server_ip_addr server_port_no s.controller s.host
          (c, h) e in
      same-InOrder s c h same
        (λ q d is_client. others q (fresh_other s.host p q d fresh is_client) ∙ is_client) o
