-- ===== src/Controller/Distinct.antt =====
-- The descriptors of the clients that TcpClientServiceManager.cpp listens to, over a run in which
-- accept(2) gives descriptors that are not open.
use linux_tcp_server.Base.{
  done, Returns, ℕ, ◌≡◌, ◌≢◌, ◌∙◌, ap, refl, sym, subst, true, some, List, find, ℕ_discrete,
  some_inj,
}
use mathlib.Core.Bool.{false≢true}
use linux_tcp_server.TcpClient.{TcpClient}
use linux_tcp_server.Receive.{Recv}
use linux_tcp_server.Receive.Stream.{IsBounded}
use linux_tcp_server.ClientDb.{Host, mem}
use linux_tcp_server.Service.{TcpClientServiceManager}
use linux_tcp_server.Service.Lookup.{HasFd, HasFd-unique}
use linux_tcp_server.Service.Logs.{Continues}
use linux_tcp_server.Service.Watched.{AreDistinct, fewer-AreDistinct}
use linux_tcp_server.Service
use linux_tcp_server.Acceptor
use linux_tcp_server.Controller
use linux_tcp_server.Controller.{
  TcpServerController, stop_connection_accepting_svc, start, set_server_notif_callbacks, set_bit,
}
use linux_tcp_server.Controller.Safety.{started_server, started_server-InOrder, initial}
use linux_tcp_server.Controller.Accepted.{Accepts}
use linux_tcp_server.Controller.Joining.{others_listed}
use linux_tcp_server.Controller.Run.{
  System, serving, Step, service_ready, acceptor_ready, accepts, events, stops_accepting,
  starts_accepting, connects, TakesFresh, ReachesWith, at_start, one_more,
}
use linux_tcp_server.Controller.Operator.{
  stop_connection_accepting_svc-SameService, start_conection_acception_svc-SameService,
  create_active_a_client-Connects,
}
use linux_tcp_server.Controller.InOrder.{InOrder, listed_live}
use linux_tcp_server.Controller.Turns.{gets_ready, takes_in, goes_on, fresh_other, step-InOrder}

abbrev pub HasDistinctFds : {W : Type 0} → System W → Type 0
HasDistinctFds s =
    (m : TcpClientServiceManager)
    → s.controller.tcp_client_svc_mgr ≡ some m
    → AreDistinct s.host m.tcp_client_db

-- A client with a descriptor that no client of the list has joins it.
joined-AreDistinct :
    (p cfd : ℕ) (h h' : Host) (l l' : List ℕ)
    → ((q : ℕ) → mem q l ≡ true → ¬ HasFd h q cfd)
    → HasFd h' p cfd
    → ((q : ℕ) → p ≢ q → mem q l' ≡ true → mem q l ≡ true)
    → ((q : ℕ) → p ≢ q → find q h'.clients ≡ find q h.clients)
    → AreDistinct h l
    → AreDistinct h' l'
joined-AreDistinct p cfd h h' l l' fresh has listed same distinct q r fd q_in r_in q_has r_has =
    elim (ℕ_discrete p q) [
      | yes p_q ↦ elim (ℕ_discrete p r) [
        | yes p_r ↦ sym p_q ∙ p_r
        | no differ ↦
            absurd (alone r differ r_in fd r_has (subst (λ x. HasFd h' x fd) (sym p_q) q_has))
      ]
      | no differ ↦ elim (ℕ_discrete p r) [
        | yes p_r ↦
            absurd (alone q differ q_in fd q_has (subst (λ x. HasFd h' x fd) (sym p_r) r_has))
        | no differ' ↦
            distinct q r fd (listed q differ q_in) (listed r differ' r_in) (had q differ fd q_has)
              (had r differ' fd r_has)
      ]
    ]
  where
    had : (q : ℕ) → p ≢ q → (g : ℕ) → HasFd h' q g → HasFd h q g
    had q differ g (d, is_d, fd_d) = (d, sym (same q differ) ∙ is_d, fd_d)

    alone : (q : ℕ) → p ≢ q → mem q l' ≡ true → (g : ℕ) → HasFd h' q g → HasFd h' p g → ⊥
    alone q differ there g q_has p_has =
        fresh q (listed q differ there)
          (had q differ cfd (subst (λ x. HasFd h' q x) (HasFd-unique h' p g cfd p_has has) q_has))

-- The service is the same, and its clients are as they were.
kept_manager :
    {W : Type 0} (s : System W) (c : TcpServerController) (h : Host)
    → c.tcp_client_svc_mgr ≡ s.controller.tcp_client_svc_mgr
    → ((q : ℕ) (x : TcpClient)
        → find q s.host.clients ≡ some x
        → find q h.clients ≡ find q s.host.clients)
    → InOrder s
    → HasDistinctFds s
    → HasDistinctFds (record s { controller = c; host = h })
kept_manager s c h same still o distinct m is_m =
    fewer-AreDistinct s.host h m.tcp_client_db m.tcp_client_db
      (λ q there. (
        there,
        (λ g (d, is_d, has).
            let (x, is_x) = listed_live s o q (
              ap (λ x. mem q x.tcp_client_db) (some_inj (sym o.is_svc ∙ sym same ∙ is_m))
              ∙ there) in
            (d, sym (still q x is_x) ∙ is_d, has)),
      ))
      (distinct m (sym same ∙ is_m))

-- A server that was just started lists no client.
pub started_server-HasDistinctFds :
    {W : Type 0} (accept_fd ip_addr port_no : ℕ) (name : List ℕ) (w : W)
    → Returns
        (started_server accept_fd ip_addr port_no name)
        (λ c. InOrder (initial c w) × HasDistinctFds (initial c w))
unfolding Controller.construct start set_server_notif_callbacks set_bit Acceptor.construct
    Acceptor.start_thread Service.start_thread
started_server-HasDistinctFds accept_fd ip_addr port_no name w = (
  started_server-InOrder accept_fd ip_addr port_no name w,
  (λ m is_m q r fd q_in.
      absurd (false≢true (ap (λ x. mem q x.tcp_client_db) (some_inj is_m) ∙ q_in))),
)

module _ {W : Type 0} (recv : ℕ → ℕ → W → Recv × W)
    (bounded : (fd space : ℕ) (w : W) → IsBounded space (recv fd space w).0) where
  pub turn-HasDistinctFds :
      (s s' : System W) (k : Step recv s s')
      → TakesFresh recv s s' k
      → InOrder s
      → HasDistinctFds s
      → HasDistinctFds s'
  turn-HasDistinctFds _ _ (service_ready s m m' epfd h is_m unready e) fresh o distinct =
      λ n is_n q r fd q_in r_in q_has r_has. absurd (
        false≢true (
          ap (mem q) (sym (ap (λ x. x.0.tcp_client_db) (gets_ready s m m' epfd h is_m unready e o)))
          ∙ ap (λ x. mem q x.tcp_client_db) (some_inj is_n)
          ∙ q_in))
  turn-HasDistinctFds _ _ (acceptor_ready s m calls is_m waited listening) fresh o distinct =
      distinct
  turn-HasDistinctFds _ _ (accepts s p conn c h accepting e) fresh o distinct = λ m is_m.
      joined-AreDistinct p conn.comm_sock_fd s.host h o.svc.tcp_client_db m.tcp_client_db
        (fresh o.svc o.is_svc) (a.client, a.is_client, a.is_fd)
        (λ q differ there.
          others_listed p q o.svc differ
            (ap (λ x. mem q x.tcp_client_db) (some_inj (sym a.in_service ∙ is_m)) ∙ there))
        a.others (distinct o.svc o.is_svc)
    where
      a : Accepts p conn o.svc o.db s.controller s.host (c, h)
      a = takes_in s p conn c h accepting e o
  turn-HasDistinctFds _ _ (events s m registered rounds fds s'' is_m ready is_registered e) fresh o
        distinct =
      λ n is_n.
        subst (λ x. AreDistinct s''.host x.tcp_client_db) (some_inj is_n)
          (fewer-AreDistinct s.host s''.host m.tcp_client_db s''.manager.tcp_client_db k.2
            (distinct m is_m))
    where
      k : Continues 256 (serving s m) s''
      k = goes_on recv bounded s m registered rounds fds s'' is_m ready is_registered e o
  turn-HasDistinctFds _ _ (stops_accepting s) fresh o distinct =
      kept_manager s (stop_connection_accepting_svc s.controller) s.host
        (stop_connection_accepting_svc-SameService s.controller).same_svc (λ q c is_c. refl) o
        distinct
  turn-HasDistinctFds _ _ (starts_accepting s socket created c e) fresh o distinct =
      kept_manager s c s.host
        (start_conection_acception_svc-SameService socket created s.controller c e).same_svc
        (λ q d is_d. refl) o distinct
  turn-HasDistinctFds _ _ (connects s p resolved server_ip_addr server_port_no c h unused e) fresh o
        distinct =
      let (same, others) =
        create_active_a_client-Connects p resolved server_ip_addr server_port_no s.controller s.host
          (c, h) e in
      kept_manager s c h same.same_svc (λ q d is_d. others q (fresh_other s.host p q d unused is_d))
        o distinct

  reaches-HasDistinctFds :
      (s s' : System W)
      → ReachesWith recv (TakesFresh recv) s s'
      → InOrder s
      → HasDistinctFds s
      → InOrder s' × HasDistinctFds s'
  reaches-HasDistinctFds _ _ (at_start s) o distinct = (o, distinct)
  reaches-HasDistinctFds _ _ (one_more s s' s'' r k fresh) o distinct =
      let (o', distinct') = reaches-HasDistinctFds s s' r o distinct in
      (step-InOrder recv bounded s' s'' k o', turn-HasDistinctFds s' s'' k fresh o' distinct')

  pub started-HasDistinctFds :
      (accept_fd ip_addr port_no : ℕ) (name : List ℕ) (w : W) (c : TcpServerController)
      (s : System W)
      → started_server accept_fd ip_addr port_no name ≡ done c
      → ReachesWith recv (TakesFresh recv) (initial c w) s
      → InOrder s × HasDistinctFds s
  started-HasDistinctFds accept_fd ip_addr port_no name w c s starts reached =
      let (o, distinct) =
        subst (λ x. Returns x (λ y. InOrder (initial y w) × HasDistinctFds (initial y w))) starts
          (started_server-HasDistinctFds accept_fd ip_addr port_no name w) in
      reaches-HasDistinctFds (initial c w) s reached o distinct
