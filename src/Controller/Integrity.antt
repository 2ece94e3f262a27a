-- ===== src/Controller/Integrity.antt =====
-- Over any run of Controller/Run, the application gets from a client what the client has sent.
use linux_tcp_server.Base.{ℕ, ◌≡◌, ◌∙◌, ap, refl, sym, subst, true, some, [], find, some_inj}
use mathlib.Core.Bool.{false≢true}
use linux_tcp_server.Receive.{Recv}
use linux_tcp_server.Receive.Stream.{IsBounded}
use linux_tcp_server.ClientDb.{Host, mem}
use linux_tcp_server.Service.{TcpClientServiceManager}
use linux_tcp_server.Service.Logs.{Continues}
use linux_tcp_server.TcpClient.{holds}
use linux_tcp_server.Controller.{stop_connection_accepting_svc}
use linux_tcp_server.Controller.Accepted.{Accepts}
use linux_tcp_server.Controller.Joining.{others_listed}
use linux_tcp_server.Controller.Run.{
  System, serving, Step, service_ready, acceptor_ready, accepts, events, stops_accepting,
  starts_accepting, connects, AcceptsOther, ReachesWith, at_start, one_more,
}
use linux_tcp_server.Controller.Operator.{
  stop_connection_accepting_svc-SameService, start_conection_acception_svc-SameService,
  create_active_a_client-Connects,
}
use linux_tcp_server.Controller.InOrder.{InOrder, listed-IsTended, listed_live}
use linux_tcp_server.Controller.Turns.{
  gets_ready, takes_in, goes_on, fresh_other, step-InOrder, same_manager,
}
use linux_tcp_server.Controller.Stream.{CutsThrough, quiet-CutsThrough, then-CutsThrough}

-- A step that leaves the manager and the clients alone.
same-CutsThrough :
    {W : Type 0} (p : ℕ) (s s' : System W) (m m' : TcpClientServiceManager)
    → s.controller.tcp_client_svc_mgr ≡ some m
    → s'.controller.tcp_client_svc_mgr ≡ some m'
    → s'.controller.tcp_client_svc_mgr ≡ s.controller.tcp_client_svc_mgr
    → s'.log ≡ s.log
    → (mem p m.tcp_client_db ≡ true → find p s'.host.clients ≡ find p s.host.clients)
    → CutsThrough p s s' m m'
same-CutsThrough p s s' m m' is_m is_m' same same_log still =
    quiet-CutsThrough p s s' m m' same_log
      (λ there. ap (λ x. mem p x.tcp_client_db) (some_inj (sym is_m ∙ sym same ∙ is_m')) ∙ there)
      still

module _ {W : Type 0} (recv : ℕ → ℕ → W → Recv × W)
    (bounded : (fd space : ℕ) (w : W) → IsBounded space (recv fd space w).0) (p : ℕ) where
  turn-CutsThrough :
      (s s' : System W) (k : Step recv s s')
      → AcceptsOther recv p s s' k
      → (o : InOrder s) → (m' : TcpClientServiceManager)
      → s'.controller.tcp_client_svc_mgr ≡ some m'
      → CutsThrough p s s' o.svc m'
  turn-CutsThrough _ _ (service_ready s m m1 epfd h is_m unready e) other o m' is_m' =
      quiet-CutsThrough p s after o.svc m' refl
        (λ there. absurd (
          false≢true (
            ap (mem p) (sym (ap (λ x. x.0.tcp_client_db) ready))
            ∙ ap (λ x. mem p x.tcp_client_db) (some_inj is_m')
            ∙ there)))
        (λ there. ap (λ x. find p x.1.clients) ready)
    where
      after : System W
      after = record s {
        controller = record s.controller { tcp_client_svc_mgr = some m1 };
        host = h;
      }

      ready :
          ◌≡◌ {A = TcpClientServiceManager × Host}
            (m1, h)
            (
              record m { epfd = holds epfd; is_ready = true; max_fd = 0; tcp_client_db = [] },
              s.host,
            )
      ready = gets_ready s m m1 epfd h is_m unready e o
  turn-CutsThrough _ _ (acceptor_ready s m calls is_m waited listening) other o m' is_m' =
      same-CutsThrough p s (record s { accepting = true }) o.svc m' o.is_svc is_m' refl refl
        (λ there. refl)
  turn-CutsThrough _ _ (accepts s q conn c h accepting e) other o m' is_m' =
      quiet-CutsThrough p s (record s { controller = c; host = h }) o.svc m' refl
        (λ there.
          others_listed q p o.svc other
            (ap (λ x. mem p x.tcp_client_db) (some_inj (sym a.in_service ∙ is_m')) ∙ there))
        (λ there. a.others p other)
    where
      a : Accepts q conn o.svc o.db s.controller s.host (c, h)
      a = takes_in s q conn c h accepting e o
  turn-CutsThrough _ _ (events s m registered rounds fds s'' is_m ready is_registered e) other o m'
        is_m' =
      let (fresh, logged, own, quiet) = k.3 in
      subst (λ x. CutsThrough p s after x m') (sym same)
        (subst (λ x. CutsThrough p s after m x) (some_inj is_m')
          (fresh, logged, (λ there. (k.2 p there).0), (λ there t. own p t there), quiet p))
    where
      same : o.svc ≡ m
      same = same_manager s m is_m o

      after : System W
      after = record s {
        controller = record s.controller { tcp_client_svc_mgr = some s''.manager };
        host = s''.host;
        log = s''.log;
        world = s''.world;
      }

      k : Continues 256 (serving s m) s''
      k = goes_on recv bounded s m registered rounds fds s'' is_m ready is_registered e o
  turn-CutsThrough _ _ (stops_accepting s) other o m' is_m' =
      same-CutsThrough p s (record s { controller = stop_connection_accepting_svc s.controller })
        o.svc m' o.is_svc is_m' (stop_connection_accepting_svc-SameService s.controller).same_svc
        refl (λ there. refl)
  turn-CutsThrough _ _ (starts_accepting s socket created c e) other o m' is_m' =
      same-CutsThrough p s (record s { controller = c }) o.svc m' o.is_svc is_m'
        (start_conection_acception_svc-SameService socket created s.controller c e).same_svc refl
        (λ there. refl)
  turn-CutsThrough _ _ (connects s q resolved server_ip_addr server_port_no c h unused e) other o m'
        is_m' =
      let (same, others) =
        create_active_a_client-Connects q resolved server_ip_addr server_port_no s.controller s.host
          (c, h) e in
      same-CutsThrough p s (record s { controller = c; host = h }) o.svc m' o.is_svc is_m'
        same.same_svc refl
        (λ there.
          let (d, is_d) = listed_live s o p there in
          others p (fresh_other s.host q p d unused is_d))

  -- With a `recv` that gives no more bytes than it is asked for: from a server in order, over any
  -- turns of its two threads and the commands that stop and start the acceptance of connections and
  -- connect to another server (a second `Start` of the server, `Stop` and disable-client-listen are
  -- not among them), in which no new connection gets the address `p`, the server stays in order and
  -- the client `p` does not join the list of the service. If it was listed, the messages delivered
  -- for it are the frames of the bytes that its ring held and those received from it since, in
  -- order, each of at most 254 bytes, and its ring holds what is left if it is still listed; if it
  -- was not, nothing is received from it and nothing delivered for it.
  pub reachable_streams :
      (s s' : System W)
      → ReachesWith recv (AcceptsOther recv p) s s'
      → (o : InOrder s) → (o' : InOrder s') × CutsThrough p s s' o.svc o'.svc
  reachable_streams _ _ (at_start s) o =
      (o, quiet-CutsThrough p s s o.svc o.svc refl (λ there. there) (λ there. refl))
  reachable_streams _ _ (one_more s s' s'' r k other) o =
      let (o', first) = reachable_streams s s' r o in
      let o'' = step-InOrder recv bounded s' s'' k o' in
      (
        o'',
        then-CutsThrough p s s' s'' o.svc o'.svc o''.svc first
            (turn-CutsThrough s' s'' k other o' o''.svc o''.is_svc) (listed-IsTended s' o' p),
      )
