-- ===== src/Controller/Watched.antt =====
-- What epoll watches while the two threads of the server run: TcpServerController.cpp gives it each new
-- client, and TcpClientServiceManager.cpp takes the clients that leave from it.
use linux_tcp_server.Base.{
  none_not_some, ℕ, ◌≡◌, ◌∙◌, ap, refl, sym, subst, true, Option, none, some, List, [], arith,
  some_inj, done, Returns, Returns-mono,
}
use mathlib.Core.Bool.{false≢true}
use linux_tcp_server.TcpClient.{holds}
use linux_tcp_server.Receive.{Recv}
use linux_tcp_server.Receive.Stream.{IsBounded}
use linux_tcp_server.ClientDb.{Host, mem}
use linux_tcp_server.Service
use linux_tcp_server.Service.{TcpClientServiceManager, get_client_by_fd, serve_events}
use linux_tcp_server.Service.Lookup.{HasFd, HaveFds, IsFound, get_client_by_fd_lem}
use linux_tcp_server.Service.Interest.{watched}
use linux_tcp_server.Service.Watched.{WatchesListed, serve_events-WatchesListed}
use linux_tcp_server.Acceptor
use linux_tcp_server.Controller
use linux_tcp_server.Controller.{
  TcpServerController, stop_connection_accepting_svc, start, set_server_notif_callbacks, set_bit,
}
use linux_tcp_server.Controller.Accepted.{Accepts}
use linux_tcp_server.Controller.Joining.{joined, listed_others}
use linux_tcp_server.Controller.Run.{
  System, serving, Step, service_ready, acceptor_ready, accepts, events, stops_accepting,
  starts_accepting, connects, TakesNew, fresh_too, ReachesWith, at_start, one_more,
}
use linux_tcp_server.Controller.Operator.{
  stop_connection_accepting_svc-SameService, start_conection_acception_svc-SameService,
  create_active_a_client-Connects, create_active_a_client-calls,
}
use linux_tcp_server.Controller.InOrder.{InOrder, listed-IsTended}
use linux_tcp_server.Controller.Safety.{started_server, initial}
use linux_tcp_server.Controller.Turns.{
  same_manager, gets_ready, takes_in, events_bring, fresh_other, step-InOrder,
}
use linux_tcp_server.Controller.Distinct.{
  started_server-HasDistinctFds, HasDistinctFds, turn-HasDistinctFds,
}
use linux_tcp_server.Controller.Interest.{
  HasWatchedFds, joined-WatchesListed, kept_manager, emptied,
}
use linux_tcp_server.Service.Interest.{Epoll}

module _ ⦃kernel : Epoll⦄ where
  module _ {W : Type 0} (recv : ℕ → ℕ → W → Recv × W)
      (bounded : (fd space : ℕ) (w : W) → IsBounded space (recv fd space w).0) where
    turn-HasWatchedFds :
        (s s' : System W) (k : Step recv s s')
        → TakesNew recv s s' k
        → InOrder s
        → HasDistinctFds s
        → HasWatchedFds s
        → HasWatchedFds s'
    turn-HasWatchedFds _ _ (service_ready s m m' epfd h is_m unready e) new o distinct w = λ n is_n.
        subst (λ x. WatchesListed x n.tcp_client_db) (sym (ap (λ x. x.1) (result)))
          (emptied s.host m.tcp_client_db n.tcp_client_db
            (ap (λ x. x.tcp_client_db) (sym same) ∙ o.nobody (ap (λ x. x.is_ready) same ∙ unready))
            (ap (λ x. x.tcp_client_db) (sym (some_inj is_n)) ∙ ap (λ x. x.0.tcp_client_db) result)
            (w m is_m))
      where
        result :
            ◌≡◌ {A = TcpClientServiceManager × Host}
              (m', h)
              (
                record m { epfd = holds epfd; is_ready = true; max_fd = 0; tcp_client_db = [] },
                s.host,
              )
        result = gets_ready s m m' epfd h is_m unready e o

        same : o.svc ≡ m
        same = same_manager s m is_m o
    turn-HasWatchedFds _ _ (acceptor_ready s m calls is_m waited listening) new o distinct w = w
    turn-HasWatchedFds _ _ (accepts s p conn c h accepting e) (fresh, new) o distinct w = λ m is_m.
        subst (λ x. WatchesListed h x.tcp_client_db) (some_inj (sym a.in_service ∙ is_m))
          (joined-WatchesListed p conn.comm_sock_fd s.host h o.svc.tcp_client_db
            (Service.add_client_to_db p o.svc).tcp_client_db
            (λ d is_d. none_not_some (sym new ∙ is_d)) (a.client, a.is_client, a.is_fd)
            (joined p o.svc) (listed_others p o.svc) a.others a.calls (w o.svc o.is_svc))
      where
        a : Accepts p conn o.svc o.db s.controller s.host (c, h)
        a = takes_in s p conn c h accepting e o
    turn-HasWatchedFds _ _ (events s m registered rounds fds s'' is_m ready is_registered e) new o
          distinct w =
        λ n is_n.
          subst (λ x. WatchesListed s''.host x.tcp_client_db) (some_inj is_n)
            (events_bring recv (λ x. WatchesListed x.host x.manager.tcp_client_db) s m registered
              rounds fds s''
              (λ t.
                serve_events-WatchesListed recv bounded rounds 256 fds (serving s m) t (omega arith)
                  (distinct m is_m) (w m is_m))
              is_m ready is_registered e o)
    turn-HasWatchedFds _ _ (stops_accepting s) new o distinct w =
        kept_manager s (stop_connection_accepting_svc s.controller) s.host
          (stop_connection_accepting_svc-SameService s.controller).same_svc refl (λ q c is_c. refl)
          o w
    turn-HasWatchedFds _ _ (starts_accepting s socket created c e) new o distinct w =
        kept_manager s c s.host
          (start_conection_acception_svc-SameService socket created s.controller c e).same_svc refl
          (λ q d is_d. refl) o w
    turn-HasWatchedFds _ _ (connects s p resolved server_ip_addr server_port_no c h unused e) new o
          distinct w =
        let (same, others) =
          create_active_a_client-Connects p resolved server_ip_addr server_port_no s.controller
            s.host (c, h) e in
        kept_manager s c h same.same_svc
          (create_active_a_client-calls p resolved server_ip_addr server_port_no s.controller s.host
            (c, h) e)
          (λ q d is_d. others q (fresh_other s.host p q d unused is_d)) o w

    reaches-HasWatchedFds :
        (s s' : System W)
        → ReachesWith recv (TakesNew recv) s s'
        → InOrder s
        → HasDistinctFds s
        → HasWatchedFds s
        → InOrder s' × HasDistinctFds s' × HasWatchedFds s'
    reaches-HasWatchedFds _ _ (at_start s) o distinct w = (o, distinct, w)
    reaches-HasWatchedFds _ _ (one_more s s' s'' r k new) o distinct w =
        let (o', distinct', w') = reaches-HasWatchedFds s s' r o distinct w in
        (
          step-InOrder recv bounded s' s'' k o',
          turn-HasDistinctFds recv bounded s' s'' k (fresh_too recv s' s'' k new) o' distinct',
          turn-HasWatchedFds s' s'' k new o' distinct' w',
        )

  -- A server that was just started lists no client, and epoll watches nothing.
  started_server-HasWatchedFds :
      {W : Type 0} (accept_fd ip_addr port_no : ℕ) (name : List ℕ) (w : W)
      → Returns (started_server accept_fd ip_addr port_no name) (λ c. HasWatchedFds (initial c w))
  unfolding Controller.construct start set_server_notif_callbacks set_bit Acceptor.construct
      Acceptor.start_thread Service.start_thread
  started_server-HasWatchedFds accept_fd ip_addr port_no name w = λ m is_m. record {
    listed_watched =
        λ q g there. absurd (false≢true (ap (λ x. mem q x.tcp_client_db) (some_inj is_m) ∙ there));
    watched_listed = λ g on. absurd (false≢true (sym (kernel.created g) ∙ on));
  }

  -- A descriptor that is watched is that of a listed client, so the search finds one.
  watched_found :
      (h : Host) (fd : ℕ) (m : TcpClientServiceManager)
      → HaveFds h m.tcp_client_db
      → WatchesListed h m.tcp_client_db
      → watched fd h.calls ≡ true
      → Returns (get_client_by_fd h fd m) (λ r. (p : ℕ) × (r ≡ some p) × HasFd h p fd)
  watched_found h fd m have w on =
      Returns-mono (IsFound h fd m.tcp_client_db) (λ r. (p : ℕ) × (r ≡ some p) × HasFd h p fd)
        (get_client_by_fd h fd m) (get_client_by_fd_lem h fd m have) found
    where
      found :
          (r : Option ℕ) → IsFound h fd m.tcp_client_db r → (p : ℕ) × (r ≡ some p) × HasFd h p fd
      found none nobody =
          let (q, there, has) = w.watched_listed fd on in absurd (nobody q there has)
      found (some p) (there, has) = (p, refl, has)

  -- What a run of a started server keeps.
  pub started_run :
      {W : Type 0} (recv : ℕ → ℕ → W → Recv × W)
      (bounded : (fd space : ℕ) (w : W) → IsBounded space (recv fd space w).0)
      (accept_fd ip_addr port_no : ℕ) (name : List ℕ) (w : W) (c : TcpServerController)
      (s : System W)
      → started_server accept_fd ip_addr port_no name ≡ done c
      → ReachesWith recv (TakesNew recv) (initial c w) s
      → InOrder s × HasDistinctFds s × HasWatchedFds s
  started_run recv bounded accept_fd ip_addr port_no name w c s starts reached =
      let (o, distinct) =
        subst (λ x. Returns x (λ y. InOrder (initial y w) × HasDistinctFds (initial y w))) starts
          (started_server-HasDistinctFds accept_fd ip_addr port_no name w) in
      let watches : HasWatchedFds (initial c w) =
        subst (λ x. Returns x (λ y. HasWatchedFds (initial y w))) starts
          (started_server-HasWatchedFds accept_fd ip_addr port_no name w) in
      reaches-HasWatchedFds recv bounded (initial c w) s reached o distinct watches

  -- With a `recv` that gives no more bytes than it is asked for, and an interest list that follows
  -- the calls as documented: after a server was constructed and started once and got its callbacks,
  -- over any turns of its two threads and the commands that stop and start the acceptance of
  -- connections and connect to another server (a second `Start` of the server, `Stop` and disable-
  -- client-listen are not among them), in which each accepted connection has a descriptor that no
  -- listed client has, at an address not in use, epoll watches just the descriptors of the listed
  -- clients, and for a descriptor that it watches the search of the service finds a client that has
  -- it.
  pub epoll_agrees :
      {W : Type 0} (recv : ℕ → ℕ → W → Recv × W)
      (bounded : (fd space : ℕ) (w : W) → IsBounded space (recv fd space w).0)
      (accept_fd ip_addr port_no : ℕ) (name : List ℕ) (w : W) (c : TcpServerController)
      (s : System W) (m : TcpClientServiceManager)
      → started_server accept_fd ip_addr port_no name ≡ done c
      → ReachesWith recv (TakesNew recv) (initial c w) s
      → s.controller.tcp_client_svc_mgr ≡ some m
      → WatchesListed s.host m.tcp_client_db
        × ((fd : ℕ)
            → watched fd s.host.calls ≡ true
            → Returns
                (get_client_by_fd s.host fd m)
                (λ r. (p : ℕ) × (r ≡ some p) × HasFd s.host p fd))
  epoll_agrees recv bounded accept_fd ip_addr port_no name w c s m starts reached is_m =
      let (o, distinct, watches) =
        started_run recv bounded accept_fd ip_addr port_no name w c s starts reached in
      (
        watches m is_m,
        (λ fd on.
            watched_found s.host fd m
              (λ p there.
                let t =
                  listed-IsTended s o p
                    (ap (λ x. mem p x.tcp_client_db) (same_manager s m is_m o) ∙ there) in
                (t.fd, (t.client, t.is_client, t.is_fd)))
              (watches m is_m) on),
      )
