-- ===== src/Controller/Disconnect.antt =====
-- What a peer that closes its connection leaves behind in a running server: the client is deleted by
-- TcpClientServiceManager.cpp and stays in the list of TcpClientDBManager.cpp, which Stop of
-- TcpServerController.cpp goes through.
use linux_tcp_server.Base.{
  List, done, ℕ, suc, ◌<◌, ◌≡◌, ◌∙◌, ap, refl, sym, subst, true, none, some, [], length, find,
  fault, Returns, Returns-mono, some_inj,
}
use linux_tcp_server.Receive.{Recv, bytes}
use linux_tcp_server.Receive.Stream.{IsBounded}
use linux_tcp_server.ClientDb.{Platform, Host, TcpClientDbManager, mem, display_client_db}
use linux_tcp_server.ClientDb.Dangling.{purge_dangling}
use linux_tcp_server.Service.{TcpClientServiceManager, serve_event}
use linux_tcp_server.Service.Serve.{IsTended}
use linux_tcp_server.Service.Isolation.{Tends, have_fds}
use linux_tcp_server.Service.Dangling.{display_all_dangling}
use linux_tcp_server.Service.Closing.{Closed, closed_lem}
use linux_tcp_server.Controller.{TcpServerController, stop}
use linux_tcp_server.Controller.Shutdown.{stop_faults}
use linux_tcp_server.Controller.Run.{System, serving, TakesFresh, ReachesWith}
use linux_tcp_server.Controller.Distinct.{HasDistinctFds, started-HasDistinctFds}
use linux_tcp_server.Controller.Safety.{started_server, initial}
use linux_tcp_server.Controller.InOrder.{InOrder}

-- The controller with the service manager that the event left.
abbrev pub with_manager : TcpServerController → TcpClientServiceManager → TcpServerController
with_manager c m = record c { tcp_client_svc_mgr = some m }

display_dangling :
    (p : ℕ) (db : TcpClientDbManager) (h : Host)
    → mem p db.tcp_client_db ≡ true
    → find p h.clients ≡ none
    → display_client_db h db ≡ fault
unfolding display_client_db
display_dangling p db h there gone = display_all_dangling h p db.tcp_client_db gone there

module _ {W : Type 0} (recv : ℕ → ℕ → W → Recv × W)
    (bounded : (fd space : ℕ) (w : W) → IsBounded space (recv fd space w).0) where
  -- With a `recv` that gives no more bytes than it is asked for, after a server was constructed and
  -- started once and got its callbacks, in any state with the service ready that its two threads
  -- reach with the commands that stop and start the acceptance of connections and connect to
  -- another server (a second `Start` of the server, `Stop` and disable-client-listen are not among
  -- them), if each accepted connection has a descriptor that no listed client has: if the next
  -- `recv` for a listed client, whose ring is not full, gives the end of the stream, then the event
  -- for it returns, and after it `Stop` of the server is undefined on any platform, also one that
  -- lets the rwlock and the reads through the end of a list pass, and so is the display of the list
  -- of all clients.
  pub disconnect_breaks_stop :
      (accept_fd ip_addr port_no : ℕ) (name : List ℕ) (w : W) (c : TcpServerController)
      (s : System W) (m : TcpClientServiceManager) (rounds p : ℕ) (t : IsTended 256 s.host p)
      → started_server accept_fd ip_addr port_no name ≡ done c
      → ReachesWith recv (TakesFresh recv) (initial c w) s
      → s.controller.tcp_client_svc_mgr ≡ some m
      → m.is_ready ≡ true
      → mem p m.tcp_client_db ≡ true
      → length t.kept < 256
      → ((space : ℕ) → (recv t.fd space s.world).0 ≡ bytes [])
      → Returns (serve_event recv (suc rounds) true t.fd (serving s m)) (λ e.
        ((u : Platform) → stop u (with_manager s.controller e.manager) e.host ≡ fault)
        × ((db : TcpClientDbManager)
            → s.controller.tcp_client_db_mgr ≡ some db
            → display_client_db e.host db ≡ fault))
  disconnect_breaks_stop accept_fd ip_addr port_no name w c s m rounds p t starts reached is_m ready
        listed space closes =
      Returns-mono (Closed p t.fd (serving s m)) _
        (serve_event recv (suc rounds) true t.fd (serving s m))
        (closed_lem recv t.fd rounds 256 p tends.epfd (serving s m) t closes refl tends.has_epoll
          space (have_fds tends) listed
          (λ q there has. both.1 m is_m q p t.fd there listed has (t.client, t.is_client, t.is_fd)))
        (λ e (less, gone, called, logged). (
          (λ u.
              stop_faults u (with_manager s.controller e.manager) e.host o.db o.is_db
                (purge_dangling u p o.db e.host known gone)),
          (λ db is_db.
              display_dangling p db e.host
                (ap (λ x. mem p x.tcp_client_db) (some_inj (sym is_db ∙ o.is_db)) ∙ known) gone),
        ))
    where
      both : InOrder s × HasDistinctFds s
      both = started-HasDistinctFds recv bounded accept_fd ip_addr port_no name w c s starts reached

      o : InOrder s
      o = both.0

      same : o.svc ≡ m
      same = some_inj (sym o.is_svc ∙ is_m)

      tends : Tends 256 m s.host
      tends = subst (λ x. Tends 256 x s.host) same (o.tends (ap (λ x. x.is_ready) same ∙ ready))

      known : mem p o.db.tcp_client_db ≡ true
      known = o.known p (ap (λ x. mem p x.tcp_client_db) same ∙ listed)
