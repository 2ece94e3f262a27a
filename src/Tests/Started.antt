-- ===== src/Tests/Started.antt =====
-- A server that was constructed and started, with the runs in which its threads get ready and it gets
-- a client.
use linux_tcp_server.Base.{
  ℕ, ◌≡◌, ◌∙◌, ap, subst, some_inj, refl, true, some, List, done, Returns, codes,
}
use mathlib.Core.Bool.{false≢true}
use linux_tcp_server.Receive.{Recv}
use linux_tcp_server.ClientDb.{Host, mem}
use linux_tcp_server.Service
use linux_tcp_server.Service.{
  TcpClientServiceManager, start_internal, watch_all, get_max_fd, max_fd_from, wait_until_ready,
}
use linux_tcp_server.Acceptor
use linux_tcp_server.Acceptor.{SocketCalls, set_up}
use linux_tcp_server.Controller
use linux_tcp_server.Controller.{TcpServerController, start, set_server_notif_callbacks, set_bit}
use linux_tcp_server.Controller.Accept.{accept_client}
use linux_tcp_server.Controller.Accepted.{all_succeed, Accepts, accept_client_lem}
use linux_tcp_server.Controller.Run.{
  System, fresh_run, TakesFresh, Reaches, here, further, TakesNew, service_ready, acceptor_ready,
  accepts, ReachesWith, at_start, one_more,
}
use linux_tcp_server.Controller.Safety.{started_server, initial}
use linux_tcp_server.Tests.Samples.{replay, value_of, returns_value}
use linux_tcp_server.Tests.Servers.{server, svc, conn, empty_host, no_clients, tends}

abbrev unready_svc : TcpClientServiceManager
unready_svc = record svc { epfd = Service.construct.epfd; is_ready = Service.construct.is_ready }

abbrev all_calls : SocketCalls
all_calls = record { reuse_addr = true; reuse_port = true; bind = true; listen = true }

-- A server that was constructed and started.
abbrev pub fresh_server : TcpServerController
fresh_server = record server { tcp_client_svc_mgr = some unready_svc }

pub starts : started_server 4 2130706433 40000 (codes "server") ≡ done fresh_server
unfolding Controller.construct start set_server_notif_callbacks set_bit Acceptor.construct
    Acceptor.start_thread Service.start_thread
starts = refl

abbrev pub unready : List ℕ → System (List ℕ)
unready w = initial fresh_server w

abbrev ready : List ℕ → System (List ℕ)
ready w = record (unready w) { controller = record fresh_server { tcp_client_svc_mgr = some svc } }

abbrev pub accepting : List ℕ → System (List ℕ)
accepting w = record (ready w) { accepting = true }

abbrev pub taken : TcpServerController × Host
taken = value_of (accept_client all_succeed 100 conn server empty_host) (server, empty_host)

abbrev pub with_one : List ℕ → System (List ℕ)
with_one w = record (accepting w) { controller = taken.0; host = taken.1 }

accepts_one : accept_client all_succeed 100 conn server empty_host ≡ done taken
accepts_one =
    returns_value (Accepts 100 conn svc no_clients server empty_host)
      (accept_client all_succeed 100 conn server empty_host) (server, empty_host)
      (accept_client_lem 100 conn server empty_host svc no_clients true refl refl refl tends)

pub is_taken : Accepts 100 conn svc no_clients server empty_host taken
is_taken =
    subst (λ x. Returns x (Accepts 100 conn svc no_clients server empty_host)) accepts_one
      (accept_client_lem 100 conn server empty_host svc no_clients true refl refl refl tends)

-- The runs that lead to these states.
module _ (recv : ℕ → ℕ → List ℕ → Recv × List ℕ) (w : List ℕ) where
  pub starts_to_accept : Reaches recv (unready w) (accepting w)
  unfolding start_internal watch_all get_max_fd max_fd_from wait_until_ready set_up
  starts_to_accept =
      further (unready w) (ready w) (accepting w)
        (further (unready w) (unready w) (ready w) (here (unready w))
          (service_ready (unready w) unready_svc svc 3 empty_host refl refl refl))
        (acceptor_ready (ready w) svc all_calls refl refl refl)

  pub run : ReachesWith recv (TakesNew recv) (unready w) (with_one w)
  unfolding start_internal watch_all get_max_fd max_fd_from wait_until_ready set_up
  run =
      one_more (unready w) (accepting w) (with_one w)
        (one_more (unready w) (ready w) (accepting w)
          (one_more (unready w) (unready w) (ready w) (at_start (unready w))
            (service_ready (unready w) unready_svc svc 3 empty_host refl refl refl) tt)
          (acceptor_ready (ready w) svc all_calls refl refl refl) tt)
        (accepts (accepting w) 100 conn taken.0 taken.1 refl accepts_one)
        (
          (λ m is_m q there.
              absurd (false≢true (ap (λ x. mem q x.tcp_client_db) (some_inj is_m) ∙ there))),
          refl,
        )

  -- The same, of which it is only said that the descriptor is fresh.
  pub run_fresh : ReachesWith recv (TakesFresh recv) (unready w) (with_one w)
  run_fresh = fresh_run recv (unready w) (with_one w) run
