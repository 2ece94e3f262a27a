-- ===== src/Controller/Threads/Started.antt =====
-- From the turns of Controller/Run to those of Controller/Threads: a state of a started server in which
-- both threads wait.
use linux_tcp_server.Base.{ℕ, ◌≡◌, true, List, done}
use linux_tcp_server.Receive.{Recv}
use linux_tcp_server.Receive.Stream.{IsBounded}
use linux_tcp_server.Controller.{TcpServerController}
use linux_tcp_server.Controller.Run.{System, Reaches}
use linux_tcp_server.Controller.InOrder.{InOrder}
use linux_tcp_server.Controller.Safety.{started_server, started-InOrder, initial}
use linux_tcp_server.Controller.Threads.{Shared, waiting, attending}
use linux_tcp_server.Controller.Threads.Sound.{IsSound}
use linux_tcp_server.Service.Interest.{Epoll}

-- The acceptor waits in `accept`, and the service for an event.
abbrev pub both_wait : {W : Type 0} → System W → Shared W
both_wait s = record {
  controller = s.controller;
  host = s.host;
  log = s.log;
  world = s.world;
  acceptor = waiting;
  service = attending;
}

module _ ⦃kernel : Epoll⦄ where
  pub both_wait-IsSound :
      {W : Type 0} (s : System W) → InOrder s → s.accepting ≡ true → IsSound (both_wait s)
  both_wait-IsSound s o accepting = record {
    svc = o.svc;
    db = o.db;
    has_callback = o.has_callback;
    is_svc = o.is_svc;
    is_db = o.is_db;
    is_callback = o.is_callback;
    is_registered = o.is_registered;
    tends = o.tends (o.ready_first accepting);
    arriving = tt;
    going = tt;
  }

  pub started-IsSound :
      {W : Type 0} (recv : ℕ → ℕ → W → Recv × W)
      (bounded : (fd space : ℕ) (w : W) → IsBounded space (recv fd space w).0)
      (accept_fd ip_addr port_no : ℕ) (name : List ℕ) (w : W) (c : TcpServerController)
      (s : System W)
      → started_server accept_fd ip_addr port_no name ≡ done c
      → Reaches recv (initial c w) s
      → s.accepting ≡ true
      → IsSound (both_wait s)
  started-IsSound recv bounded accept_fd ip_addr port_no name w c s starts reached =
      both_wait-IsSound s
        (started-InOrder recv bounded accept_fd ip_addr port_no name w c s starts reached)
