-- ===== src/Controller/Safety.antt =====
-- A server that runs: whatever turns its two threads take, neither of them fails.
use linux_tcp_server.Base.{
  ℕ, ◌≡◌, refl, subst, true, false, some, List, [], arith, Outcome, done, ◌>>=◌, Returns,
}
use mathlib.Core.Bool.{false≢true}
use linux_tcp_server.Receive.{Recv}
use linux_tcp_server.Receive.Stream.{IsBounded}
use linux_tcp_server.ClientDb.{Host, TcpClientDbManager, mem}
use linux_tcp_server.ClientDb
use linux_tcp_server.Service
use linux_tcp_server.Service.{
  TcpClientServiceManager, Entry, Serving, start_internal, wait_until_ready, serve_events,
  get_max_fd, watch_all, max_fd_from,
}
use linux_tcp_server.Service.Streams.{serve_events_lem}
use linux_tcp_server.Service.Logs.{Continues}
use linux_tcp_server.Acceptor
use linux_tcp_server.Acceptor.{SocketCalls, set_up}
use linux_tcp_server.Controller
use linux_tcp_server.Controller.{TcpServerController, start, set_server_notif_callbacks, set_bit}
use linux_tcp_server.Controller.Accept.{Connection, accept_client}
use linux_tcp_server.Controller.Run.{System, serving, Reaches, here, further}
use linux_tcp_server.Controller.Accepted.{all_succeed, Accepts, accept_client_lem}
use linux_tcp_server.Controller.InOrder.{InOrder}
use linux_tcp_server.Controller.Turns.{step-InOrder}

-- The server's construction, start and callbacks, if all calls of the system succeed.
abbrev pub started_server : ℕ → ℕ → ℕ → List ℕ → Outcome TcpServerController
started_server accept_fd ip_addr port_no name = do
  c ← Controller.construct (some accept_fd) ip_addr port_no name
  c' ← start true c
  done (set_server_notif_callbacks true true true c')

-- The started server before the turns of its threads.
abbrev pub initial : {W : Type 0} → TcpServerController → W → System W
initial c w = record {
  controller = c;
  host = record { clients = []; calls = [] };
  accepting = false;
  log = [];
  world = w;
}

-- A server that was constructed and started and has its callbacks is in order.
pub started_server-InOrder :
    {W : Type 0} (accept_fd ip_addr port_no : ℕ) (name : List ℕ) (w : W)
    → Returns (started_server accept_fd ip_addr port_no name) (λ c. InOrder (initial c w))
unfolding Controller.construct start set_server_notif_callbacks set_bit Acceptor.construct
    Acceptor.start_thread Service.start_thread
started_server-InOrder accept_fd ip_addr port_no name w = record {
  svc = record Service.construct { client_svc_mgr_thread = some Service.started };
  db = ClientDb.construct;
  has_callback = true;
  is_svc = refl;
  is_db = refl;
  is_callback = refl;
  is_registered = refl;
  tends = λ e. absurd (false≢true e);
  nobody = λ e. refl;
  known = λ p there. there;
  ready_first = λ e. absurd (false≢true e);
}

module _ {W : Type 0} (recv : ℕ → ℕ → W → Recv × W)
    (bounded : (fd space : ℕ) (w : W) → IsBounded space (recv fd space w).0) where
  reaches-InOrder : (s s' : System W) → Reaches recv s s' → InOrder s → InOrder s'
  reaches-InOrder _ _ (here s) o = o
  reaches-InOrder _ _ (further s s' s'' r k) o =
      step-InOrder recv bounded s' s'' k (reaches-InOrder s s' r o)

  pub started-InOrder :
      (accept_fd ip_addr port_no : ℕ) (name : List ℕ) (w : W) (c : TcpServerController)
      (s : System W)
      → started_server accept_fd ip_addr port_no name ≡ done c
      → Reaches recv (initial c w) s
      → InOrder s
  started-InOrder accept_fd ip_addr port_no name w c s starts reached =
      reaches-InOrder (initial c w) s reached (
        subst (λ x. Returns x (λ y. InOrder (initial y w))) starts
          (started_server-InOrder accept_fd ip_addr port_no name w))

  -- With a `recv` that gives no more bytes than it is asked for: after a server was constructed and
  -- started once and got its callbacks, in every state that its two threads reach with the commands
  -- that stop and start the acceptance of connections and connect to another server (a second
  -- `Start` of the server, `Stop` and disable-client-listen are not among them), once the service
  -- is ready any events are handled, and once the acceptor accepts any connection is taken in if
  -- the allocations for it succeed: neither thread faults, waits for a mutex of its own, or ends
  -- the process. The state is in order.
  pub reachable_returns :
      (accept_fd ip_addr port_no : ℕ) (name : List ℕ) (w : W) (c : TcpServerController)
      (s : System W)
      → started_server accept_fd ip_addr port_no name ≡ done c
      → Reaches recv (initial c w) s
      → (o : InOrder s) × (o.svc.is_ready ≡ true
          → (rounds : ℕ) (fds : List ℕ)
          → Returns
              (serve_events recv rounds true fds (serving s o.svc))
              (Continues 256 (serving s o.svc)))
        × (s.accepting ≡ true
            → (p : ℕ) (conn : Connection)
            → Returns
                (accept_client all_succeed p conn s.controller s.host)
                (Accepts p conn o.svc o.db s.controller s.host))
  reachable_returns accept_fd ip_addr port_no name w c s starts reached = (
    k,
    (λ ready rounds fds.
        serve_events_lem recv bounded rounds 256 fds (serving s k.svc) (k.tends ready)
          (omega arith)),
    (λ accepting p conn.
        accept_client_lem p conn s.controller s.host k.svc k.db k.has_callback k.is_svc k.is_db
          k.is_callback (k.tends (k.ready_first accepting))),
  )
    where
      k : InOrder s
      k = started-InOrder accept_fd ip_addr port_no name w c s starts reached
