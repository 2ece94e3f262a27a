-- ===== src/Controller/InOrder.antt =====
-- The invariant of a running server: its two managers of TcpServerController.cpp, the flag of the
-- service and the clients on the heap.
use linux_tcp_server.Base.{
  ap, inl, inr, Bool-cases, ℕ, ◌≡◌, find, ◌∙◌, sym, Bool, true, false, some, [],
}
use mathlib.Core.Bool.{false≢true}
use linux_tcp_server.TcpClient.{TcpClient, holds}
use linux_tcp_server.ClientDb.{Host, TcpClientDbManager, mem}
use linux_tcp_server.Service.{TcpClientServiceManager}
use linux_tcp_server.Service.Isolation.{Tends, IsTended-still}
use linux_tcp_server.Service.Serve.{IsTended}
use linux_tcp_server.Controller.{TcpServerController}
use linux_tcp_server.Controller.Run.{System}
use linux_tcp_server.Controller.Operator.{SameService}

-- What holds of a server that runs: both managers are there and the callbacks are set; the service's
-- clients are in order once it is ready, and before that it has none; the acceptor accepts only when
-- the service is ready. All
-- clients of the service are in the list of all clients.
pub record InOrder {W : Type 0} (s : System W) : Type 0 where
  pub svc : TcpClientServiceManager
  pub db : TcpClientDbManager
  pub has_callback : Bool
  pub is_svc : s.controller.tcp_client_svc_mgr ≡ some svc
  pub is_db : s.controller.tcp_client_db_mgr ≡ some db
  pub is_callback : s.controller.client_connected ≡ holds has_callback
  pub is_registered : s.controller.client_msg_recvd ≡ holds true
  pub tends : svc.is_ready ≡ true → Tends 256 svc s.host
  pub nobody : svc.is_ready ≡ false → svc.tcp_client_db ≡ []
  pub known : (p : ℕ) → mem p svc.tcp_client_db ≡ true → mem p db.tcp_client_db ≡ true
  pub ready_first : s.accepting ≡ true → svc.is_ready ≡ true

-- A system with a service that is ready.
pub ready_system :
    {W : Type 0} (s : System W) (m : TcpClientServiceManager) (db : TcpClientDbManager) (cb : Bool)
    → s.controller.tcp_client_svc_mgr ≡ some m
    → s.controller.tcp_client_db_mgr ≡ some db
    → s.controller.client_connected ≡ holds cb
    → s.controller.client_msg_recvd ≡ holds true
    → m.is_ready ≡ true
    → Tends 256 m s.host
    → ((p : ℕ) → mem p m.tcp_client_db ≡ true → mem p db.tcp_client_db ≡ true)
    → InOrder s
ready_system s m db cb is_svc is_db is_callback is_registered ready t known = record {
  svc = m;
  db = db;
  has_callback = cb;
  is_svc = is_svc;
  is_db = is_db;
  is_callback = is_callback;
  is_registered = is_registered;
  tends = λ e. t;
  nobody = λ e. absurd (false≢true (sym e ∙ ready));
  known = known;
  ready_first = λ e. ready;
}

-- Clients that are still live and the same are still in order.
Tends-same :
    (size : ℕ) (m : TcpClientServiceManager) (h h' : Host)
    → ((q : ℕ) (c : TcpClient) → find q h.clients ≡ some c → find q h'.clients ≡ some c)
    → Tends size m h
    → Tends size m h'
Tends-same size m h h' still t = record {
  epfd = t.epfd;
  has_epoll = t.has_epoll;
  each = λ q there.
      let k : IsTended size h q = t.each q there in
      (IsTended-still size q h h' (still q k.client k.is_client ∙ sym k.is_client) k).0;
}

-- The clients of the service are in order, whether it is ready or not.
pub listed-IsTended :
    {W : Type 0} (s : System W) (o : InOrder s) (q : ℕ)
    → mem q o.svc.tcp_client_db ≡ true
    → IsTended 256 s.host q
listed-IsTended s o q there = elim (Bool-cases o.svc.is_ready) [
  | inl ready ↦ (o.tends ready).each q there
  | inr unready ↦ absurd (false≢true (ap (mem q) (sym (o.nobody unready)) ∙ there))
]

pub listed_live :
    {W : Type 0} (s : System W) (o : InOrder s) (q : ℕ)
    → mem q o.svc.tcp_client_db ≡ true
    → (c : TcpClient) × (find q s.host.clients ≡ some c)
listed_live s o q there = let t = listed-IsTended s o q there in (t.client, t.is_client)

-- A command of the operator that leaves the service alone.
pub same-InOrder :
    {W : Type 0} (s : System W) (c : TcpServerController) (h : Host)
    → SameService s.controller c
    → ((q : ℕ) (d : TcpClient) → find q s.host.clients ≡ some d → find q h.clients ≡ some d)
    → InOrder s
    → InOrder (record s { controller = c; host = h })
same-InOrder s c h same still o =
    let (db, is_db, grows) = same.still_db o.db o.is_db in
    record {
      svc = o.svc;
      db = db;
      has_callback = o.has_callback;
      is_svc = same.same_svc ∙ o.is_svc;
      is_db = is_db;
      is_callback = same.same_connected ∙ o.is_callback;
      is_registered = same.same_msg_recvd ∙ o.is_registered;
      tends = λ ready. Tends-same 256 o.svc s.host h still (o.tends ready);
      nobody = o.nobody;
      known = λ p there. grows p (o.known p there);
      ready_first = o.ready_first;
    }
