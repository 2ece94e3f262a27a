-- ===== src/Controller/Threads/Departing.antt =====
-- The turn of Controller/Threads in which the service learns that a peer has closed its connection: the
-- loop over `recv` of TcpClientServiceManager.cpp ends, and `close` is the next call.
use linux_tcp_server.Base.{
  ℕ, suc, ◌<◌, ◌≡◌, ◌≢◌, refl, true, Option, some, [], length, find, find-put_other, Returns,
  Returns-bind,
}
use linux_tcp_server.Receive.{Recv, bytes}
use linux_tcp_server.ClientDb.{mem}
use linux_tcp_server.Service.{TcpClientServiceManager, get_client_by_fd}
use linux_tcp_server.Service.Lookup.{HasFd, IsFound, get_client_by_fd_lem}
use linux_tcp_server.Service.Serve.{IsTended}
use linux_tcp_server.Service.Isolation.{Tends, have_fds}
use linux_tcp_server.Service.Single.{single_found}
use linux_tcp_server.Service.Closing.{drain_closed}
use linux_tcp_server.Controller.Threads.{Shared, to_close, event_turn, receive_turn}
use linux_tcp_server.Controller.Threads.Sound.{deref_returns}

-- The service is about to close the client's descriptor, and the other clients are as they were.
abbrev pub IsLeft : {W : Type 0} → ℕ → ℕ → Shared W → Shared W → Type 0
IsLeft r fd s s' =
    (s'.service ≡ to_close r fd fd)
    × (s'.acceptor ≡ s.acceptor)
    × ((q : ℕ) → r ≢ q → find q s'.host.clients ≡ find q s.host.clients)

module _ {W : Type 0} (recv : ℕ → ℕ → W → Recv × W) (rounds r : ℕ) (s : Shared W)
    (t : IsTended 256 s.host r) (closes : (space : ℕ) → (recv t.fd space s.world).0 ≡ bytes [])
    (space : length t.kept < 256) where
  receive_turn-IsLeft :
      (found : Option ℕ)
      → found ≡ some r
      → Returns (receive_turn recv (suc rounds) true t.fd found s) (IsLeft r t.fd s)
  unfolding receive_turn
  receive_turn-IsLeft found e =
      rw
        (
          e,
          t.is_client,
          t.is_msgd,
          t.is_fd,
          drain_closed recv t.fd rounds s.world t.demarcar t.kept 256 t.in_order closes space,
        )
        (refl, refl, (λ q differ. find-put_other r q _ s.host.clients differ))

  pub event_turn-IsLeft :
      (m : TcpClientServiceManager)
      → s.controller.tcp_client_svc_mgr ≡ some m
      → Tends 256 m s.host
      → mem r m.tcp_client_db ≡ true
      → ((q : ℕ) → mem q m.tcp_client_db ≡ true → HasFd s.host q t.fd → q ≡ r)
      → Returns (event_turn recv (suc rounds) true t.fd s) (IsLeft r t.fd s)
  unfolding event_turn
  event_turn-IsLeft m is_m tends listed alone =
      deref_returns m s.controller.tcp_client_svc_mgr (IsLeft r t.fd s) _ is_m (
        Returns-bind (IsFound s.host t.fd m.tcp_client_db) (IsLeft r t.fd s)
          (get_client_by_fd s.host t.fd m) _ (get_client_by_fd_lem s.host t.fd m (have_fds tends))
          (λ found k. receive_turn-IsLeft found (
            single_found s.host t.fd r m.tcp_client_db listed (t.client, t.is_client, t.is_fd) alone
              found k)))
