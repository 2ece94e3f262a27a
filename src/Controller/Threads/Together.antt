-- ===== src/Controller/Threads/Together.antt =====
-- Turns of Controller/Threads put together: a connection that is taken in without interruption, and
-- the last two calls for a client that the service of TcpClientServiceManager.cpp gives up.
use linux_tcp_server.Base.{
  ℕ, ◌≡◌, ◌∙◌, ap, refl, false, some, none, find, erase, done, bind_done, bind_at,
}
use linux_tcp_server.Demarcar.{deref}
use linux_tcp_server.TcpClient.{TcpClient, get}
use linux_tcp_server.Receive.{Recv}
use linux_tcp_server.ClientDb.{Host, call, epoll_del, remove}
use linux_tcp_server.Service.{TcpClientServiceManager, remove_client}
use linux_tcp_server.Service.Interest.{watched}
use linux_tcp_server.Service.Serve.{IsTended}
use linux_tcp_server.Controller.Accept.{Connection}
use linux_tcp_server.Controller.Accepted.{all_succeed}
use linux_tcp_server.Controller.Threads.{
  Shared, accepts, processes, leaves, Moves, then_turn, waiting, attending, to_forget, to_remove,
  accept_turn, leaving_turn,
}
use linux_tcp_server.Controller.Threads.Whole.{accept_whole, acceptor_next}
use linux_tcp_server.Controller.Threads.Sound.{IsSound}
use linux_tcp_server.Controller.Threads.Attending.{goes}
use linux_tcp_server.Service.Interest.{Epoll}

remove_client_lem :
    (r : ℕ) (m : TcpClientServiceManager) (h : Host) (x : TcpClient)
    → find r h.clients ≡ some x
    → remove_client r m h
      ≡ done (
        record m { tcp_client_db = remove r m.tcp_client_db },
        record h { clients = erase r h.clients },
      )
unfolding remove_client
remove_client_lem r m h x live = rw live refl

module _ ⦃kernel : Epoll⦄ where
  module _ {W : Type 0} (recv : ℕ → ℕ → W → Recv × W) where
    -- A connection that is taken without interruption, as turns.
    pub whole_turns :
        (s s' s'' : Shared W) (p : ℕ) (conn : Connection)
        → Moves recv s s'
        → s'.acceptor ≡ waiting
        → find p s'.host.clients ≡ none
        → watched conn.comm_sock_fd s'.host.calls ≡ false
        → accept_whole all_succeed p conn s' ≡ done s''
        → Moves recv s s''
    whole_turns s s' s'' p conn r idle new off e =
        let (s1, e1, k1) = bind_done (accept_turn all_succeed p conn s') _ s'' e in
        let (s2, e2, k2) = bind_done (acceptor_next s1) _ s'' k1 in
        let (s3, e3, k3) = bind_done (acceptor_next s2) _ s'' k2 in
        let (s4, e4, k4) = bind_done (acceptor_next s3) _ s'' k3 in
        then_turn s s4 s''
          (then_turn s s3 s4
            (then_turn s s2 s3
              (then_turn s s1 s2 (then_turn s s' s1 r (accepts s' s1 p conn idle new off e1))
                (processes s1 s2 e2))
              (processes s2 s3 e3))
            (processes s3 s4 e4))
          (processes s4 s'' k4)

    -- The last two calls for the client that is given up, as turns.
    pub forgotten_turns :
        (s s' : Shared W) (r fd : ℕ) (o : IsSound s')
        → Moves recv s s'
        → s'.service ≡ to_forget r fd
        → Moves recv s (record s' {
          controller = record s'.controller {
            tcp_client_svc_mgr =
                some (record o.svc { tcp_client_db = remove r o.svc.tcp_client_db });
          };
          host = record (call (epoll_del fd) s'.host) { clients = erase r s'.host.clients };
          service = attending;
        })
    unfolding leaving_turn
    forgotten_turns s s' r fd o reached e =
        then_turn s forgotten _
          (then_turn s s' forgotten reached (
            leaves s' forgotten (
              ap (λ l. leaving_turn l s') e
              ∙ bind_at (deref s'.controller.tcp_client_svc_mgr) _ o.svc _ (ap deref o.is_svc)
                  (bind_at (get o.svc.epfd) _ o.tends.epfd _ (ap get o.tends.has_epoll) refl))))
          (leaves forgotten _ (
            bind_at (deref s'.controller.tcp_client_svc_mgr) _ o.svc _ (ap deref o.is_svc) (
              bind_at (remove_client r o.svc forgotten.host) _ _ _
                (remove_client_lem r o.svc forgotten.host t.client t.is_client) refl)))
      where
        forgotten : Shared W
        forgotten = record s' { host = call (epoll_del fd) s'.host; service = to_remove r }

        t : IsTended 256 s'.host r
        t = o.tends.each r (goes s' _ e o).0
