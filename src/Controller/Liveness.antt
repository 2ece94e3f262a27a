-- ===== src/Controller/Liveness.antt =====
-- In a server that runs, what a client has sent is delivered by the next event for it, over any run of
-- Controller/Run.
use linux_tcp_server.Base.{
  ℕ, ◌+◌, ◌≤◌, ◌<◌, ◌≡◌, ◌∙◌, ap, sym, subst, true, some, List, [], ◌∷◌, ◌++◌, length, arith, done,
  Returns, some_inj,
}
use linux_tcp_server.Stream.{encode_all, All}
use linux_tcp_server.TcpClient.{holds}
use linux_tcp_server.Receive.Progress.{Socket}
use linux_tcp_server.ClientDb.{mem}
use linux_tcp_server.Service.{TcpClientServiceManager, serve_event}
use linux_tcp_server.Service.Serve.{IsTended}
use linux_tcp_server.Service.Isolation.{Tends, have_fds}
use linux_tcp_server.Service.Arrival.{Delivered, sent_messages_arrive}
use linux_tcp_server.Controller.Run.{System, serving, TakesFresh, ReachesWith}
use linux_tcp_server.Controller.{TcpServerController}
use linux_tcp_server.Controller.Safety.{started_server, initial}
use linux_tcp_server.Controller.Distinct.{started-HasDistinctFds}

framed_fit : (ms : List (List ℕ)) → All (λ x. length x ≤ 254) ms → All (λ x. 2 + length x ≤ 256) ms
framed_fit [] fit = tt
framed_fit (m ∷ ms) (first, fit) = (omega arith, framed_fit ms fit)

-- After a server was constructed and started once and got its callbacks, its two threads take any
-- turns, with the commands that stop and start the acceptance of connections and connect to another
-- server (a second `Start` of the server, `Stop` and disable-client-listen are not among them), in
-- which each accepted connection has a descriptor that no listed client has, and the service is
-- ready. If the bytes in the ring of a listed client and those pending on its socket are the frames
-- of some messages, of at most 254 bytes each, then one event for it, in more rounds than bytes are
-- pending, delivers just these messages for the client, in order; the client stays, with an empty
-- ring.
pub reachable_messages_arrive :
    {W : Type 0} {fd : ℕ} (socket : Socket W fd) (accept_fd ip_addr port_no : ℕ) (name : List ℕ)
    (w : W) (c : TcpServerController) (s : System W) (m : TcpClientServiceManager) (rounds p : ℕ)
    (ms : List (List ℕ)) (t : IsTended 256 s.host p)
    → started_server accept_fd ip_addr port_no name ≡ done c
    → ReachesWith socket.recv (TakesFresh socket.recv) (initial c w) s
    → s.controller.tcp_client_svc_mgr ≡ some m
    → m.is_ready ≡ true
    → mem p m.tcp_client_db ≡ true
    → t.fd ≡ fd
    → length (socket.pending s.world) < rounds
    → t.kept ++ socket.pending s.world ≡ encode_all ms
    → All (λ x. length x ≤ 254) ms
    → Returns
        (serve_event socket.recv rounds true fd (serving s m))
        (Delivered 256 p ms (socket.pending s.world) (serving s m))
reachable_messages_arrive {fd = fd} socket accept_fd ip_addr port_no name w c s m rounds p ms t
      starts reached is_m ready listed is_fd enough sent fit =
    let (o, distinct) =
      started-HasDistinctFds socket.recv socket.bounded accept_fd ip_addr port_no name w c s starts
        reached in
    let same : o.svc ≡ m = some_inj (sym o.is_svc ∙ is_m) in
    let tends : Tends 256 m s.host =
      subst (λ x. Tends 256 x s.host) same (o.tends (ap (λ x. x.is_ready) same ∙ ready)) in
    sent_messages_arrive socket rounds 256 p (serving s m) ms t (have_fds tends) listed is_fd
      (λ q there has.
        distinct m is_m q p fd there listed has (t.client, t.is_client, t.is_fd ∙ ap holds is_fd))
      (omega arith) enough sent (framed_fit ms fit)
