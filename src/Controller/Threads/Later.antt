-- ===== src/Controller/Threads/Later.antt =====
-- A lost client over all later turns of the threads of Controller/Threads.
use linux_tcp_server.Base.{
  ℕ, ◌≡◌, ◌≢◌, ◌∙◌, ap, sym, subst, refl, true, Option, none, some, List, find-put_other, arith,
  Returns, Returns-bind,
}
use mathlib.Core.Bool.{false≢true}
use linux_tcp_server.TcpClient.{holds_inj}
use linux_tcp_server.Receive.{Recv, drain}
use linux_tcp_server.Receive.Stream.{IsBounded, Serves, drain-Serves}
use linux_tcp_server.Service.{get_client_by_fd}
use linux_tcp_server.Service.Lookup.{HasFd, HasFd-unique, IsFound, get_client_by_fd_lem}
use linux_tcp_server.Service.Interest.{watched}
use linux_tcp_server.Service.Serve.{IsTended}
use linux_tcp_server.Service.Isolation.{have_fds}
use linux_tcp_server.Controller.Threads.{
  Shared, Move, accepts, processes, reports, leaves, event_turn, receive_turn,
}
use linux_tcp_server.Controller.Threads.Sound.{IsSound, deref_returns}
use linux_tcp_server.Controller.Threads.Order.{turn-IsSound}
use linux_tcp_server.Controller.Threads.Lost.{
  IsLost, AreOther-still, HasFd-stored, IsSpared-leaving, quiet_entry,
}
use linux_tcp_server.Controller.Threads.Unserved.{
  accept_turn-IsLost, acceptor_turn-IsLost, leaving_turn-IsLost,
}
use linux_tcp_server.Service.Interest.{Epoll}

module _ ⦃kernel : Epoll⦄ where
  module _ {W : Type 0} (recv : ℕ → ℕ → W → Recv × W) where
    -- No new connection is given the descriptor.
    abbrev IsSparing : ℕ → (s s' : Shared W) → Move recv s s' → Type 0
    IsSparing fd _ _ (accepts s s' q conn waits new off e) = conn.comm_sock_fd ≢ fd
    IsSparing fd _ _ (processes s s' e) = Unit
    IsSparing fd _ _ (reports s s' registered rounds g free on is_registered e) = Unit
    IsSparing fd _ _ (leaves s s' e) = Unit

    pub data MovesSparing (fd : ℕ) : Shared W → Shared W → Type 0 where
      stay : (s : Shared W) → MovesSparing fd s s
      go_on :
          (s s' s'' : Shared W)
          → MovesSparing fd s s'
          → (k : Move recv s' s'') → IsSparing fd s' s'' k
          → MovesSparing fd s s''

  module _ {W : Type 0} (recv : ℕ → ℕ → W → Recv × W)
      (bounded : (fd space : ℕ) (w : W) → IsBounded space (recv fd space w).0) where
    receive_turn-IsLost :
        (p fd : ℕ) (bytes : List ℕ) (rounds g : ℕ) (found : Option ℕ) (s : Shared W) (o : IsSound s)
        → IsLost p fd bytes s
        → watched g s.host.calls ≡ true
        → IsFound s.host g o.svc.tcp_client_db found
        → Returns (receive_turn recv rounds true g found s) (IsLost p fd bytes)
    unfolding receive_turn
    receive_turn-IsLost p fd bytes rounds g none s o lost on found = lost
    receive_turn-IsLost p fd bytes rounds g (some r) s o lost on (there, has) =
        let t : IsTended 256 s.host r = o.tends.each r there in
        rw (t.is_client, t.is_msgd, t.is_fd)
          (Returns-bind (Serves t.kept 256) (IsLost p fd bytes)
            (drain recv rounds true t.fd t.demarcar s.world) _
            (drain-Serves recv bounded rounds t.fd t.demarcar s.world t.kept 256 t.in_order
              t.incomplete (omega arith))
            λ x v. record {
              is_listed = lost.is_listed;
              has_fd = (
                lost.has_fd.0,
                find-put_other r p _ s.host.clients differ ∙ lost.has_fd.1,
                lost.has_fd.2,
              );
              off = lost.off;
              newcomer =
                  AreOther-still p fd s.acceptor s.host _
                    (HasFd-stored s.host r t.client _ t.is_client (sym t.is_fd)) lost.newcomer;
              spared = IsSpared-leaving x.ending p r t.fd g differ;
              quiet = quiet_entry p s.log _ differ ∙ lost.quiet;
            })
      where
        differ : r ≢ p
        differ same = false≢true (
            sym lost.off
            ∙ ap (λ x. watched x s.host.calls)
                (HasFd-unique s.host p fd g lost.has_fd (subst (λ x. HasFd s.host x g) same has))
            ∙ on)

    event_turn-IsLost :
        (p fd : ℕ) (bytes : List ℕ) (rounds g : ℕ) (s : Shared W)
        → IsSound s
        → IsLost p fd bytes s
        → watched g s.host.calls ≡ true
        → Returns (event_turn recv rounds true g s) (IsLost p fd bytes)
    unfolding event_turn
    event_turn-IsLost p fd bytes rounds g s o lost on =
        deref_returns o.svc s.controller.tcp_client_svc_mgr (IsLost p fd bytes) _ o.is_svc (
          Returns-bind (IsFound s.host g o.svc.tcp_client_db) (IsLost p fd bytes)
            (get_client_by_fd s.host g o.svc) _
            (get_client_by_fd_lem s.host g o.svc (have_fds o.tends))
            (λ found. receive_turn-IsLost p fd bytes rounds g found s o lost on))

    turn-IsLost :
        (p fd : ℕ) (bytes : List ℕ) (s s' : Shared W) (k : Move recv s s')
        → IsSparing recv fd s s' k
        → IsSound s
        → IsLost p fd bytes s
        → IsLost p fd bytes s'
    turn-IsLost p fd bytes _ _ (accepts s s' q conn waits new off e) other o lost =
        subst (λ x. Returns x (IsLost p fd bytes)) e
          (accept_turn-IsLost p fd bytes s o lost q conn new other)
    turn-IsLost p fd bytes _ _ (processes s s' e) other o lost =
        subst (λ x. Returns x (IsLost p fd bytes)) e
          (acceptor_turn-IsLost p fd bytes s o lost s.acceptor refl)
    turn-IsLost p fd bytes _ _ (reports s s' registered rounds g free on is_registered e) other o
          lost =
        subst (λ x. Returns x (IsLost p fd bytes))
          (ap (λ x. event_turn recv rounds x g s) (holds_inj (sym o.is_registered ∙ is_registered))
            ∙ e)
          (event_turn-IsLost p fd bytes rounds g s o lost on)
    turn-IsLost p fd bytes _ _ (leaves s s' e) other o lost =
        subst (λ x. Returns x (IsLost p fd bytes)) e
          (leaving_turn-IsLost p fd bytes s o lost s.service refl)

    pub later-IsLost :
        (p fd : ℕ) (bytes : List ℕ) (s s' : Shared W)
        → MovesSparing recv fd s s'
        → IsSound s
        → IsLost p fd bytes s
        → IsSound s' × IsLost p fd bytes s'
    later-IsLost p fd bytes _ _ (stay s) o lost = (o, lost)
    later-IsLost p fd bytes _ _ (go_on s s' s'' r k other) o lost =
        let (o', lost') = later-IsLost p fd bytes s s' r o lost in
        (turn-IsSound recv bounded s' s'' k o', turn-IsLost p fd bytes s' s'' k other o' lost')
