-- ===== src/Controller/Threads/Reused.antt =====
-- A descriptor is closed before it is deleted from epoll: both branches of the event loop of
-- TcpClientServiceManager.cpp give it back to the kernel while calls for it are still to come.
use linux_tcp_server.Base.{
  List, [], length, ◌<◌, subst, true, ℕ, ◌≡◌, ◌≢◌, ◌∙◌, ap, sym, refl, false, some, none, find,
  find-erase_other, done, some_inj, none_not_some, bind_at, Returns-done,
}
use linux_tcp_server.TcpClient.{holds}
use linux_tcp_server.Receive.{Recv, bytes}
use linux_tcp_server.Receive.Stream.{IsBounded}
use linux_tcp_server.ClientDb.{mem, call, close}
use linux_tcp_server.Service.{TcpClientServiceManager}
use linux_tcp_server.Service.Interest.{watched, watched-del_same, watched-close_same}
use linux_tcp_server.Service.Watched.{other_mem}
use linux_tcp_server.Service.Serve.{IsTended}
use linux_tcp_server.Service.Lookup.{HasFd}
use linux_tcp_server.Service.Isolation.{Tends}
use linux_tcp_server.Controller.{TcpServerController}
use linux_tcp_server.Controller.Run.{System, TakesNew, ReachesWith}
use linux_tcp_server.Controller.Safety.{started_server, initial}
use linux_tcp_server.Controller.Watched.{started_run}
use linux_tcp_server.Controller.Threads.Started.{both_wait, both_wait-IsSound}
use linux_tcp_server.Controller.Threads.Departing.{IsLeft, event_turn-IsLeft}
use linux_tcp_server.Controller.Accept.{Connection, accept_client}
use linux_tcp_server.Controller.Accepted.{all_succeed, Accepts, accept_client_lem}
use linux_tcp_server.Controller.Joining.{joined}
use linux_tcp_server.Controller.Threads.{
  Shared, reports, event_turn, leaves, Moves, at_rest, then_turn, waiting, attending, to_close,
  to_forget, leaving_turn,
}
use linux_tcp_server.Controller.Threads.Whole.{accept_whole-eq}
use linux_tcp_server.Controller.Threads.Sound.{IsSound}
use linux_tcp_server.Controller.Threads.Attending.{goes}
use linux_tcp_server.Service.Isolation.{received_from}
use linux_tcp_server.Controller.Threads.Lost.{IsLost}
use linux_tcp_server.Controller.Threads.Later.{MovesSparing, later-IsLost}
use linux_tcp_server.Controller.Threads.Order.{turns-IsSound}
use linux_tcp_server.Service.Interest.{Epoll}
use linux_tcp_server.Controller.Threads.Together.{whole_turns, forgotten_turns}

module _ ⦃kernel : Epoll⦄ where
  module _ {W : Type 0} (recv : ℕ → ℕ → W → Recv × W) where
    module _ (bounded : (fd space : ℕ) (w : W) → IsBounded space (recv fd space w).0) where
      -- The service is about to close the descriptor of a client, and the acceptor waits.
      starves_when_closing :
          (s0 s : Shared W) (r fd p : ℕ) (conn : Connection)
          → IsSound s0
          → Moves recv s0 s
          → s.service ≡ to_close r fd fd
          → s.acceptor ≡ waiting
          → find p s.host.clients ≡ none
          → conn.comm_sock_fd ≡ fd
          → (s' : Shared W) × Moves recv s0 s'
            × (s'.acceptor ≡ waiting)
            × (s'.service ≡ attending)
            × ((s'' : Shared W)
                → MovesSparing recv fd s' s''
                → IsSound s'' × IsLost p fd (received_from p s'.log) s'')
      unfolding leaving_turn
      starves_when_closing s0 s r fd p conn o0 led closing idle new same_fd =
          let (x, ran, a) =
            Returns-done (Accepts p conn k.svc k.db shut.controller shut.host)
              (accept_client all_succeed p conn shut.controller shut.host)
              (accept_client_lem p conn shut.controller shut.host k.svc k.db k.has_callback k.is_svc
                k.is_db k.is_callback k.tends) in
          let taken : Shared W = record shut { controller = x.0; host = x.1; acceptor = waiting } in
          let reached : Moves recv s0 taken =
            whole_turns recv s0 shut taken p conn shut_turns idle new off
              (accept_whole-eq all_succeed p conn shut ∙ bind_at _ _ x _ ran refl) in
          let l : IsSound taken = turns-IsSound recv bounded s0 taken reached o0 in
          let ended : Moves recv s0 _ = forgotten_turns recv s0 taken r fd l reached refl in
          (
            _,
            ended,
            refl,
            refl,
            (λ s'' later.
                later-IsLost recv bounded p fd _ _ s'' later
                  (turns-IsSound recv bounded s0 _ ended o0)
                  (record {
                    is_listed = λ m is_m.
                        ap (λ n. mem p n.tcp_client_db) (sym (some_inj is_m))
                        ∙ other_mem r p l.svc.tcp_client_db differ
                        ∙ ap (λ n. mem p n.tcp_client_db) (some_inj (sym l.is_svc ∙ a.in_service))
                        ∙ joined p k.svc;
                    has_fd = (
                      a.client,
                      find-erase_other r p x.1.clients differ ∙ a.is_client,
                      a.is_fd ∙ ap (λ y. holds y) same_fd,
                    );
                    off = watched-del_same fd x.1.calls;
                    newcomer = tt;
                    spared = tt;
                    quiet = refl;
                  })),
          )
        where
          o : IsSound s
          o = turns-IsSound recv bounded s0 s led o0

          shut : Shared W
          shut = record s { host = call (close fd) s.host; service = to_forget r fd }

          shut_turns : Moves recv s0 shut
          shut_turns = then_turn s0 s shut led (leaves s shut (ap (λ l. leaving_turn l s) closing))

          k : IsSound shut
          k = turns-IsSound recv bounded s0 shut shut_turns o0

          off : watched conn.comm_sock_fd shut.host.calls ≡ false
          off = ap (λ y. watched y shut.host.calls) same_fd ∙ watched-close_same fd s.host.calls

          differ : r ≢ p
          differ same = none_not_some (
              sym new
              ∙ ap (λ y. find y s.host.clients) (sym same)
              ∙ (o.tends.each r (goes s _ closing o).0).is_client)

      -- With a `recv` that gives no more bytes than it is asked for, and an interest list that
      -- follows the calls as documented: after a server was constructed and started and got its
      -- callbacks, over any turns in which each accepted connection has a descriptor that no listed
      -- client has, at an address not in use, when the acceptor accepts and both threads wait: if the
      -- peer of a listed client whose ring is not full has closed its connection, and the next
      -- connection gets that client's descriptor and an address that is not in use, there are turns of
      -- the two threads to a state in which both wait again, such that after any further turns in
      -- which no new connection is given the descriptor, the state is sound, the new client is in the
      -- service's list with the descriptor, epoll does not watch it, and no more bytes were received
      -- from the client than in that state.
      pub reused_descriptor_starves :
          (accept_fd ip_addr port_no : ℕ) (name : List ℕ) (w : W) (c : TcpServerController)
          (s : System W) (m : TcpClientServiceManager) (r p : ℕ) (conn : Connection)
          (t : IsTended 256 s.host r)
          → started_server accept_fd ip_addr port_no name ≡ done c
          → ReachesWith recv (TakesNew recv) (initial c w) s
          → s.accepting ≡ true
          → s.controller.tcp_client_svc_mgr ≡ some m
          → mem r m.tcp_client_db ≡ true
          → ((space : ℕ) → (recv t.fd space s.world).0 ≡ bytes [])
          → length t.kept < 256
          → find p s.host.clients ≡ none
          → conn.comm_sock_fd ≡ t.fd
          → (s' : Shared W) × Moves recv (both_wait s) s'
            × (s'.acceptor ≡ waiting)
            × (s'.service ≡ attending)
            × ((s'' : Shared W)
                → MovesSparing recv t.fd s' s''
                → IsSound s'' × IsLost p t.fd (received_from p s'.log) s'')
      reused_descriptor_starves accept_fd ip_addr port_no name w c s m r p conn t starts reached
            accepting is_m listed closes space new same_fd =
          let (o, distinct, watches) =
            started_run recv bounded accept_fd ip_addr port_no name w c s starts reached in
          let o0 : IsSound (both_wait s) = both_wait-IsSound s o accepting in
          let has : HasFd s.host r t.fd = (t.client, t.is_client, t.is_fd) in
          let same : o0.svc ≡ m = some_inj (sym o0.is_svc ∙ is_m) in
          let (s1, ran, left) =
            Returns-done (IsLeft r t.fd (both_wait s)) (event_turn recv 1 true t.fd (both_wait s)) (
              event_turn-IsLeft recv 0 r (both_wait s) t closes space m is_m
                (subst (λ n. Tends 256 n s.host) same o0.tends) listed
                (λ q there q_has. distinct m is_m q r t.fd there listed q_has has)) in
          starves_when_closing (both_wait s) s1 r t.fd p conn o0
            (then_turn (both_wait s) (both_wait s) s1 (at_rest (both_wait s)) (
              reports (both_wait s) s1 true 1 t.fd refl
                ((watches m is_m).listed_watched r t.fd listed has) o0.is_registered ran))
            left.0 left.1
            (left.2 p (λ e.
                none_not_some (sym new ∙ ap (λ y. find y s.host.clients) (sym e) ∙ t.is_client))
              ∙ new)
            same_fd
