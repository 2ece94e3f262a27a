-- ===== src/Controller/Threads/Order.antt =====
-- Whatever the order in which the two threads take their turns, neither of them fails.
use linux_tcp_server.Base.{
  ℕ, ◌≡◌, ◌∙◌, ap, sym, subst, refl, true, false, none, find, List, Outcome, done, Returns,
}
use linux_tcp_server.TcpClient.{holds_inj}
use linux_tcp_server.Receive.{Recv}
use linux_tcp_server.Receive.Stream.{IsBounded}
use linux_tcp_server.Service.Interest.{watched}
use linux_tcp_server.Controller.{TcpServerController}
use linux_tcp_server.Controller.Accept.{Connection}
use linux_tcp_server.Controller.Accepted.{all_succeed}
use linux_tcp_server.Controller.Run.{System, Reaches}
use linux_tcp_server.Controller.Safety.{started_server, initial}
use linux_tcp_server.Controller.Threads.{
  Shared, Move, accepts, processes, reports, leaves, Moves, at_rest, then_turn, waiting, attending,
  accept_turn, acceptor_turn, leaving_turn, event_turn,
}
use linux_tcp_server.Controller.Threads.Sound.{IsSound}
use linux_tcp_server.Controller.Threads.Arriving.{accept_turn-IsSound, acceptor_turn-IsSound}
use linux_tcp_server.Controller.Threads.Attending.{event_turn-IsSound, leaving_turn-IsSound}
use linux_tcp_server.Controller.Threads.Started.{both_wait, started-IsSound}
use linux_tcp_server.Service.Interest.{Epoll}

module _ ⦃kernel : Epoll⦄ where
  returned :
      {W : Type 0} (m : Outcome (Shared W)) (s : Shared W)
      → m ≡ done s
      → Returns m IsSound
      → IsSound s
  returned m s e k = subst (λ x. Returns x IsSound) e k

  module _ {W : Type 0} (recv : ℕ → ℕ → W → Recv × W)
      (bounded : (fd space : ℕ) (w : W) → IsBounded space (recv fd space w).0) where
    pub turn-IsSound : (s s' : Shared W) → Move recv s s' → IsSound s → IsSound s'
    turn-IsSound _ _ (accepts s s' p conn idle new off e) o =
        returned (accept_turn all_succeed p conn s) s' e
          (accept_turn-IsSound p s o conn idle new off)
    turn-IsSound _ _ (processes s s' e) o =
        returned (acceptor_turn s.acceptor s) s' e (acceptor_turn-IsSound s s.acceptor refl o)
    turn-IsSound _ _ (reports s s' registered rounds fd free on is_registered e) o =
        returned (event_turn recv rounds true fd s) s'
          (ap (λ x. event_turn recv rounds x fd s) (holds_inj (sym o.is_registered ∙ is_registered))
            ∙ e)
          (event_turn-IsSound recv bounded rounds fd s o free on)
    turn-IsSound _ _ (leaves s s' e) o =
        returned (leaving_turn s.service s) s' e (leaving_turn-IsSound s s.service refl o)

    pub turns-IsSound : (s s' : Shared W) → Moves recv s s' → IsSound s → IsSound s'
    turns-IsSound _ _ (at_rest s) o = o
    turns-IsSound _ _ (then_turn s s' s'' r k) o = turn-IsSound s' s'' k (turns-IsSound s s' r o)

    -- With a `recv` that gives no more bytes than it is asked for, and an interest list that
    -- follows the calls as documented: after a server was constructed and started and got its
    -- callbacks, from a state in which its acceptor accepts and both threads wait, whatever turns led
    -- there, after any call by call turns of the two threads, the next turn of either thread returns:
    -- the next call for a new client, the next call for a client that is given up, a new connection if
    -- the acceptor waits, with an address not in use and a descriptor that epoll does not watch, and
    -- an event for a descriptor that epoll watches if the service waits. The state is sound there and
    -- after each of these.
    pub turns_return :
        (accept_fd ip_addr port_no : ℕ) (name : List ℕ) (w : W) (c : TcpServerController)
        (s : System W) (s' : Shared W)
        → started_server accept_fd ip_addr port_no name ≡ done c
        → Reaches recv (initial c w) s
        → s.accepting ≡ true
        → Moves recv (both_wait s) s'
        → IsSound s'
          × Returns (acceptor_turn s'.acceptor s') IsSound
          × Returns (leaving_turn s'.service s') IsSound
          × ((p : ℕ) (conn : Connection)
              → s'.acceptor ≡ waiting
              → find p s'.host.clients ≡ none
              → watched conn.comm_sock_fd s'.host.calls ≡ false
              → Returns (accept_turn all_succeed p conn s') IsSound)
          × ((rounds fd : ℕ)
              → s'.service ≡ attending
              → watched fd s'.host.calls ≡ true
              → Returns (event_turn recv rounds true fd s') IsSound)
    turns_return accept_fd ip_addr port_no name w c s s' starts reached accepting r =
        let k : IsSound s' = turns-IsSound (both_wait s) s' r (
          started-IsSound recv bounded accept_fd ip_addr port_no name w c s starts reached
            accepting) in
        (
          k,
          acceptor_turn-IsSound s' s'.acceptor refl k,
          leaving_turn-IsSound s' s'.service refl k,
          (λ p conn. accept_turn-IsSound p s' k conn),
          (λ rounds fd. event_turn-IsSound recv bounded rounds fd s' k),
        )
