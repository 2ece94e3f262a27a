-- ===== src/Tests/Threads.antt =====
-- Instances for the turns of the two threads.
use linux_tcp_server.Base.{
  codes, length, ◌<◌, subst, sym, arith, ℕ, ◌≡◌, refl, true, false, none, find, List, [], Returns,
}
use linux_tcp_server.Service
use linux_tcp_server.Service.{serve_event}
use linux_tcp_server.Controller.Joining.{joined}
use linux_tcp_server.Controller.Threads.Started.{both_wait}
use linux_tcp_server.Service.Interest.{watched}
use linux_tcp_server.Controller.Accept.{Connection}
use linux_tcp_server.Controller.Accepted.{all_succeed}
use linux_tcp_server.Controller.Threads.{
  Shared, Moves, at_rest, then_turn, accepts, processes, waiting, made, attending, accept_turn,
  acceptor_turn, leaving_turn, event_turn,
}
use linux_tcp_server.Controller.Threads.Sound.{IsSound}
use linux_tcp_server.Controller.Threads.Order.{turns_return}
use linux_tcp_server.Service.Isolation.{received_from}
use linux_tcp_server.Controller.Threads.Lost.{IsLost}
use linux_tcp_server.Controller.Threads.Later.{MovesSparing}
use linux_tcp_server.Controller.Threads.Reused.{reused_descriptor_starves}
use linux_tcp_server.Tests.Samples.{replay, pending, pending-IsBounded, value_of}
use linux_tcp_server.Tests.Servers.{svc, conn}
use linux_tcp_server.Tests.Running.{hung_up}
use linux_tcp_server.Tests.Started.{
  fresh_server, accepting, with_one, starts, starts_to_accept, run, is_taken,
}

-- Both threads of a started server wait, with no client.
abbrev quiet : Shared (List ℕ)
quiet = both_wait (accepting [])

-- The acceptor has made a client, and has put it into the list of all clients.
abbrev with_new : Shared (List ℕ)
with_new = value_of (accept_turn all_succeed 100 conn quiet) quiet

abbrev with_listed : Shared (List ℕ)
with_listed = value_of (acceptor_turn (made 100) with_new) quiet

two_turns : Moves pending quiet with_listed
unfolding accept_turn acceptor_turn
two_turns =
    then_turn quiet with_new with_listed
      (then_turn quiet quiet with_new (at_rest quiet)
        (accepts quiet with_new 100 conn refl refl refl refl))
      (processes with_new with_listed refl)

turns_return_example :
    IsSound with_listed
    × Returns (acceptor_turn with_listed.acceptor with_listed) IsSound
    × Returns (leaving_turn with_listed.service with_listed) IsSound
    × ((p : ℕ) (c : Connection)
        → with_listed.acceptor ≡ waiting
        → find p with_listed.host.clients ≡ none
        → watched c.comm_sock_fd with_listed.host.calls ≡ false
        → Returns (accept_turn all_succeed p c with_listed) IsSound)
    × ((rounds fd : ℕ)
        → with_listed.service ≡ attending
        → watched fd with_listed.host.calls ≡ true
        → Returns (event_turn pending rounds true fd with_listed) IsSound)
turns_return_example =
    turns_return pending pending-IsBounded 4 2130706433 40000 (codes "server") [] fresh_server
      (accepting []) with_listed starts (starts_to_accept pending []) refl two_turns

-- The server has a client, whose peer has closed the connection.
reused_descriptor_starves_example :
    (s' : Shared (List ℕ)) × Moves hung_up (both_wait (with_one [])) s'
    × (s'.acceptor ≡ waiting)
    × (s'.service ≡ attending)
    × ((s'' : Shared (List ℕ))
        → MovesSparing hung_up is_taken.tended.fd s' s''
        → IsSound s'' × IsLost 200 is_taken.tended.fd (received_from 200 s'.log) s'')
reused_descriptor_starves_example =
    reused_descriptor_starves hung_up (λ fd space w. omega arith) 4 2130706433 40000
      (codes "server") [] fresh_server (with_one []) (Service.add_client_to_db 100 svc) 100 200 conn
      is_taken.tended starts (run hung_up []) refl is_taken.in_service (joined 100 svc)
      (λ space. refl) (subst (λ l. length l < 256) (sym is_taken.empty) (omega arith))
      (is_taken.others 200 (omega arith)) (sym is_taken.has_conn_fd)
