-- ===== src/Tests/Starving.antt =====
-- Instances for clients whose stream the server cannot cut.
use linux_tcp_server.Base.{ℕ, ◌≡◌, ap, refl, true, some, List, [], ◌∷◌, ◌++◌, arith, done}
use linux_tcp_server.Stream.{ntohs}
use linux_tcp_server.Bcb.{available_size, write, read, create_new}
use linux_tcp_server.Demarcar
use linux_tcp_server.Demarcar.{
  process_msg, write_all, process_client_msg, process_frames, is_frame_ready,
}
use linux_tcp_server.Receive.{drain, on_recv}
use linux_tcp_server.Service.{Serving, serve_events, serve_client, get_client_by_fd}
use linux_tcp_server.Service.Isolation.{Tends, received_from, delivered_for}
use linux_tcp_server.Service.Serve.{IsTended}
use linux_tcp_server.Service.Logs.{Continues}
use linux_tcp_server.Service.Streams.{serve_events_lem}
use linux_tcp_server.Senders.{msg1, msg2, string_rounds}
use linux_tcp_server.Controller.Run.{
  System, serving, events, AcceptsOther, ReachesWith, at_start, one_more,
}
use linux_tcp_server.Controller.Starving.{oversized_client_starves, string_client_starves}
use linux_tcp_server.Tests.Samples.{pending, pending-IsBounded, value_of, returns_value}
use linux_tcp_server.Tests.Running.{
  client_system, client_system-InOrder, with_client, roomy_state, only,
}

-- The first round of the program.
abbrev greeting : List ℕ
greeting = msg1 ++ msg2

-- The server before and after the event for its client.
abbrev before : Serving (List ℕ)
before = serving (client_system greeting) with_client

abbrev after : Serving (List ℕ)
after = value_of (serve_events pending 40 true (7 ∷ []) before) before

abbrev greeted : System (List ℕ)
greeted = record (client_system greeting) {
  controller = record (client_system greeting).controller {
    tcp_client_svc_mgr = some after.manager;
  };
  host = after.host;
  log = after.log;
  world = after.world;
}

before-Tends : Tends 256 with_client (client_system greeting).host
before-Tends = record {
  epfd = 3;
  has_epoll = refl;
  each = only (IsTended 256 (client_system greeting).host) roomy_state;
}

is_after : serve_events pending 40 true (7 ∷ []) before ≡ done after
is_after =
    returns_value (Continues 256 before) (serve_events pending 40 true (7 ∷ []) before) before
      (serve_events_lem pending pending-IsBounded 40 256 (7 ∷ []) before before-Tends (omega arith))

reached : ReachesWith pending (AcceptsOther pending 100) (client_system greeting) greeted
reached =
    one_more (client_system greeting) (client_system greeting) greeted
      (at_start (client_system greeting))
      (events (client_system greeting) with_client true 40 (7 ∷ []) after refl refl refl is_after)
      tt

all_received : received_from 100 after.log ≡ greeting
unfolding serve_events serve_client get_client_by_fd drain on_recv process_msg write_all
    process_client_msg process_frames is_frame_ready available_size write read Demarcar.construct
    create_new
all_received = refl

oversized_client_starves_example : delivered_for 100 after.log ≡ []
oversized_client_starves_example =
    oversized_client_starves pending pending-IsBounded 100 (client_system greeting) greeted
      (client_system-InOrder greeting) roomy_state after.log reached refl refl
      (omega (arith, ap ntohs all_received))

is_first_round : received_from 100 after.log ++ [] ≡ string_rounds 1
unfolding string_rounds
is_first_round = ap (λ l. l ++ []) all_received

string_client_starves_example : delivered_for 100 after.log ≡ []
string_client_starves_example =
    string_client_starves pending pending-IsBounded 100 1 (client_system greeting) greeted
      (client_system-InOrder greeting) roomy_state after.log [] reached refl refl refl
      is_first_round
