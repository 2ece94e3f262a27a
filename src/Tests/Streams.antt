-- ===== src/Tests/Streams.antt =====
-- The instance for what is delivered over a run.
use linux_tcp_server.Base.{ℕ, ◌≡◌, refl, true, some, List, [], ◌∷◌, arith, done}
use linux_tcp_server.Service.{Serving, serve_events}
use linux_tcp_server.Service.Serve.{IsTended}
use linux_tcp_server.Service.Isolation.{Tends}
use linux_tcp_server.Service.Logs.{Continues}
use linux_tcp_server.Service.Streams.{serve_events_lem}
use linux_tcp_server.Controller.Stream.{CutsThrough}
use linux_tcp_server.Controller.Integrity.{reachable_streams}
use linux_tcp_server.Controller.{stop_connection_accepting_svc, is_bit_set, set_bit}
use linux_tcp_server.Controller.Run.{System, serving, stops_accepting, events, at_start, one_more}
use linux_tcp_server.Controller.InOrder.{InOrder}
use linux_tcp_server.Tests.Samples.{pending, pending-IsBounded, value_of, returns_value}
use linux_tcp_server.Tests.Running.{
  frames, client_system, client_system-InOrder, with_client, roomy_state, only,
}

-- The operator stops the acceptance of connections first.
abbrev closed_system : System (List ℕ)
closed_system = record (client_system frames) {
  controller = stop_connection_accepting_svc (client_system frames).controller;
}

-- The event for the client, after that.
abbrev served : Serving (List ℕ)
served =
    let before = serving closed_system with_client in
    value_of (serve_events pending 20 true (7 ∷ []) before) before

abbrev served_system : System (List ℕ)
served_system = record closed_system {
  controller = record closed_system.controller { tcp_client_svc_mgr = some served.manager };
  host = served.host;
  log = served.log;
  world = served.world;
}

closed_system-Tends : Tends 256 with_client closed_system.host
closed_system-Tends = record {
  epfd = 3;
  has_epoll = refl;
  each = only (IsTended 256 closed_system.host) roomy_state;
}

is_served : serve_events pending 20 true (7 ∷ []) (serving closed_system with_client) ≡ done served
is_served =
    returns_value (Continues 256 (serving closed_system with_client))
      (serve_events pending 20 true (7 ∷ []) (serving closed_system with_client))
      (serving closed_system with_client)
      (serve_events_lem pending pending-IsBounded 20 256 (7 ∷ [])
        (serving closed_system with_client) closed_system-Tends (omega arith))

reachable_streams_example :
    (o' : InOrder served_system) × CutsThrough 100
      (client_system frames)
      served_system
      (client_system-InOrder frames).svc
      o'.svc
unfolding stop_connection_accepting_svc is_bit_set set_bit
reachable_streams_example =
    reachable_streams pending pending-IsBounded 100 (client_system frames) served_system
      (one_more (client_system frames) closed_system served_system
        (one_more (client_system frames) (client_system frames) closed_system
          (at_start (client_system frames)) (stops_accepting (client_system frames)) tt)
        (events closed_system with_client true 20 (7 ∷ []) served refl refl refl is_served) tt)
      (client_system-InOrder frames)
