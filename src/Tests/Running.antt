-- ===== src/Tests/Running.antt =====
-- Instances for a server that serves a client: from one end to the other, and a peer that leaves.
use linux_tcp_server.Base.{
  ◌++◌, codes, length, ◌<◌, sym, ap, ℕ, ◌≡◌, ap, refl, sym, subst, inl, inr, true, some, List, [],
  ◌∷◌, arith, done, fault, Returns,
}
use mathlib.Core.Bool.{false≢true}
use linux_tcp_server.Stream.{encode_all}
use linux_tcp_server.Demarcar
use linux_tcp_server.Demarcar.{variable_size}
use linux_tcp_server.Demarcar.Fresh.{construct-Holds}
use linux_tcp_server.TcpClient.{TcpClient, holds}
use linux_tcp_server.Receive.{Recv, bytes}
use linux_tcp_server.ClientDb.{Platform, TcpClientDbManager, mem, display_client_db}
use linux_tcp_server.Service.{TcpClientServiceManager, Serving, serve_event, serve_events}
use linux_tcp_server.Service.Lookup.{mem_cases}
use linux_tcp_server.Service.Serve.{IsTended}
use linux_tcp_server.Service.Logs.{Continues}
use linux_tcp_server.Service.Arrival.{Delivered}
use linux_tcp_server.Senders.{msg, fix_sizestr_session}
use linux_tcp_server.Senders.Framing.{framed_rounds_lem}
use linux_tcp_server.Controller.{stop}
use linux_tcp_server.Controller.Accept.{accept_client}
use linux_tcp_server.Controller.Accepted.{all_succeed}
use linux_tcp_server.Controller.Run.{System, serving}
use linux_tcp_server.Controller.InOrder.{InOrder}
use linux_tcp_server.Controller.Liveness.{reachable_messages_arrive}
use linux_tcp_server.Controller.Pipeline.{serving_with, client_program_served}
use linux_tcp_server.Controller.Disconnect.{with_manager, disconnect_breaks_stop}
use linux_tcp_server.Service
use linux_tcp_server.Controller.Safety.{reachable_returns}
use linux_tcp_server.Controller.Joining.{joined}
use linux_tcp_server.Controller.Accept.{Connection}
use linux_tcp_server.Controller.Accepted.{Accepts}
use linux_tcp_server.Tests.Started.{
  fresh_server, accepting, with_one, starts, starts_to_accept, run_fresh, taken, is_taken,
}
use linux_tcp_server.Tests.Samples.{pending, pending_socket, pending-IsBounded}
use linux_tcp_server.Tests.Servers.{svc, server, empty_host, conn, client, one_client, host}

-- What the client program sends in two rounds.
abbrev two_texts : List ℕ
two_texts = encode_all (msg ∷ msg ∷ [])

two_rounds : fix_sizestr_session true true 2 ≡ done two_texts
unfolding fix_sizestr_session
two_rounds = framed_rounds_lem 2

client_program_served_example : Returns (accept_client all_succeed 100 conn server empty_host) (λ r.
    Returns
      (serve_event pending 100 true 7 (serving_with 100 svc [] two_texts r))
      (Delivered 256 100 (msg ∷ msg ∷ []) two_texts (serving_with 100 svc [] two_texts r)))
client_program_served_example =
    client_program_served conn (pending_socket 7) 4 2130706433 40000 (codes "server") two_texts
      fresh_server (accepting two_texts) svc 2 100 100 starts (starts_to_accept pending two_texts)
      refl refl (λ q there. absurd (false≢true there)) two_rounds (omega arith)

-- A client at address 100 whose ring has the size that the acceptor gives it, with nothing in it.
abbrev pub roomy_client : TcpClient
roomy_client = record client {
  msgd = holds (some (Demarcar.construct variable_size true true true 256));
}

abbrev pub roomy_state : IsTended 256 (record host { clients = (100, roomy_client) ∷ [] }) 100
roomy_state = record {
  client = roomy_client;
  fd = 7;
  demarcar = Demarcar.construct variable_size true true true 256;
  kept = [];
  is_client = refl;
  is_fd = refl;
  is_msgd = refl;
  in_order = construct-Holds variable_size 256 (omega arith) (omega arith);
  incomplete = omega arith;
}

abbrev pub with_client : TcpClientServiceManager
with_client = record svc { tcp_client_db = 100 ∷ [] }

-- A server with that client in both lists.
abbrev pub client_system : List ℕ → System (List ℕ)
client_system w = record {
  controller = record server {
    tcp_client_svc_mgr = some with_client;
    tcp_client_db_mgr = some one_client;
  };
  host = record host { clients = (100, roomy_client) ∷ [] };
  accepting = true;
  log = [];
  world = w;
}

pub only : (P : ℕ → Type 0) → P 100 → (p : ℕ) → mem p (100 ∷ []) ≡ true → P p
only P at p there = elim (mem_cases p 100 [] there) [
  | inl same ↦ subst P same at
  | inr behind ↦ absurd (false≢true behind)
]

abbrev pub client_system-InOrder : (w : List ℕ) → InOrder (client_system w)
client_system-InOrder w = record {
  svc = with_client;
  db = one_client;
  has_callback = true;
  is_svc = refl;
  is_db = refl;
  is_callback = refl;
  is_registered = refl;
  tends = λ e. record {
    epfd = 3;
    has_epoll = refl;
    each = only (IsTended 256 (client_system w).host) roomy_state;
  };
  nobody = λ e. absurd (false≢true (sym e));
  known = λ p there. there;
  ready_first = λ e. refl;
}

-- The peer has closed the connection.
abbrev pub hung_up : ℕ → ℕ → List ℕ → Recv × List ℕ
hung_up fd space w = (bytes [], w)

-- A server has accepted a client, and the client's peer closes.
disconnect_breaks_stop_example :
    Returns
      (serve_event hung_up 1 true is_taken.tended.fd
        (serving (with_one []) (Service.add_client_to_db 100 svc)))
      (λ e.
        ((u : Platform) → stop u (with_manager taken.0 e.manager) e.host ≡ fault)
        × ((db : TcpClientDbManager)
            → taken.0.tcp_client_db_mgr ≡ some db
            → display_client_db e.host db ≡ fault))
unfolding Service.add_client_to_db
disconnect_breaks_stop_example =
    disconnect_breaks_stop hung_up (λ fd space w. omega arith) 4 2130706433 40000 (codes "server")
      [] fresh_server (with_one []) (Service.add_client_to_db 100 svc) 0 100 is_taken.tended starts
      (run_fresh hung_up []) is_taken.in_service refl (joined 100 svc)
      (subst (λ l. length l < 256) (sym is_taken.empty) (omega arith)) (λ space. refl)

reachable_returns_example :
    (o : InOrder (accepting (0 ∷ 0 ∷ []))) × (o.svc.is_ready ≡ true
      → (rounds : ℕ) (fds : List ℕ)
      → Returns
          (serve_events pending rounds true fds (serving (accepting (0 ∷ 0 ∷ [])) o.svc))
          (Continues 256 (serving (accepting (0 ∷ 0 ∷ [])) o.svc)))
    × (true ≡ true
        → (p : ℕ) (c : Connection)
        → Returns
            (accept_client all_succeed p c server empty_host)
            (Accepts p c o.svc o.db server empty_host))
reachable_returns_example =
    reachable_returns pending pending-IsBounded 4 2130706433 40000 (codes "server") (0 ∷ 0 ∷ [])
      fresh_server (accepting (0 ∷ 0 ∷ [])) starts (starts_to_accept pending (0 ∷ 0 ∷ []))

-- Two messages are pending.
abbrev pub frames : List ℕ
frames = encode_all ((65 ∷ []) ∷ (66 ∷ 67 ∷ []) ∷ [])

reachable_messages_arrive_example :
    Returns
      (serve_event pending 20 true 7 (serving (with_one frames) (Service.add_client_to_db 100 svc)))
      (Delivered 256 100
        ((65 ∷ []) ∷ (66 ∷ 67 ∷ []) ∷ [])
        frames
        (serving (with_one frames) (Service.add_client_to_db 100 svc)))
unfolding Service.add_client_to_db
reachable_messages_arrive_example =
    reachable_messages_arrive (pending_socket 7) 4 2130706433 40000 (codes "server") frames
      fresh_server (with_one frames) (Service.add_client_to_db 100 svc) 20 100
      ((65 ∷ []) ∷ (66 ∷ 67 ∷ []) ∷ []) is_taken.tended starts (run_fresh pending frames)
      is_taken.in_service refl (joined 100 svc) is_taken.has_conn_fd (omega arith)
      (ap (λ l. l ++ frames) is_taken.empty) (omega arith, (omega arith, tt))
