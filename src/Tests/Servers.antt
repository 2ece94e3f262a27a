-- ===== src/Tests/Servers.antt =====
-- Instances for a whole server.
use linux_tcp_server.Base.{
  ◌⊎◌, false, ℕ, ◌≡◌, refl, subst, inl, inr, true, some, List, [], ◌∷◌, ◌++◌, arith, fault, Returns,
  Keeps, codes,
}
use mathlib.Core.Bool.{false≢true}
use linux_tcp_server.TcpClient.{TcpClient, holds}
use linux_tcp_server.Demarcar.{variable_size}
use linux_tcp_server.ClientDb
use linux_tcp_server.ClientDb.{Host, purge, mem, TcpClientDbManager, display_client_db}
use linux_tcp_server.ClientDb.Purge.{passes_all, IsOwned, Lacks, closings}
use linux_tcp_server.Service.{TcpClientServiceManager, started}
use linux_tcp_server.Service.Lookup.{mem_cases}
use linux_tcp_server.Service.Isolation.{Tends}
use linux_tcp_server.Controller.{
  TcpServerController, create_active_a_client, construct, is_bit_set, stop,
}
use linux_tcp_server.Controller.Accept.{Connection, accept_client}
use linux_tcp_server.Controller.Accepted.{all_succeed, Accepts, accept_client_lem}
use linux_tcp_server.Controller.Requests.{
  Request, start_request, callbacks_request, stop_accepting, stop_listening, perform_all,
}
use linux_tcp_server.Controller.Consistent.{IsConsistent, requests-IsConsistent}
use linux_tcp_server.Controller.Active.{active_client_unpurgeable}
use linux_tcp_server.Controller.Shutdown.{stop_server}
use linux_tcp_server.Tests.Samples.{lenient, demarcar}

abbrev pub svc : TcpClientServiceManager
svc = record {
  max_fd = 0;
  epfd = holds 3;
  active_fd_set = [];
  backup_fd_set = [];
  client_svc_mgr_thread = some started;
  tcp_client_db = [];
  is_ready = true;
}

abbrev pub no_clients : TcpClientDbManager
no_clients = record { tcp_client_db = [] }

abbrev pub server : TcpServerController
server = record {
  tcp_new_conn_acc = some (record { accept_fd = 4; accept_new_conn_thread = some started });
  tcp_client_db_mgr = some no_clients;
  tcp_client_svc_mgr = some svc;
  state_flags = 3;
  ip_addr = 2130706433;
  port_no = 40000;
  name = codes "server";
  client_connected = holds true;
  client_disconected = holds true;
  client_msg_recvd = holds true;
}

abbrev pub empty_host : Host
empty_host = record { clients = []; calls = [] }

abbrev pub conn : Connection
conn = record { comm_sock_fd = 7; s_addr = 16777343; sin_port = 4242 }

pub tends : Tends 256 svc empty_host
tends = record { epfd = 3; has_epoll = refl; each = λ p there. absurd (false≢true there) }

accept_client_lem_example :
    Returns
      (accept_client all_succeed 100 conn server empty_host)
      (Accepts 100 conn svc no_clients server empty_host)
accept_client_lem_example =
    accept_client_lem 100 conn server empty_host svc no_clients true refl refl refl tends

abbrev requests : List Request
requests =
    start_request true
    ∷ callbacks_request true true true
    ∷ stop_accepting
    ∷ stop_listening lenient
    ∷ []

requests-IsConsistent_example :
    Returns
      (construct (some 4) 2130706433 40000 (codes "server"))
      (λ c. IsConsistent c × Keeps (perform_all requests c empty_host) (λ u. IsConsistent u.0))
requests-IsConsistent_example =
    requests-IsConsistent 4 2130706433 40000 (codes "server") requests empty_host

-- A client of the list, at address 100.
abbrev pub client : TcpClient
client = record {
  ip_addr = 1;
  port_no = 2;
  server_ip_addr = holds 3;
  server_port_no = holds 40000;
  state_flags = 42;
  comm_fd = holds 7;
  tcp_ctrlr = holds true;
  msgd = holds (some (demarcar variable_size));
}

abbrev pub one_client : TcpClientDbManager
one_client = record { tcp_client_db = 100 ∷ [] }

abbrev pub host : Host
host = record { clients = (100, client) ∷ []; calls = [] }

owned : (p : ℕ) → mem p (100 ∷ []) ≡ true → IsOwned p host
owned p there = elim (mem_cases p 100 [] there) [
  | inl same ↦
      subst (λ x. IsOwned x host) same
        (record {
          client = client;
          fd = 7;
          demarcar = some (demarcar variable_size);
          is_client = refl;
          is_fd = refl;
          is_msgd = refl;
        })
  | inr behind ↦ absurd (false≢true behind)
]

one-IsConsistent : IsConsistent (record server { tcp_client_db_mgr = some one_client })
unfolding is_bit_set
one-IsConsistent = record {
  small = omega arith;
  is_initialized = refl;
  acceptor_bit = refl;
  service_bit = refl;
}

stop_server_example :
    ((passes_all lenient ≡ true)
      × Returns
          (stop lenient (record server { tcp_client_db_mgr = some one_client }) host)
          (λ h'. Lacks (100 ∷ []) host h' × (h'.calls ≡ [] ++ closings host (100 ∷ []))))
    ⊎ ((passes_all lenient ≡ false)
        × (stop lenient (record server { tcp_client_db_mgr = some one_client }) host ≡ fault))
stop_server_example =
    stop_server lenient (record server { tcp_client_db_mgr = some one_client }) host one_client
      one-IsConsistent refl (refl, tt) (refl, tt) owned

active_client_unpurgeable_example :
    Returns
      (create_active_a_client 200 true 2130706433 40001
        (record server { tcp_client_db_mgr = some one_client })
        host)
      (λ (c', h').
        (c'.tcp_client_db_mgr ≡ some (ClientDb.add_client_to_db 200 one_client))
        × (purge lenient (ClientDb.add_client_to_db 200 one_client) h' ≡ fault))
active_client_unpurgeable_example =
    active_client_unpurgeable lenient 200 2130706433 40001
      (record server { tcp_client_db_mgr = some one_client }) host one_client refl (refl, tt) refl
      owned
