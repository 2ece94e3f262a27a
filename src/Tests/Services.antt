-- ===== src/Tests/Services.antt =====
-- Instances for the service and the list of all clients.
use linux_tcp_server.Base.{
  ◌⊎◌, fault, false, ℕ, ◌≡◌, refl, subst, inl, inr, true, some, List, [], ◌∷◌, ◌++◌, arith, done,
  Returns, map,
}
use mathlib.Core.Bool.{false≢true}
use linux_tcp_server.Demarcar.{variable_size}
use linux_tcp_server.TcpClient.{TcpClient, holds}
use linux_tcp_server.ClientDb.{Host, mem, TcpClientDbManager, purge, epoll_add}
use linux_tcp_server.ClientDb.Purge.{passes_all, IsOwned, Lacks, closings, purge_lem}
use linux_tcp_server.Service.{
  TcpClientServiceManager, started, Serving, start_internal, serve_events,
}
use linux_tcp_server.Service.Lookup.{HasFd, HaveFds, IsMaxFd, mem_cases}
use linux_tcp_server.Service.Serve.{IsTended}
use linux_tcp_server.Service.Isolation.{Tends}
use linux_tcp_server.Service.Streams.{serve_events_lem}
use linux_tcp_server.Service.Logs.{Continues}
use linux_tcp_server.Service.Starting.{start_internal_lem}
use linux_tcp_server.Tests.Samples.{lenient, demarcar, demarcar-Holds, pending, pending-IsBounded}

-- One client, at address 100, with descriptor 7.
abbrev client : TcpClient
client = record {
  ip_addr = 1;
  port_no = 2;
  server_ip_addr = holds 3;
  server_port_no = holds 40000;
  state_flags = 42;
  comm_fd = holds 7;
  tcp_ctrlr = holds true;
  msgd = holds (some (demarcar variable_size));
}

abbrev host : Host
host = record { clients = (100, client) ∷ []; calls = [] }

abbrev manager : TcpClientServiceManager
manager = record {
  max_fd = 0;
  epfd = holds 3;
  active_fd_set = [];
  backup_fd_set = [];
  client_svc_mgr_thread = some started;
  tcp_client_db = 100 ∷ [];
  is_ready = true;
}

abbrev db : TcpClientDbManager
db = record { tcp_client_db = 100 ∷ [] }

only : (P : ℕ → Type 0) → P 100 → (p : ℕ) → mem p (100 ∷ []) ≡ true → P p
only P at p there = elim (mem_cases p 100 [] there) [
  | inl same ↦ subst P same at
  | inr behind ↦ absurd (false≢true behind)
]

have_fds : HaveFds host (100 ∷ [])
have_fds = only (λ p. (fd : ℕ) × HasFd host p fd) (7, (client, refl, refl))

tends : Tends 8 manager host
tends = record {
  epfd = 3;
  has_epoll = refl;
  each = only (IsTended 8 host) (record {
    client = client;
    fd = 7;
    demarcar = demarcar variable_size;
    kept = [];
    is_client = refl;
    is_fd = refl;
    is_msgd = refl;
    in_order = demarcar-Holds variable_size;
    incomplete = omega arith;
  });
}

abbrev state : Serving (List ℕ)
state = record { log = []; manager = manager; host = host; world = 0 ∷ 1 ∷ 65 ∷ 0 ∷ 3 ∷ 66 ∷ [] }

serve_events_lem_example :
    Returns (serve_events pending 5 true (7 ∷ 9 ∷ 7 ∷ []) state) (Continues 8 state)
serve_events_lem_example =
    serve_events_lem pending pending-IsBounded 5 8 (7 ∷ 9 ∷ 7 ∷ []) state tends (omega arith)

purge_lem_example :
    ((passes_all lenient ≡ true)
      × Returns (purge lenient db host) (λ (m', h').
        (m'.tcp_client_db ≡ [])
        × Lacks (100 ∷ []) host h'
        × (h'.calls ≡ [] ++ closings host (100 ∷ []))))
    ⊎ ((passes_all lenient ≡ false) × (purge lenient db host ≡ fault))
purge_lem_example =
    purge_lem lenient db host (refl, tt)
      (only (λ p. IsOwned p host)
        (record {
          client = client;
          fd = 7;
          demarcar = some (demarcar variable_size);
          is_client = refl;
          is_fd = refl;
          is_msgd = refl;
        }))

abbrev client_state : IsTended 8 host 100
client_state = record {
  client = client;
  fd = 7;
  demarcar = demarcar variable_size;
  kept = [];
  is_client = refl;
  is_fd = refl;
  is_msgd = refl;
  in_order = demarcar-Holds variable_size;
  incomplete = omega arith;
}

start_internal_lem_example :
    (top : ℕ) × IsMaxFd host (100 ∷ []) 0 top
    × (start_internal 3 manager host
        ≡ done (
          record manager { epfd = holds 3; is_ready = true; max_fd = top },
          record host { calls = [] ++ map epoll_add (7 ∷ []) },
        ))
start_internal_lem_example = start_internal_lem 3 manager host (7 ∷ []) ((client, refl, refl), tt)
