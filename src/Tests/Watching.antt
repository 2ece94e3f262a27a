-- ===== src/Tests/Watching.antt =====
-- Instances for what epoll watches.
use linux_tcp_server.Base.{ℕ, ◌≡◌, true, some, [], Returns, codes}
use linux_tcp_server.Service
use linux_tcp_server.Service.{get_client_by_fd}
use linux_tcp_server.Service.Lookup.{HasFd}
use linux_tcp_server.Service.Interest.{watched}
use linux_tcp_server.Service.Watched.{WatchesListed}
use linux_tcp_server.Controller.Watched.{epoll_agrees}
use linux_tcp_server.Tests.Samples.{replay, pending, pending-IsBounded}
use linux_tcp_server.Tests.Servers.{svc}
use linux_tcp_server.Tests.Started.{fresh_server, with_one, starts, run, taken, is_taken}

epoll_agrees_example :
    WatchesListed taken.1 (Service.add_client_to_db 100 svc).tcp_client_db
    × ((fd : ℕ)
        → watched fd taken.1.calls ≡ true
        → Returns
            (get_client_by_fd taken.1 fd (Service.add_client_to_db 100 svc))
            (λ r. (p : ℕ) × (r ≡ some p) × HasFd taken.1 p fd))
epoll_agrees_example =
    epoll_agrees pending pending-IsBounded 4 2130706433 40000 (codes "server") [] fresh_server
      (with_one []) (Service.add_client_to_db 100 svc) starts (run pending []) is_taken.in_service
