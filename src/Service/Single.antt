-- ===== src/Service/Single.antt =====
-- An event of TcpClientServiceManager.cpp for a descriptor that one listed client has.
use linux_tcp_server.Base.{ℕ, ◌≡◌, ap, Bool, true, Option, none, some, List, Returns, Returns-bind}
use linux_tcp_server.Receive.{Recv}
use linux_tcp_server.ClientDb.{Host, mem}
use linux_tcp_server.Service.{Serving, serve_client, serve_found, serve_event, get_client_by_fd}
use linux_tcp_server.Service.Lookup.{HasFd, HaveFds, IsFound, get_client_by_fd_lem}

-- The search finds the one listed client that has the descriptor.
pub single_found :
    (h : Host) (fd p : ℕ) (l : List ℕ)
    → mem p l ≡ true
    → HasFd h p fd
    → ((q : ℕ) → mem q l ≡ true → HasFd h q fd → q ≡ p)
    → (found : Option ℕ) → IsFound h fd l found
    → found ≡ some p
single_found h fd p l listed has alone none nobody = absurd (nobody p listed has)
single_found h fd p l listed has alone (some q) (there, k) = ap (λ x. some x) (alone q there k)

module _ {W : Type 0} (recv : ℕ → ℕ → W → Recv × W) (rounds fd p : ℕ) (registered : Bool)
    (s : Serving W) (Q : Serving W → Type 0)
    (served : Returns (serve_client recv rounds registered fd p s) Q) where
  found_again :
      (found : Option ℕ)
      → found ≡ some p
      → Returns (serve_found recv rounds registered fd found s) Q
  unfolding serve_found
  found_again found e = rw e served

  -- The event is served for this client.
  pub serve_event-single :
      HaveFds s.host s.manager.tcp_client_db
      → mem p s.manager.tcp_client_db ≡ true
      → HasFd s.host p fd
      → ((q : ℕ) → mem q s.manager.tcp_client_db ≡ true → HasFd s.host q fd → q ≡ p)
      → Returns (serve_event recv rounds registered fd s) Q
  unfolding serve_event
  serve_event-single have listed has alone =
      Returns-bind (IsFound s.host fd s.manager.tcp_client_db) Q
        (get_client_by_fd s.host fd s.manager) _ (get_client_by_fd_lem s.host fd s.manager have)
        (λ found k.
          found_again found
            (single_found s.host fd p s.manager.tcp_client_db listed has alone found k))
