-- ===== src/Service/Closing.antt =====
-- A peer that closes its connection: the event of TcpClientServiceManager.cpp that reads the end of the
-- stream.
use linux_tcp_server.Base.{
  ℕ, suc, ◌-◌, ◌<◌, ◌≡◌, ◌∙◌, ap, refl, true, none, some, List, [], ◌∷◌, ◌++◌, arith, length, find,
  find-put_same, find-erase_same, done, Returns, eq_false,
}
use linux_tcp_server.Bcb.{available_size}
use linux_tcp_server.Bcb.Contract.{available_size-add-current}
use linux_tcp_server.Demarcar.{Demarcar, variable_size}
use linux_tcp_server.Demarcar.Holds.{Holds, Holds-length}
use linux_tcp_server.TcpClient.{TcpClient, holds}
use linux_tcp_server.Receive.{Recv, bytes, closed, ends, on_recv, drain}
use linux_tcp_server.ClientDb.{mem, store_client, remove, close, epoll_del}
use linux_tcp_server.Service.{Serving, serve_client, serve_event, after_drain}
use linux_tcp_server.Service.Lookup.{HasFd, HaveFds}
use linux_tcp_server.Service.Serve.{IsTended, hang_up_lem}
use linux_tcp_server.Service.Single.{serve_event-single}

-- The client is off the service's list and off the heap, its descriptor is closed, and nothing was
-- delivered.
abbrev pub Closed : {W : Type 0} → ℕ → ℕ → Serving W → Serving W → Type 0
Closed p fd s s' =
    (s'.manager.tcp_client_db ≡ remove p s.manager.tcp_client_db)
    × (find p s'.host.clients ≡ none)
    × (s'.host.calls ≡ (s.host.calls ++ close fd ∷ []) ++ epoll_del fd ∷ [])
    × (s'.log ≡ s.log ++ record { client = p; received = []; deliveries = [] } ∷ [])

module _ {W : Type 0} (recv : ℕ → ℕ → W → Recv × W) (fd : ℕ) where
  pub drain_closed :
      (rounds : ℕ) (w : W) (d : Demarcar) (c : List ℕ) (size : ℕ) (h : Holds d variable_size c size)
      → ((space : ℕ) → (recv fd space w).0 ≡ bytes [])
      → length c < size
      → drain recv (suc rounds) true fd d w
        ≡ done (ends (record d { bcb = some h.ring }) (recv fd (size - length c) w).1 closed)
  unfolding drain on_recv
  drain_closed rounds w d c size h closes space =
      rw (h.is_ring, avail, eq_false (size - length c) 0 (omega arith), closes (size - length c))
        refl
    where
      avail : available_size h.ring ≡ size - length c
      avail = omega (arith, available_size-add-current h.valid, Holds-length h, h.capacity)

  serve_client-Closed :
      (rounds size p epfd : ℕ) (s : Serving W) (t : IsTended size s.host p)
      → ((space : ℕ) → (recv fd space s.world).0 ≡ bytes [])
      → t.fd ≡ fd
      → s.manager.epfd ≡ holds epfd
      → length t.kept < size
      → Returns (serve_client recv (suc rounds) true fd p s) (Closed p fd s)
  unfolding serve_client after_drain
  serve_client-Closed rounds size p epfd s t closes is_fd has_epoll space =
      rw
        (
          t.is_client,
          t.is_msgd,
          t.is_fd,
          is_fd,
          drain_closed rounds s.world t.demarcar t.kept size t.in_order closes space,
          hang_up_lem p fd epfd s.manager (store_client p drained s.host) drained has_epoll
              (find-put_same p drained s.host.clients),
        )
        (refl, find-erase_same p _, refl, refl)
    where
      drained : TcpClient
      drained = record t.client {
        comm_fd = holds fd;
        msgd = holds (some (record t.demarcar { bcb = some t.in_order.ring }));
      }

  -- With the callback for messages set, the service's epoll descriptor there and all listed clients live
  -- with their descriptors: if the next `recv` on the descriptor of a listed client gives the end of
  -- the stream, the client's ring is in order and not full, and no other listed client has the
  -- descriptor, then an event for it closes the descriptor, takes the client off the service's list and
  -- deletes it, and delivers nothing.
  pub closed_lem :
      (rounds size p epfd : ℕ) (s : Serving W) (t : IsTended size s.host p)
      → ((space : ℕ) → (recv fd space s.world).0 ≡ bytes [])
      → t.fd ≡ fd
      → s.manager.epfd ≡ holds epfd
      → length t.kept < size
      → HaveFds s.host s.manager.tcp_client_db
      → mem p s.manager.tcp_client_db ≡ true
      → ((q : ℕ) → mem q s.manager.tcp_client_db ≡ true → HasFd s.host q fd → q ≡ p)
      → Returns (serve_event recv (suc rounds) true fd s) (Closed p fd s)
  closed_lem rounds size p epfd s t closes is_fd has_epoll space have listed alone =
      serve_event-single recv (suc rounds) fd p true s (Closed p fd s)
        (serve_client-Closed rounds size p epfd s t closes is_fd has_epoll space) have listed
        (t.client, t.is_client, t.is_fd ∙ ap (λ x. holds x) is_fd) alone
