-- ===== src/Service/Arrival.antt =====
-- What a peer has sent arrives: one event of the service thread of TcpClientServiceManager.cpp, for a
-- client whose socket gives what is pending.
use linux_tcp_server.Base.{
  ℕ, ◌+◌, ◌≤◌, ◌<◌, ◌≡◌, ◌∙◌, ap, refl, true, some, List, [], ◌∷◌, ◌++◌, map, length, find-put_same,
  Returns, Returns-bind, arith,
}
use linux_tcp_server.Stream.{encode_all, All}
use linux_tcp_server.Demarcar.{Delivery, payload}
use linux_tcp_server.TcpClient.{holds}
use linux_tcp_server.Receive.{drain}
use linux_tcp_server.Receive.Progress.{Socket}
use linux_tcp_server.Receive.Arrival.{Arrived, messages_arrive}
use linux_tcp_server.ClientDb.{mem}
use linux_tcp_server.Service.{Serving, after_drain, serve_client, serve_event}
use linux_tcp_server.Service.Lookup.{HasFd, HaveFds}
use linux_tcp_server.Service.Serve.{IsTended}
use linux_tcp_server.Service.Single.{serve_event-single}

-- The event brought the client just these messages; the client stays, and its ring is empty.
abbrev pub Delivered :
    {W : Type 0} → ℕ → ℕ → List (List ℕ) → List ℕ → Serving W → Serving W → Type 0
Delivered size p ms sent s s' =
    (ds : List Delivery) × (map payload ds ≡ ms)
    × (s'.log ≡ s.log ++ record { client = p; received = sent; deliveries = ds } ∷ [])
    × (s'.manager ≡ s.manager)
    × ((t : IsTended size s'.host p) × (t.kept ≡ []))

module _ {W : Type 0} {fd : ℕ} (socket : Socket W fd) where
  open socket use {recv, pending}

  serve_client-Delivered :
      (rounds size p : ℕ) (s : Serving W) (ms : List (List ℕ)) (t : IsTended size s.host p)
      → t.fd ≡ fd
      → size ≤ 8192
      → length (pending s.world) < rounds
      → t.kept ++ pending s.world ≡ encode_all ms
      → All (λ m. 2 + length m ≤ size) ms
      → Returns (serve_client recv rounds true fd p s) (Delivered size p ms (pending s.world) s)
  unfolding serve_client after_drain
  serve_client-Delivered rounds size p s ms t is_fd small enough sent fit =
      rw (t.is_client, t.is_msgd, t.is_fd, is_fd)
        (Returns-bind (Arrived ms (pending s.world) size) (Delivered size p ms (pending s.world) s)
          (drain recv rounds true fd t.demarcar s.world) _
          (messages_arrive socket rounds t.demarcar s.world t.kept size ms t.in_order t.incomplete
            small enough sent fit)
          λ r (same, all, e, held). rw e (
            r.deliveries,
            same,
            ap (λ l. s.log ++ record { client = p; received = l; deliveries = r.deliveries } ∷ [])
                all,
            refl,
            (
              record {
                client = record t.client { comm_fd = holds fd; msgd = holds (some r.msgd) };
                fd = fd;
                demarcar = r.msgd;
                kept = [];
                is_client = find-put_same p _ s.host.clients;
                is_fd = refl;
                is_msgd = refl;
                in_order = held;
                incomplete = omega arith;
              },
              refl,
            ),
          ))

  -- With the callback for messages set, if all listed clients are live and have descriptors: if one of
  -- them is in order with a ring of at most 8192 bytes, the bytes that it holds and those pending on
  -- its socket are the frames of some messages, each of which fits into the ring, and no other listed
  -- client has its descriptor, then one event for the descriptor, in more rounds than bytes are
  -- pending, delivers just these messages for the client, in order; the client stays, with an empty
  -- ring.
  pub sent_messages_arrive :
      (rounds size p : ℕ) (s : Serving W) (ms : List (List ℕ)) (t : IsTended size s.host p)
      → HaveFds s.host s.manager.tcp_client_db
      → mem p s.manager.tcp_client_db ≡ true
      → t.fd ≡ fd
      → ((q : ℕ) → mem q s.manager.tcp_client_db ≡ true → HasFd s.host q fd → q ≡ p)
      → size ≤ 8192
      → length (pending s.world) < rounds
      → t.kept ++ pending s.world ≡ encode_all ms
      → All (λ m. 2 + length m ≤ size) ms
      → Returns (serve_event recv rounds true fd s) (Delivered size p ms (pending s.world) s)
  sent_messages_arrive rounds size p s ms t have listed is_fd alone small enough sent fit =
      serve_event-single recv rounds fd p true s (Delivered size p ms (pending s.world) s)
        (serve_client-Delivered rounds size p s ms t is_fd small enough sent fit) have listed
        (t.client, t.is_client, t.is_fd ∙ ap (λ x. holds x) is_fd) alone
