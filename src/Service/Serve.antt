-- ===== src/Service/Serve.antt =====
-- One event of the service thread, for a client in order: what is delivered, what becomes of the client,
-- and that the others are left alone.
use linux_tcp_server.Base.{
  none_not_some, ℕ, ◌≤◌, ◌≡◌, ◌≢◌, ◌⊎◌, ◌∙◌, ap, inl, inr, refl, sym, Bool, true, false, none, some,
  List, [], ◌∷◌, ◌++◌, map, find, erase, find-put_same, find-put_other, find-erase_same,
  find-erase_other, done, Returns, Returns-bind,
}
use linux_tcp_server.Stream.{Fit, Cut, IsPartial, Cut-IsPartial}
use linux_tcp_server.Demarcar.{Demarcar, Delivery, payload, variable_size}
use linux_tcp_server.Demarcar.Holds.{Holds}
use linux_tcp_server.TcpClient.{TcpClient, holds}
use linux_tcp_server.Receive.{Recv, Ending, full, closed, idle, error, running, Drained, drain}
use linux_tcp_server.Receive.Stream.{IsBounded, Serves, drain-Serves}
use linux_tcp_server.ClientDb.{Host, close, epoll_del, store_client, remove}
use linux_tcp_server.Service.{
  TcpClientServiceManager, Serving, after_drain, hang_up, remove_client, serve_client,
}
use linux_tcp_server.Service.Lookup.{HasFd, HasFd-unique}

-- The client behind the pointer is live, has a descriptor, and its demarcator is in order, with the
-- bytes `kept` of a frame that is not complete.
pub record IsTended (size : ℕ) (h : Host) (p : ℕ) : Type 0 where
  pub client : TcpClient
  pub fd : ℕ
  pub demarcar : Demarcar
  pub kept : List ℕ
  pub is_client : find p h.clients ≡ some client
  pub is_fd : client.comm_fd ≡ holds fd
  pub is_msgd : client.msgd ≡ holds (some demarcar)
  pub in_order : Holds demarcar variable_size kept size
  pub incomplete : IsPartial kept

-- The endings after which the connection is given up.
abbrev hangs_up : Ending → Bool
hangs_up closed = true
hangs_up error = true
hangs_up _ = false

-- What is done after the loop over `recv`: nothing, or the client's removal with two system calls.
abbrev Concludes :
    Ending → ℕ → ℕ → TcpClientServiceManager → Host → TcpClientServiceManager × Host → Type 0
Concludes e p fd m h (m', h') =
    ((hangs_up e ≡ false) × (m' ≡ m) × (h' ≡ h))
    ⊎ ((hangs_up e ≡ true)
        × (m' ≡ record m { tcp_client_db = remove p m.tcp_client_db })
        × (h'.clients ≡ erase p h.clients)
        × (h'.calls ≡ (h.calls ++ close fd ∷ []) ++ epoll_del fd ∷ []))

pub hang_up_lem :
    (p fd epfd : ℕ) (m : TcpClientServiceManager) (h : Host) (c : TcpClient)
    → m.epfd ≡ holds epfd
    → find p h.clients ≡ some c
    → hang_up p fd fd m h
      ≡ done (
        record m { tcp_client_db = remove p m.tcp_client_db },
        record h {
          clients = erase p h.clients;
          calls = (h.calls ++ close fd ∷ []) ++ epoll_del fd ∷ [];
        },
      )
unfolding hang_up remove_client
hang_up_lem p fd epfd m h c has_epoll live = rw (has_epoll, live) refl

after_drain_lem :
    (e : Ending) (p fd epfd : ℕ) (m : TcpClientServiceManager) (h : Host) (c : TcpClient)
    → m.epfd ≡ holds epfd
    → find p h.clients ≡ some c
    → Returns (after_drain e p fd fd m h) (Concludes e p fd m h)
unfolding after_drain
after_drain_lem full p fd epfd m h c has_epoll live = inl (refl, refl, refl)
after_drain_lem idle p fd epfd m h c has_epoll live = inl (refl, refl, refl)
after_drain_lem running p fd epfd m h c has_epoll live = inl (refl, refl, refl)
after_drain_lem closed p fd epfd m h c has_epoll live =
    rw (hang_up_lem p fd epfd m h c has_epoll live) (inr (refl, refl, refl, refl))
after_drain_lem error p fd epfd m h c has_epoll live =
    rw (hang_up_lem p fd epfd m h c has_epoll live) (inr (refl, refl, refl, refl))

-- What one event does for a client `p` that held the bytes `kept`: the messages delivered are the
-- frames of these bytes and the received ones; either the client stays with the rest, or it is gone
-- from the heap and the list, its descriptor closed; a client that is there keeps its descriptor, and
-- no other client changes.
pub record Attends {W : Type 0} (size p fd : ℕ) (kept : List ℕ) (s s' : Serving W) : Type 0 where
  pub messages : List Delivery
  pub received : List ℕ
  pub rest : List ℕ
  pub logged :
      s'.log ≡ s.log ++ record { client = p; received = received; deliveries = messages } ∷ []
  pub cut : Cut (kept ++ received) (map payload messages) rest
  pub fit : Fit size (map payload messages)
  pub others : (q : ℕ) → p ≢ q → find q s'.host.clients ≡ find q s.host.clients
  pub same_epoll : s'.manager.epfd ≡ s.manager.epfd
  pub same_ready : s'.manager.is_ready ≡ s.manager.is_ready
  pub same_fd : (g : ℕ) → HasFd s'.host p g → g ≡ fd
  pub outcome :
      ((s'.manager ≡ s.manager)
        × (s'.host.calls ≡ s.host.calls)
        × ((t : IsTended size s'.host p) × (t.kept ≡ rest)))
      ⊎ ((s'.manager.tcp_client_db ≡ remove p s.manager.tcp_client_db)
          × (find p s'.host.clients ≡ none)
          × (s'.host.calls ≡ (s.host.calls ++ close fd ∷ []) ++ epoll_del fd ∷ []))

module _ {W : Type 0} {size p : ℕ} (s : Serving W) (t : IsTended size s.host p) where
  -- The client after the loop, on the heap.
  abbrev kept_host : Drained W → Host
  kept_host r =
      store_client p (record t.client { comm_fd = holds t.fd; msgd = holds (some r.msgd) }) s.host

  attends :
      (r : Drained W)
      → Serves t.kept size r
      → (u : TcpClientServiceManager × Host) → Concludes r.ending p t.fd s.manager (kept_host r) u
      → Attends size p t.fd t.kept s (record {
        log = s.log ++ record { client = p; received = r.received; deliveries = r.deliveries } ∷ [];
        manager = u.0;
        host = u.1;
        world = r.world;
      })
  attends r (rest, cut, in_order, stops, fit) (m, h) (inl (going, same_m, same_h)) = record {
    messages = r.deliveries;
    received = r.received;
    rest = rest;
    logged = refl;
    cut = cut;
    fit = fit;
    others =
        λ q differ. ap (λ x. find q x.clients) same_h ∙ find-put_other p q _ s.host.clients differ;
    same_epoll = ap (λ x. x.epfd) same_m;
    same_ready = ap (λ x. x.is_ready) same_m;
    same_fd = λ g has. HasFd-unique h p g t.fd has (
      record t.client { comm_fd = holds t.fd; msgd = holds (some r.msgd) },
      ap (λ x. find p x.clients) same_h ∙ find-put_same p _ s.host.clients,
      refl,
    );
    outcome = inl (
      same_m,
      ap (λ x. x.calls) same_h,
      (
        record {
          client = record t.client { comm_fd = holds t.fd; msgd = holds (some r.msgd) };
          fd = t.fd;
          demarcar = r.msgd;
          kept = rest;
          is_client = ap (λ x. find p x.clients) same_h ∙ find-put_same p _ s.host.clients;
          is_fd = refl;
          is_msgd = refl;
          in_order = in_order;
          incomplete = Cut-IsPartial _ _ rest cut;
        },
        refl,
      ),
    );
  }
  attends r (rest, cut, in_order, stops, fit) (m, h) (inr (going, less, erased, calls)) = record {
    messages = r.deliveries;
    received = r.received;
    rest = rest;
    logged = refl;
    cut = cut;
    fit = fit;
    others = λ q differ.
        ap (find q) erased
        ∙ find-erase_other p q _ differ
        ∙ find-put_other p q _ s.host.clients differ;
    same_epoll = ap (λ x. x.epfd) less;
    same_ready = ap (λ x. x.is_ready) less;
    same_fd = λ g (c, is_c, has).
        absurd (none_not_some (sym (ap (find p) erased ∙ find-erase_same p _) ∙ is_c));
    outcome = inr (ap (λ x. x.tcp_client_db) less, ap (find p) erased ∙ find-erase_same p _, calls);
  }

module _ {W : Type 0} (recv : ℕ → ℕ → W → Recv × W)
    (bounded : (fd space : ℕ) (w : W) → IsBounded space (recv fd space w).0) where
  pub serve_client_lem :
      (rounds size p epfd : ℕ) (s : Serving W) (t : IsTended size s.host p)
      → size ≤ 8192
      → s.manager.epfd ≡ holds epfd
      → Returns (serve_client recv rounds true t.fd p s) (Attends size p t.fd t.kept s)
  unfolding serve_client
  serve_client_lem rounds size p epfd s t small has_epoll =
      rw (t.is_client, t.is_msgd, t.is_fd)
        (Returns-bind (Serves t.kept size) (Attends size p t.fd t.kept s)
          (drain recv rounds true t.fd t.demarcar s.world) _
          (drain-Serves recv bounded rounds t.fd t.demarcar s.world t.kept size t.in_order
            t.incomplete small)
          λ r v.
            Returns-bind (Concludes r.ending p t.fd s.manager (kept_host s t r))
              (Attends size p t.fd t.kept s)
              (after_drain r.ending p t.fd t.fd s.manager (kept_host s t r)) _
              (after_drain_lem r.ending p t.fd epfd s.manager (kept_host s t r) _ has_epoll (
                find-put_same p
                  (record t.client { comm_fd = holds t.fd; msgd = holds (some r.msgd) })
                  s.host.clients))
              (attends s t r v))
