-- ===== src/Controller/Threads/Attending.antt =====
-- The turns of the service's thread: it receives for a client, and gives clients up call by call.
use linux_tcp_server.Base.{
  ℕ, ◌≡◌, ◌≢◌, ap, subst, refl, true, false, Option, some, none, find, find-put_same,
  find-put_other, find-erase_other, erase, ℕ_discrete, arith, Returns, Returns-bind,
}
use linux_tcp_server.Stream.{Cut-IsPartial}
use linux_tcp_server.TcpClient.{holds}
use linux_tcp_server.Receive.{Recv, Ending, full, closed, idle, error, running, drain}
use linux_tcp_server.Receive.Stream.{IsBounded, Serves, drain-Serves}
use linux_tcp_server.ClientDb.{Host, mem, remove}
use linux_tcp_server.Service.{TcpClientServiceManager, remove_client, get_client_by_fd}
use linux_tcp_server.Service.Lookup.{IsFound, get_client_by_fd_lem}
use linux_tcp_server.Service.Interest.{watched, watched-close, watched-del}
use linux_tcp_server.Service.Watched.{removed_mem, other_mem}
use linux_tcp_server.Service.Serve.{IsTended}
use linux_tcp_server.Service.Isolation.{Tends, IsTended-still, have_fds}
use linux_tcp_server.Controller.Threads.{
  Shared, Accepting, Leaving, attending, to_close, to_forget, to_remove, leaving, leaving_turn,
  event_turn, receive_turn,
}
use linux_tcp_server.Controller.Threads.Sound.{
  deref_returns, get_returns, IsSound, IsApart, Goes, Arrives-still, event_elsewhere,
}
use linux_tcp_server.Service.Interest.{Epoll}

Goes-leaving :
    (e : Ending) (r comm_fd fd : ℕ) (acc : Accepting) (m : TcpClientServiceManager)
    → mem r m.tcp_client_db ≡ true
    → IsApart r acc
    → Goes (leaving e r comm_fd fd) acc m
Goes-leaving full r comm_fd fd acc m there apart = tt
Goes-leaving idle r comm_fd fd acc m there apart = tt
Goes-leaving running r comm_fd fd acc m there apart = tt
Goes-leaving closed r comm_fd fd acc m there apart = (there, apart)
Goes-leaving error r comm_fd fd acc m there apart = (there, apart)

-- A client of the list is written back in order.
Tends-stored :
    (r : ℕ) (m : TcpClientServiceManager) (h h' : Host)
    → ((q : ℕ) → r ≢ q → find q h'.clients ≡ find q h.clients)
    → IsTended 256 h' r
    → Tends 256 m h
    → Tends 256 m h'
Tends-stored r m h h' same t tends = record {
  epfd = tends.epfd;
  has_epoll = tends.has_epoll;
  each = λ q there. elim (ℕ_discrete r q) [
    | yes r_q ↦ subst (IsTended 256 h') r_q t
    | no differ ↦ (IsTended-still 256 q h h' (same q differ) (tends.each q there)).0
  ];
}

module _ ⦃kernel : Epoll⦄ where
  module _ {W : Type 0} (recv : ℕ → ℕ → W → Recv × W)
      (bounded : (fd space : ℕ) (w : W) → IsBounded space (recv fd space w).0) where
    receive_turn-IsSound :
        (rounds fd : ℕ) (found : Option ℕ) (s : Shared W) (o : IsSound s)
        → s.service ≡ attending
        → watched fd s.host.calls ≡ true
        → IsFound s.host fd o.svc.tcp_client_db found
        → Returns (receive_turn recv rounds true fd found s) IsSound
    unfolding receive_turn
    receive_turn-IsSound rounds fd none s o free on found = o
    receive_turn-IsSound rounds fd (some r) s o free on (there, has) =
        let t : IsTended 256 s.host r = o.tends.each r there in
        let apart : IsApart r s.acceptor =
          event_elsewhere s.acceptor r fd o.svc s.host o.arriving there has on in
        rw (t.is_client, t.is_msgd, t.is_fd)
          (Returns-bind (Serves t.kept 256) IsSound (drain recv rounds true t.fd t.demarcar s.world)
            _
            (drain-Serves recv bounded rounds t.fd t.demarcar s.world t.kept 256 t.in_order
              t.incomplete (omega arith))
            λ x (rest, cut, in_order, stops, fit). record {
              svc = o.svc;
              db = o.db;
              has_callback = o.has_callback;
              is_svc = o.is_svc;
              is_db = o.is_db;
              is_callback = o.is_callback;
              is_registered = o.is_registered;
              tends =
                  Tends-stored r o.svc s.host _
                    (λ q differ. find-put_other r q _ s.host.clients differ)
                    (record {
                      client = record t.client { comm_fd = holds t.fd; msgd = holds (some x.msgd) };
                      fd = t.fd;
                      demarcar = x.msgd;
                      kept = rest;
                      is_client = find-put_same r _ s.host.clients;
                      is_fd = refl;
                      is_msgd = refl;
                      in_order = in_order;
                      incomplete = Cut-IsPartial _ _ rest cut;
                    })
                    o.tends;
              arriving =
                  Arrives-still s.acceptor r o.svc o.svc s.host _ apart
                    (λ q differ. find-put_other r q _ s.host.clients differ) (λ q differ. refl)
                    (λ g off. off) o.arriving;
              going = Goes-leaving x.ending r t.fd fd s.acceptor o.svc there apart;
            })

    -- An event for a descriptor that epoll watches.
    pub event_turn-IsSound :
        (rounds fd : ℕ) (s : Shared W)
        → IsSound s
        → s.service ≡ attending
        → watched fd s.host.calls ≡ true
        → Returns (event_turn recv rounds true fd s) IsSound
    unfolding event_turn
    event_turn-IsSound rounds fd s o free on =
        deref_returns o.svc s.controller.tcp_client_svc_mgr IsSound _ o.is_svc (
          Returns-bind (IsFound s.host fd o.svc.tcp_client_db) IsSound
            (get_client_by_fd s.host fd o.svc) _
            (get_client_by_fd_lem s.host fd o.svc (have_fds o.tends))
            (λ found. receive_turn-IsSound rounds fd found s o free on))

  -- A call that leaves the clients alone, after which epoll watches no more than before.
  called-IsSound :
      {W : Type 0} (s : Shared W) (h : Host) (r : ℕ) (l : Leaving) (o : IsSound s)
      → h.clients ≡ s.host.clients
      → ((fd : ℕ) → watched fd s.host.calls ≡ false → watched fd h.calls ≡ false)
      → IsApart r s.acceptor
      → Goes l s.acceptor o.svc
      → IsSound (record s { host = h; service = l })
  called-IsSound s h r l o same less apart going = record {
    svc = o.svc;
    db = o.db;
    has_callback = o.has_callback;
    is_svc = o.is_svc;
    is_db = o.is_db;
    is_callback = o.is_callback;
    is_registered = o.is_registered;
    tends = record {
      epfd = o.tends.epfd;
      has_epoll = o.tends.has_epoll;
      each = λ q there. (IsTended-still 256 q s.host h (ap (find q) same) (o.tends.each q there)).0;
    };
    arriving =
        Arrives-still s.acceptor r o.svc o.svc s.host h apart (λ q differ. ap (find q) same)
          (λ q differ. refl) less o.arriving;
    going = going;
  }

  -- The client is off the heap and the list.
  removed-IsSound :
      {W : Type 0} (s : Shared W) (r : ℕ) (o : IsSound s)
      → IsApart r s.acceptor
      → IsSound (record s {
        controller = record s.controller {
          tcp_client_svc_mgr = some (record o.svc { tcp_client_db = remove r o.svc.tcp_client_db });
        };
        host = record s.host { clients = erase r s.host.clients };
        service = attending;
      })
  removed-IsSound s r o apart = record {
    svc = record o.svc { tcp_client_db = remove r o.svc.tcp_client_db };
    db = o.db;
    has_callback = o.has_callback;
    is_svc = refl;
    is_db = o.is_db;
    is_callback = o.is_callback;
    is_registered = o.is_registered;
    tends = record {
      epfd = o.tends.epfd;
      has_epoll = o.tends.has_epoll;
      each = λ q there.
          let (differ, was) = removed_mem r q o.svc.tcp_client_db there in
          (IsTended-still 256 q s.host _ (find-erase_other r q s.host.clients differ)
            (o.tends.each q was)).0;
    };
    arriving =
        Arrives-still s.acceptor r o.svc _ s.host _ apart
          (λ q differ. find-erase_other r q s.host.clients differ)
          (λ q differ. other_mem r q o.svc.tcp_client_db differ) (λ fd off. off) o.arriving;
    going = tt;
  }

  pub goes :
      {W : Type 0} (s : Shared W) (l : Leaving)
      → s.service ≡ l
      → (o : IsSound s) → Goes l s.acceptor o.svc
  goes s l e o = subst (λ x. Goes x s.acceptor o.svc) e o.going

  pub leaving_turn-IsSound :
      {W : Type 0} (s : Shared W)
      → (l : Leaving) → s.service ≡ l
      → IsSound s
      → Returns (leaving_turn l s) IsSound
  unfolding leaving_turn remove_client
  leaving_turn-IsSound s attending e o = o
  leaving_turn-IsSound s (to_close r comm_fd fd) e o =
      let (there, apart) = goes s _ e o in
      called-IsSound s _ r (to_forget r fd) o refl (watched-close comm_fd s.host.calls) apart
        (there, apart)
  leaving_turn-IsSound s (to_forget r fd) e o =
      let (there, apart) = goes s _ e o in
      deref_returns o.svc s.controller.tcp_client_svc_mgr IsSound _ o.is_svc (
        get_returns o.tends.epfd o.svc.epfd IsSound _ o.tends.has_epoll (
          called-IsSound s _ r (to_remove r) o refl (watched-del fd s.host.calls) apart
            (there, apart)))
  leaving_turn-IsSound s (to_remove r) e o =
      let (there, apart) = goes s _ e o in
      let t : IsTended 256 s.host r = o.tends.each r there in
      deref_returns o.svc s.controller.tcp_client_svc_mgr IsSound _ o.is_svc
        (rw t.is_client (removed-IsSound s r o apart))
