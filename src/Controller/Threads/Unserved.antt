-- ===== src/Controller/Threads/Unserved.antt =====
-- The turns of Controller/Threads keep a lost client lost: epoll never reports its descriptor to the loop
-- of TcpClientServiceManager.cpp.
use linux_tcp_server.Base.{
  ℕ, ◌≡◌, ◌≢◌, ◌∙◌, ap, sym, subst, refl, true, none, find, List, find-put_same, find-put_other,
  find-erase_other, Returns, none_not_some, some_inj, eq_false, if◌then◌else◌,
}
use linux_tcp_server.TcpClient.{set_state}
use linux_tcp_server.ClientDb.{mem, store_client, call, epoll_add}
use linux_tcp_server.Service.{remove_client}
use linux_tcp_server.Service.Lookup.{HasFd-unique}
use linux_tcp_server.Service.Interest.{watched, watched-close, watched-del}
use linux_tcp_server.Service.Watched.{other_mem}
use linux_tcp_server.Service.Serve.{IsTended}
use linux_tcp_server.Controller.{multiplex}
use linux_tcp_server.Controller.Accept.{Connection, new_client}
use linux_tcp_server.Controller.Accepted.{all_succeed, add_client_to_epoll_lem}
use linux_tcp_server.Controller.Joining.{still_listed}
use linux_tcp_server.Controller.Threads.{
  Shared, Accepting, waiting, made, in_db, flagged, listed, Leaving, attending, to_close, to_forget,
  to_remove, accept_turn, acceptor_turn, leaving_turn,
}
use linux_tcp_server.Controller.Threads.Sound.{IsSound, Arrives, deref_returns, get_returns}
use linux_tcp_server.Controller.Threads.Attending.{goes}
use linux_tcp_server.Controller.Threads.Lost.{
  IsLost, AreOther-still, HasFd-erased, HasFd-stored, AreOther, IsSpared,
}
use linux_tcp_server.Service.Interest.{Epoll}

module _ ⦃kernel : Epoll⦄ where
  module _ {W : Type 0} (p fd : ℕ) (bytes : List ℕ) (s : Shared W) (o : IsSound s)
      (lost : IsLost p fd bytes s) where
    pub accept_turn-IsLost :
        (q : ℕ) (conn : Connection)
        → find q s.host.clients ≡ none
        → conn.comm_sock_fd ≢ fd
        → Returns (accept_turn all_succeed q conn s) (IsLost p fd bytes)
    unfolding accept_turn new_client set_state
    accept_turn-IsLost q conn new other =
        get_returns o.has_callback s.controller.client_connected (IsLost p fd bytes) _ o.is_callback
          (record {
            is_listed = lost.is_listed;
            has_fd = (
              lost.has_fd.0,
              find-put_other q p _ s.host.clients differ ∙ lost.has_fd.1,
              lost.has_fd.2,
            );
            off = lost.off;
            newcomer = (
              differ,
              (λ g has same. other (
                  HasFd-unique (store_client q (new_client all_succeed conn s.controller) s.host) q
                    conn.comm_sock_fd g (_, find-put_same q _ s.host.clients, refl) has
                  ∙ same)),
            );
            spared = lost.spared;
            quiet = lost.quiet;
          })
      where
        differ : q ≢ p
        differ same = none_not_some (sym new ∙ ap (λ x. find x s.host.clients) same ∙ lost.has_fd.1)

    flagged-IsLost :
        (q : ℕ) → s.acceptor ≡ in_db q → Returns (acceptor_turn (in_db q) s) (IsLost p fd bytes)
    unfolding acceptor_turn multiplex set_state
    flagged-IsLost q e =
        let (t, out, unwatched) = subst (λ x. Arrives x o.svc s.host) e o.arriving in
        let (differ, k) = subst (λ x. AreOther p fd x s.host) e lost.newcomer in
        rw t.is_client (record {
          is_listed = lost.is_listed;
          has_fd = (
            lost.has_fd.0,
            find-put_other q p _ s.host.clients differ ∙ lost.has_fd.1,
            lost.has_fd.2,
          );
          off = lost.off;
          newcomer =
              (differ, (λ g has. k g (HasFd-stored s.host q t.client _ t.is_client refl q g has)));
          spared = lost.spared;
          quiet = lost.quiet;
        })

    watched-IsLost :
        (q : ℕ)
        → s.acceptor ≡ listed q
        → (t : IsTended 256 s.host q)
        → IsLost p fd bytes (record s { host = call (epoll_add t.fd) s.host; acceptor = waiting })
    watched-IsLost q e t =
        let (differ, k) = subst (λ x. AreOther p fd x s.host) e lost.newcomer in
        record {
          is_listed = lost.is_listed;
          has_fd = lost.has_fd;
          off =
              kernel.added fd t.fd s.host.calls
              ∙ ap (λ b. if b then true else watched fd s.host.calls)
                  (eq_false t.fd fd (k t.fd (t.client, t.is_client, t.is_fd)))
              ∙ lost.off;
          newcomer = tt;
          spared = lost.spared;
          quiet = lost.quiet;
        }

    pub acceptor_turn-IsLost :
        (acc : Accepting) → s.acceptor ≡ acc → Returns (acceptor_turn acc s) (IsLost p fd bytes)
    unfolding acceptor_turn
    acceptor_turn-IsLost waiting e = lost
    acceptor_turn-IsLost (made q) e =
        deref_returns o.db s.controller.tcp_client_db_mgr (IsLost p fd bytes) _ o.is_db (record {
          is_listed = lost.is_listed;
          has_fd = lost.has_fd;
          off = lost.off;
          newcomer = subst (λ x. AreOther p fd x s.host) e lost.newcomer;
          spared = lost.spared;
          quiet = lost.quiet;
        })
    acceptor_turn-IsLost (in_db q) e = flagged-IsLost q e
    acceptor_turn-IsLost (flagged q) e =
        deref_returns o.svc s.controller.tcp_client_svc_mgr (IsLost p fd bytes) _ o.is_svc (record {
          is_listed = λ m is_m.
              ap (λ x. mem p x.tcp_client_db) (sym (some_inj is_m))
              ∙ still_listed q p o.svc (lost.is_listed o.svc o.is_svc);
          has_fd = lost.has_fd;
          off = lost.off;
          newcomer = subst (λ x. AreOther p fd x s.host) e lost.newcomer;
          spared = lost.spared;
          quiet = lost.quiet;
        })
    acceptor_turn-IsLost (listed q) e =
        let (t, there, unwatched) = subst (λ x. Arrives x o.svc s.host) e o.arriving in
        deref_returns o.svc s.controller.tcp_client_svc_mgr (IsLost p fd bytes) _ o.is_svc (
          rw
            (add_client_to_epoll_lem q t.fd o.tends.epfd o.svc t.client s.host t.is_client t.is_fd
              o.tends.has_epoll)
            (watched-IsLost q e t))

    pub leaving_turn-IsLost :
        (l : Leaving) → s.service ≡ l → Returns (leaving_turn l s) (IsLost p fd bytes)
    unfolding leaving_turn remove_client
    leaving_turn-IsLost attending e = lost
    leaving_turn-IsLost (to_close r comm_fd g) e = record {
      is_listed = lost.is_listed;
      has_fd = lost.has_fd;
      off = watched-close comm_fd s.host.calls fd lost.off;
      newcomer = AreOther-still p fd s.acceptor s.host _ (λ q k has. has) lost.newcomer;
      spared = subst (IsSpared p) e lost.spared;
      quiet = lost.quiet;
    }
    leaving_turn-IsLost (to_forget r g) e =
        deref_returns o.svc s.controller.tcp_client_svc_mgr (IsLost p fd bytes) _ o.is_svc (
          get_returns o.tends.epfd o.svc.epfd (IsLost p fd bytes) _ o.tends.has_epoll (record {
            is_listed = lost.is_listed;
            has_fd = lost.has_fd;
            off = watched-del g s.host.calls fd lost.off;
            newcomer = AreOther-still p fd s.acceptor s.host _ (λ q k has. has) lost.newcomer;
            spared = subst (IsSpared p) e lost.spared;
            quiet = lost.quiet;
          }))
    leaving_turn-IsLost (to_remove r) e =
        let t : IsTended 256 s.host r = o.tends.each r (goes s (to_remove r) e o).0 in
        let differ : r ≢ p = subst (IsSpared p) e lost.spared in
        deref_returns o.svc s.controller.tcp_client_svc_mgr (IsLost p fd bytes) _ o.is_svc (
          rw t.is_client (record {
            is_listed = λ m is_m.
                ap (λ x. mem p x.tcp_client_db) (sym (some_inj is_m))
                ∙ other_mem r p o.svc.tcp_client_db differ
                ∙ lost.is_listed o.svc o.is_svc;
            has_fd = (
              lost.has_fd.0,
              find-erase_other r p s.host.clients differ ∙ lost.has_fd.1,
              lost.has_fd.2,
            );
            off = lost.off;
            newcomer =
                AreOther-still p fd s.acceptor s.host _ (λ q g has. HasFd-erased s.host r q g has)
                  lost.newcomer;
            spared = tt;
            quiet = lost.quiet;
          }))
