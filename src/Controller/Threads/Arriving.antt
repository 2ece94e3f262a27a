-- ===== src/Controller/Threads/Arriving.antt =====
-- The turns of the acceptor's thread: it takes a connection, and hands the new client on call by call.
use linux_tcp_server.Base.{
  ℕ, ◌≡◌, ◌∙◌, ap, sym, subst, refl, false, some, none, find, find-put_same, ℕ_discrete, Returns,
}
use mathlib.Core.Bool.{false≢true}
use linux_tcp_server.TcpClient.{set_state, multiplex_listen}
use linux_tcp_server.ClientDb
use linux_tcp_server.ClientDb.{Host, mem, store_client, epoll_add, call}
use linux_tcp_server.Service
use linux_tcp_server.Service.{TcpClientServiceManager, add_client_to_epoll}
use linux_tcp_server.Service.Interest.{watched}
use linux_tcp_server.Service.Serve.{IsTended}
use linux_tcp_server.Service.Isolation.{IsTended-still}
use linux_tcp_server.Controller.{multiplex}
use linux_tcp_server.Controller.Accept.{Connection}
use linux_tcp_server.Controller.Accepted.{all_succeed, add_client_to_epoll_lem}
use linux_tcp_server.Controller.Joining.{mem-last_other, joined, still_listed}
use linux_tcp_server.Controller.Threads.{
  Shared, Accepting, waiting, made, in_db, flagged, listed, accept_turn, acceptor_turn,
}
use linux_tcp_server.Controller.Threads.Sound.{IsSound, Goes, Arrives, deref_returns, get_returns}
use linux_tcp_server.Controller.Threads.Newcomer.{Goes-on, Tends-unlisted, new_unlisted, made-IsNew}
use linux_tcp_server.Service.Interest.{Epoll}

module _ ⦃kernel : Epoll⦄ where
  module _ {W : Type 0} (p : ℕ) (s : Shared W) (o : IsSound s) where
    pub accept_turn-IsSound :
        (conn : Connection)
        → s.acceptor ≡ waiting
        → find p s.host.clients ≡ none
        → watched conn.comm_sock_fd s.host.calls ≡ false
        → Returns (accept_turn all_succeed p conn s) IsSound
    unfolding accept_turn
    accept_turn-IsSound conn idle new unwatched =
        get_returns o.has_callback s.controller.client_connected IsSound _ o.is_callback (record {
          svc = o.svc;
          db = o.db;
          has_callback = o.has_callback;
          is_svc = o.is_svc;
          is_db = o.is_db;
          is_callback = o.is_callback;
          is_registered = o.is_registered;
          tends = Tends-unlisted p _ o.svc s.host out o.tends;
          arriving = made-IsNew p conn s.controller o.svc s.host out unwatched;
          going =
              Goes-on s.service s.acceptor (made p) o.svc o.svc (λ r there. there)
                (λ r there k same.
                  false≢true (sym out ∙ ap (λ y. mem y o.svc.tcp_client_db) same ∙ there))
                o.going;
        })
      where
        out : mem p o.svc.tcp_client_db ≡ false
        out = new_unlisted p o.svc s.host new o.tends

    in_db-IsSound :
        s.acceptor ≡ made p
        → IsSound (record s {
          controller = record s.controller {
            tcp_client_db_mgr = some (ClientDb.add_client_to_db p o.db);
          };
          acceptor = in_db p;
        })
    in_db-IsSound e = record {
      svc = o.svc;
      db = ClientDb.add_client_to_db p o.db;
      has_callback = o.has_callback;
      is_svc = o.is_svc;
      is_db = refl;
      is_callback = o.is_callback;
      is_registered = o.is_registered;
      tends = o.tends;
      arriving = subst (λ x. Arrives x o.svc s.host) e o.arriving;
      going =
          Goes-on s.service (made p) (in_db p) o.svc o.svc (λ r there. there) (λ r there k. k)
            (subst (λ x. Goes s.service x o.svc) e o.going);
    }

    flagged-IsSound : s.acceptor ≡ in_db p → Returns (acceptor_turn (in_db p) s) IsSound
    unfolding acceptor_turn multiplex set_state
    flagged-IsSound e =
        let (t, out, off) = subst (λ x. Arrives x o.svc s.host) e o.arriving in
        rw t.is_client (record {
          svc = o.svc;
          db = o.db;
          has_callback = o.has_callback;
          is_svc = o.is_svc;
          is_db = o.is_db;
          is_callback = o.is_callback;
          is_registered = o.is_registered;
          tends = Tends-unlisted p _ o.svc s.host out o.tends;
          arriving = (
            record {
              client = set_state t.client multiplex_listen;
              fd = t.fd;
              demarcar = t.demarcar;
              kept = t.kept;
              is_client = find-put_same p _ s.host.clients;
              is_fd = t.is_fd;
              is_msgd = t.is_msgd;
              in_order = t.in_order;
              incomplete = t.incomplete;
            },
            out,
            off,
          );
          going =
              Goes-on s.service (in_db p) (flagged p) o.svc o.svc (λ r there. there)
                (λ r there k. k) (subst (λ x. Goes s.service x o.svc) e o.going);
        })

    listed-IsSound :
        s.acceptor ≡ flagged p
        → IsSound (record s {
          controller = record s.controller {
            tcp_client_svc_mgr = some (Service.add_client_to_db p o.svc);
          };
          acceptor = listed p;
        })
    unfolding Service.add_client_to_db
    listed-IsSound e =
        let (t, out, off) = subst (λ x. Arrives x o.svc s.host) e o.arriving in
        record {
          svc = Service.add_client_to_db p o.svc;
          db = o.db;
          has_callback = o.has_callback;
          is_svc = refl;
          is_db = o.is_db;
          is_callback = o.is_callback;
          is_registered = o.is_registered;
          tends = record {
            epfd = o.tends.epfd;
            has_epoll = o.tends.has_epoll;
            each = λ q there. elim (ℕ_discrete p q) [
              | yes same ↦ subst (IsTended 256 s.host) same t
              | no differ ↦ o.tends.each q (mem-last_other q p o.svc.tcp_client_db differ there)
            ];
          };
          arriving = (t, joined p o.svc, off);
          going =
              Goes-on s.service (flagged p) (listed p) o.svc (Service.add_client_to_db p o.svc)
                (λ r there. still_listed p r o.svc there) (λ r there k. k)
                (subst (λ x. Goes s.service x o.svc) e o.going);
        }

    waiting-IsSound :
        s.acceptor ≡ listed p
        → (fd : ℕ) → IsSound (record s { host = call (epoll_add fd) s.host; acceptor = waiting })
    waiting-IsSound e fd = record {
      svc = o.svc;
      db = o.db;
      has_callback = o.has_callback;
      is_svc = o.is_svc;
      is_db = o.is_db;
      is_callback = o.is_callback;
      is_registered = o.is_registered;
      tends = record {
        epfd = o.tends.epfd;
        has_epoll = o.tends.has_epoll;
        each = λ q there. (IsTended-still 256 q s.host _ refl (o.tends.each q there)).0;
      };
      arriving = tt;
      going =
          Goes-on s.service (listed p) waiting o.svc o.svc (λ r there. there) (λ r there k. tt)
            (subst (λ x. Goes s.service x o.svc) e o.going);
    }

  pub acceptor_turn-IsSound :
      {W : Type 0} (s : Shared W) (acc : Accepting)
      → s.acceptor ≡ acc
      → IsSound s
      → Returns (acceptor_turn acc s) IsSound
  unfolding acceptor_turn multiplex
  acceptor_turn-IsSound s waiting e o = o
  acceptor_turn-IsSound s (made p) e o =
      deref_returns o.db s.controller.tcp_client_db_mgr IsSound _ o.is_db (in_db-IsSound p s o e)
  acceptor_turn-IsSound s (in_db p) e o = flagged-IsSound p s o e
  acceptor_turn-IsSound s (flagged p) e o =
      deref_returns o.svc s.controller.tcp_client_svc_mgr IsSound _ o.is_svc
        (listed-IsSound p s o e)
  acceptor_turn-IsSound s (listed p) e o =
      let (t, there, off) = subst (λ x. Arrives x o.svc s.host) e o.arriving in
      deref_returns o.svc s.controller.tcp_client_svc_mgr IsSound _ o.is_svc (
        rw
          (add_client_to_epoll_lem p t.fd o.tends.epfd o.svc t.client s.host t.is_client t.is_fd
            o.tends.has_epoll)
          (waiting-IsSound p s o e t.fd))
