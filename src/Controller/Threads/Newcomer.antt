-- ===== src/Controller/Threads/Newcomer.antt =====
-- The client that the acceptor of TcpNewConnectionAcceptor.cpp has made, before epoll is told of it.
use linux_tcp_server.Base.{
  ℕ, ◌≡◌, ◌∙◌, ap, sym, refl, true, false, none, find, [], find-put_same, find-put_other, arith,
  none_not_some, inl, inr, Bool-cases,
}
use mathlib.Core.Bool.{false≢true}
use linux_tcp_server.Demarcar
use linux_tcp_server.Demarcar.{variable_size}
use linux_tcp_server.Demarcar.Fresh.{construct-Holds}
use linux_tcp_server.TcpClient.{TcpClient, set_state}
use linux_tcp_server.ClientDb.{Host, mem, store_client}
use linux_tcp_server.Service.{TcpClientServiceManager}
use linux_tcp_server.Service.Interest.{watched}
use linux_tcp_server.Service.Isolation.{Tends, IsTended-still}
use linux_tcp_server.Controller.{TcpServerController}
use linux_tcp_server.Controller.Accept.{Connection, new_client}
use linux_tcp_server.Controller.Accepted.{all_succeed}
use linux_tcp_server.Controller.Threads.{
  Accepting, Leaving, attending, to_close, to_forget, to_remove,
}
use linux_tcp_server.Controller.Threads.Sound.{IsNew, IsApart, Goes}
use linux_tcp_server.Service.Interest.{Epoll}

-- What the service gives up, when the acceptor goes on.
pub Goes-on :
    (l : Leaving) (acc acc' : Accepting) (m m' : TcpClientServiceManager)
    → ((r : ℕ) → mem r m.tcp_client_db ≡ true → mem r m'.tcp_client_db ≡ true)
    → ((r : ℕ) → mem r m.tcp_client_db ≡ true → IsApart r acc → IsApart r acc')
    → Goes l acc m
    → Goes l acc' m'
Goes-on attending acc acc' m m' still apart k = tt
Goes-on (to_close r comm_fd fd) acc acc' m m' still apart (there, k) =
    (still r there, apart r there k)
Goes-on (to_forget r fd) acc acc' m m' still apart (there, k) = (still r there, apart r there k)
Goes-on (to_remove r) acc acc' m m' still apart (there, k) = (still r there, apart r there k)

-- The heap with a client that is not listed.
pub Tends-unlisted :
    (p : ℕ) (x : TcpClient) (m : TcpClientServiceManager) (h : Host)
    → mem p m.tcp_client_db ≡ false
    → Tends 256 m h
    → Tends 256 m (store_client p x h)
Tends-unlisted p x m h out tends = record {
  epfd = tends.epfd;
  has_epoll = tends.has_epoll;
  each = λ q there.
      (IsTended-still 256 q h (store_client p x h)
        (find-put_other p q x h.clients
          (λ same. false≢true (sym out ∙ ap (λ y. mem y m.tcp_client_db) same ∙ there)))
        (tends.each q there)).0;
}

-- An address that is not in use is not listed.
pub new_unlisted :
    (p : ℕ) (m : TcpClientServiceManager) (h : Host)
    → find p h.clients ≡ none
    → Tends 256 m h
    → mem p m.tcp_client_db ≡ false
new_unlisted p m h new tends = elim (Bool-cases (mem p m.tcp_client_db)) [
  | inl there ↦ absurd (none_not_some (sym new ∙ (tends.each p there).is_client))
  | inr out ↦ out
]

module _ ⦃kernel : Epoll⦄ where
  -- The client that the acceptor has made.
  pub made-IsNew :
      (p : ℕ) (conn : Connection) (c : TcpServerController) (m : TcpClientServiceManager) (h : Host)
      → mem p m.tcp_client_db ≡ false
      → watched conn.comm_sock_fd h.calls ≡ false
      → IsNew p false m (store_client p (new_client all_succeed conn c) h)
  unfolding set_state new_client
  made-IsNew p conn c m h out off = (
    record {
      client = new_client all_succeed conn c;
      fd = conn.comm_sock_fd;
      demarcar = Demarcar.construct variable_size true true true 256;
      kept = [];
      is_client = find-put_same p _ h.clients;
      is_fd = refl;
      is_msgd = refl;
      in_order = construct-Holds variable_size 256 (omega arith) (omega arith);
      incomplete = omega arith;
    },
    out,
    off,
  )
