-- ===== src/Controller/Threads/Sound.antt =====
-- What holds between any two turns of the threads of Controller/Threads.
use linux_tcp_server.Base.{
  ℕ, ◌≡◌, ◌≢◌, ◌∙◌, ap, sym, subst, Bool, true, false, some, find, Option, Outcome, ◌>>=◌, Returns,
}
use mathlib.Core.Bool.{false≢true}
use linux_tcp_server.Demarcar.{deref}
use linux_tcp_server.TcpClient.{Slot, holds, get}
use linux_tcp_server.ClientDb.{Host, TcpClientDbManager, mem}
use linux_tcp_server.Service.{TcpClientServiceManager}
use linux_tcp_server.Service.Lookup.{HasFd, HasFd-unique}
use linux_tcp_server.Service.Interest.{watched}
use linux_tcp_server.Service.Serve.{IsTended}
use linux_tcp_server.Service.Isolation.{Tends}
use linux_tcp_server.Controller.Threads.{
  Shared, Accepting, waiting, made, in_db, flagged, listed, Leaving, attending, to_close, to_forget,
  to_remove,
}
use linux_tcp_server.Service.Interest.{Epoll}

-- The acceptor's new client is another one than `r`.
abbrev pub IsApart : ℕ → Accepting → Type 0
IsApart r waiting = Unit
IsApart r (made p) = p ≢ r
IsApart r (in_db p) = p ≢ r
IsApart r (flagged p) = p ≢ r
IsApart r (listed p) = p ≢ r

-- The client that the service gives up is in its list still, and is not the acceptor's new one.
abbrev pub Goes : Leaving → Accepting → TcpClientServiceManager → Type 0
Goes attending acc m = Unit
Goes (to_close r comm_fd fd) acc m = (mem r m.tcp_client_db ≡ true) × IsApart r acc
Goes (to_forget r fd) acc m = (mem r m.tcp_client_db ≡ true) × IsApart r acc
Goes (to_remove r) acc m = (mem r m.tcp_client_db ≡ true) × IsApart r acc

-- A listed client with a descriptor that epoll watches is not the new one.
unlisted_apart :
    (p r : ℕ) (m : TcpClientServiceManager)
    → mem p m.tcp_client_db ≡ false
    → mem r m.tcp_client_db ≡ true
    → p ≢ r
unlisted_apart p r m out there same =
    false≢true (sym out ∙ ap (λ x. mem x m.tcp_client_db) same ∙ there)

-- What follows the reading of a pointer, or of a field, that is set.
pub deref_returns :
    {A B : Type 0} (a : A) (x : Option A) (Q : B → Type 0) (f : A → Outcome B)
    → x ≡ some a
    → Returns (f a) Q
    → Returns (deref x >>= f) Q
deref_returns a x Q f e k = subst (λ y. Returns (deref y >>= f) Q) (sym e) k

pub get_returns :
    {A B : Type 0} (a : A) (x : Slot A) (Q : B → Type 0) (f : A → Outcome B)
    → x ≡ holds a
    → Returns (f a) Q
    → Returns (get x >>= f) Q
get_returns a x Q f e k = subst (λ y. Returns (get y >>= f) Q) (sym e) k

module _ ⦃kernel : Epoll⦄ where
  -- The acceptor's new client is in order, is in the service's list or not, and epoll does not watch its
  -- descriptor.
  abbrev pub IsNew : ℕ → Bool → TcpClientServiceManager → Host → Type 0
  IsNew p joined m h =
      (t : IsTended 256 h p) × (mem p m.tcp_client_db ≡ joined) × (watched t.fd h.calls ≡ false)

  abbrev pub Arrives : Accepting → TcpClientServiceManager → Host → Type 0
  Arrives waiting m h = Unit
  Arrives (made p) m h = IsNew p false m h
  Arrives (in_db p) m h = IsNew p false m h
  Arrives (flagged p) m h = IsNew p false m h
  Arrives (listed p) m h = IsNew p true m h

  pub record IsSound {W : Type 0} (s : Shared W) : Type 0 where
    pub svc : TcpClientServiceManager
    pub db : TcpClientDbManager
    pub has_callback : Bool
    pub is_svc : s.controller.tcp_client_svc_mgr ≡ some svc
    pub is_db : s.controller.tcp_client_db_mgr ≡ some db
    pub is_callback : s.controller.client_connected ≡ holds has_callback
    pub is_registered : s.controller.client_msg_recvd ≡ holds true
    pub tends : Tends 256 svc s.host
    pub arriving : Arrives s.acceptor svc s.host
    pub going : Goes s.service s.acceptor svc

  -- The new client stays as it is, and epoll watches no more than before.
  IsNew-still :
      (p : ℕ) (joined : Bool) (m m' : TcpClientServiceManager) (h h' : Host)
      → find p h'.clients ≡ find p h.clients
      → mem p m'.tcp_client_db ≡ mem p m.tcp_client_db
      → ((fd : ℕ) → watched fd h.calls ≡ false → watched fd h'.calls ≡ false)
      → IsNew p joined m h
      → IsNew p joined m' h'
  IsNew-still p joined m m' h h' same same_mem less (t, is_joined, off) = (
    record {
      client = t.client;
      fd = t.fd;
      demarcar = t.demarcar;
      kept = t.kept;
      is_client = same ∙ t.is_client;
      is_fd = t.is_fd;
      is_msgd = t.is_msgd;
      in_order = t.in_order;
      incomplete = t.incomplete;
    },
    same_mem ∙ is_joined,
    less t.fd off,
  )

  pub Arrives-still :
      (acc : Accepting) (r : ℕ) (m m' : TcpClientServiceManager) (h h' : Host)
      → IsApart r acc
      → ((p : ℕ) → r ≢ p → find p h'.clients ≡ find p h.clients)
      → ((p : ℕ) → r ≢ p → mem p m'.tcp_client_db ≡ mem p m.tcp_client_db)
      → ((fd : ℕ) → watched fd h.calls ≡ false → watched fd h'.calls ≡ false)
      → Arrives acc m h
      → Arrives acc m' h'
  Arrives-still waiting r m m' h h' apart same same_mem less k = tt
  Arrives-still (made p) r m m' h h' apart same same_mem less k =
      IsNew-still p false m m' h h' (same p (λ e. apart (sym e))) (same_mem p (λ e. apart (sym e)))
        less k
  Arrives-still (in_db p) r m m' h h' apart same same_mem less k =
      IsNew-still p false m m' h h' (same p (λ e. apart (sym e))) (same_mem p (λ e. apart (sym e)))
        less k
  Arrives-still (flagged p) r m m' h h' apart same same_mem less k =
      IsNew-still p false m m' h h' (same p (λ e. apart (sym e))) (same_mem p (λ e. apart (sym e)))
        less k
  Arrives-still (listed p) r m m' h h' apart same same_mem less k =
      IsNew-still p true m m' h h' (same p (λ e. apart (sym e))) (same_mem p (λ e. apart (sym e)))
        less k

  pub event_elsewhere :
      (acc : Accepting) (r fd : ℕ) (m : TcpClientServiceManager) (h : Host)
      → Arrives acc m h
      → mem r m.tcp_client_db ≡ true
      → HasFd h r fd
      → watched fd h.calls ≡ true
      → IsApart r acc
  event_elsewhere waiting r fd m h k there has on = tt
  event_elsewhere (made p) r fd m h (t, out, off) there has on = unlisted_apart p r m out there
  event_elsewhere (in_db p) r fd m h (t, out, off) there has on = unlisted_apart p r m out there
  event_elsewhere (flagged p) r fd m h (t, out, off) there has on = unlisted_apart p r m out there
  event_elsewhere (listed p) r fd m h (t, joined, off) there has on = λ same. false≢true (
      sym off
      ∙ ap (λ x. watched x h.calls)
          (HasFd-unique h r t.fd fd
            (subst (λ x. HasFd h x t.fd) same (t.client, t.is_client, t.is_fd)) has)
      ∙ on)
