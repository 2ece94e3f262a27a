-- ===== src/Controller/Threads/Lost.antt =====
-- A client that TcpClientServiceManager.cpp lists and epoll does not watch: over all later turns of the
-- threads, nothing is received from it.
use mathlib.Core.List.{append-nil}
use linux_tcp_server.Base.{
  ℕ, ◌≡◌, ◌≢◌, ◌∙◌, ap, sym, true, false, some, find, List, [], ◌∷◌, ◌++◌, find-put_same,
  find-put_other, find-erase_other, find-erase_same, erase, ℕ_discrete, none_not_some, some_inj,
  eq_false, if◌then◌else◌,
}
use linux_tcp_server.TcpClient.{TcpClient}
use linux_tcp_server.Receive.{Ending, full, closed, idle, error, running}
use linux_tcp_server.ClientDb.{Host, mem, store_client}
use linux_tcp_server.Service.{TcpClientServiceManager, Entry}
use linux_tcp_server.Service.Lookup.{HasFd}
use linux_tcp_server.Service.Interest.{watched}
use linux_tcp_server.Service.Isolation.{received_from}
use linux_tcp_server.Controller.Stream.{received_from-append}
use linux_tcp_server.Controller.Threads.{
  Shared, Accepting, waiting, made, in_db, flagged, listed, Leaving, attending, to_close, to_forget,
  to_remove, leaving,
}
use linux_tcp_server.Service.Interest.{Epoll}

-- The acceptor's new client is another one, with another descriptor.
abbrev IsOther : ℕ → ℕ → Host → ℕ → Type 0
IsOther p fd h q = (q ≢ p) × ((g : ℕ) → HasFd h q g → g ≢ fd)

abbrev pub AreOther : ℕ → ℕ → Accepting → Host → Type 0
AreOther p fd waiting h = Unit
AreOther p fd (made q) h = IsOther p fd h q
AreOther p fd (in_db q) h = IsOther p fd h q
AreOther p fd (flagged q) h = IsOther p fd h q
AreOther p fd (listed q) h = IsOther p fd h q

-- The client that the service gives up is another one.
abbrev pub IsSpared : ℕ → Leaving → Type 0
IsSpared p attending = Unit
IsSpared p (to_close r comm_fd g) = r ≢ p
IsSpared p (to_forget r g) = r ≢ p
IsSpared p (to_remove r) = r ≢ p

pub AreOther-still :
    (p fd : ℕ) (acc : Accepting) (h h' : Host)
    → ((q g : ℕ) → HasFd h' q g → HasFd h q g)
    → AreOther p fd acc h
    → AreOther p fd acc h'
AreOther-still p fd waiting h h' back k = tt
AreOther-still p fd (made q) h h' back (differ, k) = (differ, (λ g has. k g (back q g has)))
AreOther-still p fd (in_db q) h h' back (differ, k) = (differ, (λ g has. k g (back q g has)))
AreOther-still p fd (flagged q) h h' back (differ, k) = (differ, (λ g has. k g (back q g has)))
AreOther-still p fd (listed q) h h' back (differ, k) = (differ, (λ g has. k g (back q g has)))

-- A client written back with its descriptor.
pub HasFd-stored :
    (h : Host) (r : ℕ) (x y : TcpClient)
    → find r h.clients ≡ some x
    → y.comm_fd ≡ x.comm_fd
    → (q g : ℕ) → HasFd (store_client r y h) q g
    → HasFd h q g
HasFd-stored h r x y is_x same q g (c, is_c, has) = elim (ℕ_discrete r q) [
  | yes r_q ↦ (
    x,
    ap (λ z. find z h.clients) (sym r_q) ∙ is_x,
    sym same
        ∙ ap (λ z. z.comm_fd)
            (some_inj (
              sym (find-put_same r y h.clients)
              ∙ ap (λ z. find z (store_client r y h).clients) r_q
              ∙ is_c))
        ∙ has,
  )
  | no differ ↦ (c, sym (find-put_other r q y h.clients differ) ∙ is_c, has)
]

-- One that is off the heap.
pub HasFd-erased :
    (h : Host) (r q g : ℕ) → HasFd (record h { clients = erase r h.clients }) q g → HasFd h q g
HasFd-erased h r q g (c, is_c, has) = elim (ℕ_discrete r q) [
  | yes r_q ↦ absurd (
      none_not_some
        (sym (find-erase_same r h.clients) ∙ ap (λ z. find z (erase r h.clients)) r_q ∙ is_c))
  | no differ ↦ (c, sym (find-erase_other r q h.clients differ) ∙ is_c, has)
]

pub IsSpared-leaving : (e : Ending) (p r comm_fd g : ℕ) → r ≢ p → IsSpared p (leaving e r comm_fd g)
IsSpared-leaving full p r comm_fd g differ = tt
IsSpared-leaving idle p r comm_fd g differ = tt
IsSpared-leaving running p r comm_fd g differ = tt
IsSpared-leaving closed p r comm_fd g differ = differ
IsSpared-leaving error p r comm_fd g differ = differ

-- An entry of the log for another client.
pub quiet_entry :
    (p : ℕ) (l : List Entry) (e : Entry)
    → e.client ≢ p
    → received_from p (l ++ e ∷ []) ≡ received_from p l
quiet_entry p l e differ =
    received_from-append p l (e ∷ [])
    ∙ ap (λ b. received_from p l ++ (if b then e.received ++ [] else []))
        (eq_false e.client p differ)
    ∙ append-nil (received_from p l)

module _ ⦃kernel : Epoll⦄ where
  -- The client is listed with a descriptor that epoll does not watch and that the acceptor's new client
  -- does not have; nobody gives it up, and `bytes` were received from it.
  pub record IsLost {W : Type 0} (p fd : ℕ) (bytes : List ℕ) (s : Shared W) : Type 0 where
    pub is_listed :
        (m : TcpClientServiceManager)
        → s.controller.tcp_client_svc_mgr ≡ some m
        → mem p m.tcp_client_db ≡ true
    pub has_fd : HasFd s.host p fd
    pub off : watched fd s.host.calls ≡ false
    pub newcomer : AreOther p fd s.acceptor s.host
    pub spared : IsSpared p s.service
    pub quiet : received_from p s.log ≡ bytes
