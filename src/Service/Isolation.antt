-- ===== src/Service/Isolation.antt =====
-- The service thread over any sequence of events: it neither faults nor blocks, and the messages of a
-- client are cut from the client's own bytes.
use linux_tcp_server.Base.{
  some_inj, ℕ, ◌≤◌, ◌≡◌, ◌≢◌, ◌⊎◌, ◌∙◌, ap, inl, inr, refl, sym, subst, true, ◌&&◌, not, Option,
  none, some, List, [], ◌∷◌, ◌++◌, find, if◌then◌else◌, ◌==◌, Returns, Returns-bind, Returns-mono,
  eq_false, eq_refl, ℕ_discrete,
}
use mathlib.Core.Bool.{false≢true}
use linux_tcp_server.Bcb.Valid.{contents}
use linux_tcp_server.Demarcar.{Delivery}
use linux_tcp_server.TcpClient.{holds_inj, holds}
use linux_tcp_server.Receive.{Recv}
use linux_tcp_server.Receive.Stream.{IsBounded}
use linux_tcp_server.ClientDb.{Host, mem}
use linux_tcp_server.ClientDb.Purge.{mem-remove}
use linux_tcp_server.Service.{
  TcpClientServiceManager, Entry, Serving, serve_found, serve_client, serve_event, get_client_by_fd,
}
use linux_tcp_server.Service.Lookup.{HaveFds, IsFound, HasFd-unique, get_client_by_fd_lem}
use linux_tcp_server.Service.Serve.{IsTended, Attends, serve_client_lem}

-- Every client of the list is in order, and epoll is there.
pub record Tends (size : ℕ) (m : TcpClientServiceManager) (h : Host) : Type 0 where
  pub epfd : ℕ
  pub has_epoll : m.epfd ≡ holds epfd
  pub each : (p : ℕ) → mem p m.tcp_client_db ≡ true → IsTended size h p

-- The bytes that the events of a log brought for a client.
abbrev pub received_from : ℕ → List Entry → List ℕ
received_from p [] = []
received_from p (e ∷ l) =
    let rest = received_from p l in if e.client == p then e.received ++ rest else rest

-- The messages that were delivered for it.
abbrev pub delivered_for : ℕ → List Entry → List Delivery
delivered_for p [] = []
delivered_for p (e ∷ l) =
    let rest = delivered_for p l in if e.client == p then e.deliveries ++ rest else rest

-- A client that is not changed stays in order.
pub IsTended-still :
    (size p : ℕ) (h h' : Host)
    → find p h'.clients ≡ find p h.clients
    → (t : IsTended size h p) → (u : IsTended size h' p) × (u.kept ≡ t.kept)
IsTended-still size p h h' same t = (
  record {
    client = t.client;
    fd = t.fd;
    demarcar = t.demarcar;
    kept = t.kept;
    is_client = same ∙ t.is_client;
    is_fd = t.is_fd;
    is_msgd = t.is_msgd;
    in_order = t.in_order;
    incomplete = t.incomplete;
  },
  refl,
)

pub have_fds :
    {size : ℕ} {m : TcpClientServiceManager} {h : Host} → Tends size m h → HaveFds h m.tcp_client_db
have_fds t p there = let c = t.each p there in (c.fd, (c.client, c.is_client, c.is_fd))

pub members_else :
    {W : Type 0} (size p fd : ℕ) (kept : List ℕ) (s s' : Serving W) (q : ℕ)
    → Attends size p fd kept s s'
    → p ≢ q
    → mem q s'.manager.tcp_client_db ≡ mem q s.manager.tcp_client_db
members_else size p fd kept s s' q a differ = elim a.outcome [
  | inl (same, calls, t) ↦ ap (λ m. mem q m.tcp_client_db) same
  | inr (less, gone, calls) ↦
      ap (mem q) less
      ∙ mem-remove p q s.manager.tcp_client_db
      ∙ ap (λ b. not b && mem q s.manager.tcp_client_db) (eq_false p q differ)
]

-- If the client is in the list after the event, it was before, and it is in order with the rest.
pub attended_again :
    {W : Type 0} (size p fd : ℕ) (kept : List ℕ) (s s' : Serving W)
    → (a : Attends size p fd kept s s') → mem p s'.manager.tcp_client_db ≡ true
    → (t : IsTended size s'.host p) × (t.kept ≡ a.rest)
attended_again size p fd kept s s' a there = elim a.outcome [
  | inl (same, calls, t) ↦ t
  | inr (less, gone, calls) ↦ absurd (
      false≢true (
        sym (
          ap (mem p) less
          ∙ mem-remove p p s.manager.tcp_client_db
          ∙ ap (λ b. not b && mem p s.manager.tcp_client_db) (eq_refl p))
        ∙ there))
]

pub Tends-after :
    {W : Type 0} (size p fd : ℕ) (kept : List ℕ) (s s' : Serving W)
    → Attends size p fd kept s s'
    → Tends size s.manager s.host
    → Tends size s'.manager s'.host
Tends-after size p fd kept s s' a t = record {
  epfd = t.epfd;
  has_epoll = a.same_epoll ∙ t.has_epoll;
  each = λ q there. elim (ℕ_discrete p q) [
    | yes same ↦
        subst (IsTended size s'.host) same
          (attended_again size p fd kept s s' a
            (subst (λ x. mem x s'.manager.tcp_client_db ≡ true) (sym same) there)).0
    | no differ ↦
        (IsTended-still size q s.host s'.host (a.others q differ)
          (t.each q (sym (members_else size p fd kept s s' q a differ) ∙ there))).0
  ];
}

-- A client in order holds one sequence of bytes.
pub kept_unique : (size p : ℕ) (h : Host) → (t u : IsTended size h p) → t.kept ≡ u.kept
kept_unique size p h t u =
    sym t.in_order.bytes
    ∙ ap contents
        (some_inj (sym t.in_order.is_ring ∙ ap (λ d. d.bcb) same_msgd ∙ u.in_order.is_ring))
    ∙ u.in_order.bytes
  where
    same_client : t.client ≡ u.client
    same_client = some_inj (sym t.is_client ∙ u.is_client)

    same_msgd : t.demarcar ≡ u.demarcar
    same_msgd = some_inj (holds_inj (sym t.is_msgd ∙ ap (λ c. c.msgd) same_client ∙ u.is_msgd))

-- What an event does: nothing if no client has the descriptor, or it attends to one that has it.
abbrev pub Handles : {W : Type 0} → ℕ → ℕ → Serving W → Serving W → Type 0
Handles size fd s s' =
    ((s' ≡ s) × IsFound s.host fd s.manager.tcp_client_db none)
    ⊎ ((p : ℕ) × (t : IsTended size s.host p) × (mem p s.manager.tcp_client_db ≡ true)
        × (t.fd ≡ fd)
        × Attends size p fd t.kept s s')

module _ {W : Type 0} (recv : ℕ → ℕ → W → Recv × W)
    (bounded : (fd space : ℕ) (w : W) → IsBounded space (recv fd space w).0) where
  serve_found_lem :
      (rounds size fd : ℕ) (s : Serving W) (found : Option ℕ)
      → Tends size s.manager s.host
      → size ≤ 8192
      → IsFound s.host fd s.manager.tcp_client_db found
      → Returns (serve_found recv rounds true fd found s) (Handles size fd s)
  unfolding serve_found
  serve_found_lem rounds size fd s none t small k = inl (refl, k)
  serve_found_lem rounds size fd s (some p) t small (there, k) =
      let c = t.each p there in
      let same : c.fd ≡ fd = HasFd-unique s.host p c.fd fd (c.client, c.is_client, c.is_fd) k in
      Returns-mono (Attends size p fd c.kept s) (Handles size fd s)
        (serve_client recv rounds true fd p s)
        (subst (λ x. Returns (serve_client recv rounds true x p s) (Attends size p x c.kept s)) same
          (serve_client_lem recv bounded rounds size p t.epfd s c small t.has_epoll))
        (λ s' a. inr (p, c, there, same, a))

  -- With the callback for messages set, if `recv` gives no more bytes than it is asked for, and if
  -- the listed clients are live, with rings in order of at most 8192 bytes: an event for a
  -- descriptor that no listed client has changes nothing. Any other event attends to a listed
  -- client with the descriptor: it delivers the messages that the client's bytes complete, and
  -- either keeps the client, with the rest, or removes and deletes it and closes the descriptor; no
  -- other client is touched.
  pub serve_event_lem :
      (rounds size fd : ℕ) (s : Serving W)
      → Tends size s.manager s.host
      → size ≤ 8192
      → Returns (serve_event recv rounds true fd s) (Handles size fd s)
  unfolding serve_event
  serve_event_lem rounds size fd s t small =
      Returns-bind (IsFound s.host fd s.manager.tcp_client_db) (Handles size fd s)
        (get_client_by_fd s.host fd s.manager) _
        (get_client_by_fd_lem s.host fd s.manager (have_fds t))
        (λ found. serve_found_lem rounds size fd s found t small)
