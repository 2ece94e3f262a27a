-- ===== src/Service/Watched.antt =====
-- The service thread of TcpClientServiceManager.cpp keeps what epoll watches equal to the descriptors of
-- its clients.
use linux_tcp_server.Base.{
  ℕ, ◌≤◌, ◌≡◌, ◌≢◌, ◌∙◌, ap, inl, inr, sym, subst, true, false, ◌&&◌, not, List, [], ◌∷◌, ◌++◌,
  ◌==◌, if◌then◌else◌, Returns, Returns-bind, ℕ_discrete, eq_false, eq_refl,
}
use mathlib.Core.Bool.{false≢true}
use linux_tcp_server.Receive.{Recv}
use linux_tcp_server.Receive.Stream.{IsBounded}
use linux_tcp_server.ClientDb.{Host, close, epoll_del, mem, remove}
use linux_tcp_server.ClientDb.Purge.{mem-remove}
use linux_tcp_server.Service.{Serving, serve_event, serve_events}
use linux_tcp_server.TcpClient.{holds}
use linux_tcp_server.Service.Interest.{watched, watched_hung_up}
use linux_tcp_server.Service.Lookup.{HasFd, HasFd-unique}
use linux_tcp_server.Service.Serve.{IsTended, Attends}
use linux_tcp_server.Service.Isolation.{Tends, Tends-after, Handles, serve_event_lem, members_else}
use linux_tcp_server.Service.Interest.{Epoll}

-- No two clients of the list have one descriptor.
abbrev pub AreDistinct : Host → List ℕ → Type 0
AreDistinct h l =
    (q r fd : ℕ) → mem q l ≡ true → mem r l ≡ true → HasFd h q fd → HasFd h r fd → q ≡ r

-- Clients may leave the list, and those that stay keep their descriptors.
pub fewer-AreDistinct :
    (h h' : Host) (l l' : List ℕ)
    → ((q : ℕ) → mem q l' ≡ true → (mem q l ≡ true) × ((g : ℕ) → HasFd h' q g → HasFd h q g))
    → AreDistinct h l
    → AreDistinct h' l'
fewer-AreDistinct h h' l l' stays distinct q r fd q_in r_in q_has r_has =
    let (q_there, q_had) = stays q q_in in
    let (r_there, r_had) = stays r r_in in
    distinct q r fd q_there r_there (q_had fd q_has) (r_had fd r_has)

pub removed_mem : (p q : ℕ) (l : List ℕ) → mem q (remove p l) ≡ true → (p ≢ q) × (mem q l ≡ true)
removed_mem p q l there = elim (ℕ_discrete p q) [
  | yes same ↦ absurd (
      false≢true (
        ap (λ b. not b && mem q l) (sym (ap (λ x. p == x) (sym same) ∙ eq_refl p))
        ∙ sym (mem-remove p q l)
        ∙ there))
  | no differ ↦ (
    differ,
    ap (λ b. not b && mem q l) (sym (eq_false p q differ)) ∙ sym (mem-remove p q l) ∙ there,
  )
]

pub other_mem : (p q : ℕ) (l : List ℕ) → p ≢ q → mem q (remove p l) ≡ mem q l
other_mem p q l differ = mem-remove p q l ∙ ap (λ b. not b && mem q l) (eq_false p q differ)

module _ ⦃kernel : Epoll⦄ where
  -- Epoll watches the descriptors of the listed clients, and no others.
  pub record WatchesListed (h : Host) (l : List ℕ) : Type 0 where
    pub listed_watched : (q g : ℕ) → mem q l ≡ true → HasFd h q g → watched g h.calls ≡ true
    pub watched_listed :
        (g : ℕ) → watched g h.calls ≡ true → (q : ℕ) × (mem q l ≡ true) × HasFd h q g

  -- A client of the list that an event attended to.
  module _ {W : Type 0} (size p fd : ℕ) (s s' : Serving W) (c : IsTended size s.host p)
      (is_fd : c.fd ≡ fd) (listed : mem p s.manager.tcp_client_db ≡ true)
      (a : Attends size p fd c.kept s s') where
    has_fd : HasFd s.host p fd
    has_fd = (c.client, c.is_client, c.is_fd ∙ ap (λ x. holds x) is_fd)

    had : (q g : ℕ) → HasFd s'.host q g → HasFd s.host q g
    had q g has = elim (ℕ_discrete p q) [
      | yes same ↦
          subst (λ x. (k : HasFd s'.host x g) → HasFd s.host x g) same
            (λ k. subst (HasFd s.host p) (sym (a.same_fd g k)) has_fd) has
      | no differ ↦ (has.0, sym (a.others q differ) ∙ has.1, has.2)
    ]

    kept_fd : (q g : ℕ) → p ≢ q → HasFd s.host q g → HasFd s'.host q g
    kept_fd q g differ (d, is_d, has) = (d, a.others q differ ∙ is_d, has)

    stays-WatchesListed :
        s'.manager ≡ s.manager
        → s'.host.calls ≡ s.host.calls
        → IsTended size s'.host p
        → WatchesListed s.host s.manager.tcp_client_db
        → WatchesListed s'.host s'.manager.tcp_client_db
    stays-WatchesListed same same_calls t w = record {
      listed_watched = λ q g there has.
          ap (watched g) same_calls
          ∙ w.listed_watched q g (ap (λ m. mem q m.tcp_client_db) (sym same) ∙ there) (had q g has);
      watched_listed = λ g on.
          let (q, there, has) = w.watched_listed g (ap (watched g) (sym same_calls) ∙ on) in
          (q, ap (λ m. mem q m.tcp_client_db) same ∙ there, still q g has);
    }
      where
        has_now : HasFd s'.host p fd
        has_now =
            let k : HasFd s'.host p t.fd = (t.client, t.is_client, t.is_fd) in
            subst (HasFd s'.host p) (a.same_fd t.fd k) k

        still : (q g : ℕ) → HasFd s.host q g → HasFd s'.host q g
        still q g has = elim (ℕ_discrete p q) [
          | yes same ↦
              subst (λ x. (k : HasFd s.host x g) → HasFd s'.host x g) same
                (λ k. subst (HasFd s'.host p) (HasFd-unique s.host p fd g has_fd k) has_now) has
          | no differ ↦ kept_fd q g differ has
        ]

    leaves-WatchesListed :
        s'.manager.tcp_client_db ≡ remove p s.manager.tcp_client_db
        → s'.host.calls ≡ (s.host.calls ++ close fd ∷ []) ++ epoll_del fd ∷ []
        → AreDistinct s.host s.manager.tcp_client_db
        → WatchesListed s.host s.manager.tcp_client_db
        → WatchesListed s'.host s'.manager.tcp_client_db
    leaves-WatchesListed less calls distinct w = record {
      listed_watched = λ q g there has.
          let (differ, was) =
            removed_mem p q s.manager.tcp_client_db (ap (mem q) (sym less) ∙ there) in
          after g (λ same.
            differ
              (distinct p q fd listed was has_fd (subst (HasFd s.host q) (sym same) (had q g has))))
          ∙ w.listed_watched q g was (had q g has);
      watched_listed = λ g on. elim (ℕ_discrete fd g) [
        | yes same ↦
            absurd (false≢true (sym (subst (λ x. watched x s'.host.calls ≡ false) same ended) ∙ on))
        | no differ ↦
            let (q, there, has) = w.watched_listed g (sym (after g differ) ∙ on) in
            let other : p ≢ q = λ same.
              differ (
                HasFd-unique s.host p fd g has_fd (subst (λ x. HasFd s.host x g) (sym same) has)) in
            (
              q,
              ap (mem q) less ∙ other_mem p q s.manager.tcp_client_db other ∙ there,
              kept_fd q g other has,
            )
      ];
    }
      where
        after : (g : ℕ) → fd ≢ g → watched g s'.host.calls ≡ watched g s.host.calls
        after g differ =
            ap (watched g) calls
            ∙ watched_hung_up g fd s.host.calls
            ∙ ap (λ b. if b then false else watched g s.host.calls) (eq_false fd g differ)

        ended : watched fd s'.host.calls ≡ false
        ended =
            ap (watched fd) calls
            ∙ watched_hung_up fd fd s.host.calls
            ∙ ap (λ b. if b then false else watched fd s.host.calls) (eq_refl fd)

    WatchesListed-after :
        AreDistinct s.host s.manager.tcp_client_db
        → WatchesListed s.host s.manager.tcp_client_db
        → WatchesListed s'.host s'.manager.tcp_client_db
    WatchesListed-after distinct w = elim a.outcome [
      | inl (same, same_calls, (t, kept)) ↦ stays-WatchesListed same same_calls t w
      | inr (less, gone, calls) ↦ leaves-WatchesListed less calls distinct w
    ]

    AreDistinct-after :
        AreDistinct s.host s.manager.tcp_client_db → AreDistinct s'.host s'.manager.tcp_client_db
    AreDistinct-after =
        fewer-AreDistinct s.host s'.host s.manager.tcp_client_db s'.manager.tcp_client_db
          (λ q there. (was q there, had q))
      where
        was : (q : ℕ) → mem q s'.manager.tcp_client_db ≡ true → mem q s.manager.tcp_client_db ≡ true
        was q there = elim (ℕ_discrete p q) [
          | yes same ↦ subst (λ x. mem x s.manager.tcp_client_db ≡ true) same listed
          | no differ ↦ sym (members_else size p fd c.kept s s' q a differ) ∙ there
        ]

  module _ {W : Type 0} (recv : ℕ → ℕ → W → Recv × W)
      (bounded : (fd space : ℕ) (w : W) → IsBounded space (recv fd space w).0) where
    pub serve_events-WatchesListed :
        (rounds size : ℕ) (fds : List ℕ) (s : Serving W)
        → Tends size s.manager s.host
        → size ≤ 8192
        → AreDistinct s.host s.manager.tcp_client_db
        → WatchesListed s.host s.manager.tcp_client_db
        → Returns
            (serve_events recv rounds true fds s)
            (λ s'. WatchesListed s'.host s'.manager.tcp_client_db)
    unfolding serve_events
    serve_events-WatchesListed rounds size [] s t small distinct w = w
    serve_events-WatchesListed rounds size (fd ∷ fds) s t small distinct w =
        Returns-bind (Handles size fd s) (λ s'. WatchesListed s'.host s'.manager.tcp_client_db)
          (serve_event recv rounds true fd s) _
          (serve_event_lem recv bounded rounds size fd s t small)
          λ s' handled. elim handled [
            | inl (same, nobody) ↦
                subst
                  (λ x.
                    Returns (serve_events recv rounds true fds x)
                      (λ s'. WatchesListed s'.host s'.manager.tcp_client_db))
                  (sym same) (serve_events-WatchesListed rounds size fds s t small distinct w)
            | inr (p, c, there, is_fd, a) ↦
                serve_events-WatchesListed rounds size fds s'
                  (Tends-after size p fd c.kept s s' a t) small
                  (AreDistinct-after size p fd s s' c is_fd there a distinct)
                  (WatchesListed-after size p fd s s' c is_fd there a distinct w)
          ]
