-- ===== src/Controller/Interest.antt =====
-- What keeps epoll's interest list equal to the descriptors of the service's clients, in a system with
-- the controller of TcpServerController.cpp.
use linux_tcp_server.Base.{
  ℕ, ◌≡◌, ◌≢◌, ◌∙◌, ap, refl, sym, subst, Bool, true, false, some, List, [], ◌∷◌, ◌++◌, find, ◌==◌,
  if◌then◌else◌, ℕ_discrete, eq_false, eq_refl,
}
use linux_tcp_server.TcpClient.{TcpClient}
use linux_tcp_server.ClientDb.{Host, epoll_add, mem}
use linux_tcp_server.Service.{TcpClientServiceManager}
use linux_tcp_server.Service.Lookup.{HasFd, HasFd-unique}
use linux_tcp_server.Service.Interest.{watched}
use linux_tcp_server.Service.Watched.{WatchesListed}
use linux_tcp_server.Controller.{TcpServerController}
use linux_tcp_server.Controller.Run.{System}
use linux_tcp_server.Controller.InOrder.{InOrder, listed_live}
use linux_tcp_server.Controller.Turns.{same_manager}
use linux_tcp_server.Service.Interest.{Epoll}

module _ ⦃kernel : Epoll⦄ where
  abbrev pub HasWatchedFds : {W : Type 0} → System W → Type 0
  HasWatchedFds s =
      (m : TcpClientServiceManager)
      → s.controller.tcp_client_svc_mgr ≡ some m
      → WatchesListed s.host m.tcp_client_db

  -- A client at a new address joins, and epoll is told of its descriptor.
  pub joined-WatchesListed :
      (p cfd : ℕ) (h h' : Host) (l l' : List ℕ)
      → ((c : TcpClient) → find p h.clients ≢ some c)
      → HasFd h' p cfd
      → mem p l' ≡ true
      → ((q : ℕ) → p ≢ q → mem q l' ≡ mem q l)
      → ((q : ℕ) → p ≢ q → find q h'.clients ≡ find q h.clients)
      → h'.calls ≡ h.calls ++ epoll_add cfd ∷ []
      → WatchesListed h l
      → WatchesListed h' l'
  joined-WatchesListed p cfd h h' l l' new has joins listed same calls w = record {
    listed_watched = λ q g there has_g. elim (ℕ_discrete p q) [
      | yes p_q ↦
          subst (λ x. watched x h'.calls ≡ true)
            (HasFd-unique h' p cfd g has (subst (λ x. HasFd h' x g) (sym p_q) has_g)) on
      | no differ ↦ grows g (
          w.listed_watched q g (sym (listed q differ) ∙ there)
            (has_g.0, sym (same q differ) ∙ has_g.1, has_g.2))
    ];
    watched_listed = λ g on_g. elim (ℕ_discrete cfd g) [
      | yes is_cfd ↦ (p, joins, subst (HasFd h' p) is_cfd has)
      | no differ ↦
          let (q, there, (d, is_d, has_d)) = w.watched_listed g (
            ap (λ b. if b then true else watched g h.calls) (sym (eq_false cfd g differ))
            ∙ sym (added g)
            ∙ on_g) in
          let other : p ≢ q = λ p_q. new d (ap (λ x. find x h.clients) p_q ∙ is_d) in
          (q, listed q other ∙ there, (d, same q other ∙ is_d, has_d))
    ];
  }
    where
      added : (g : ℕ) → watched g h'.calls ≡ (if cfd == g then true else watched g h.calls)
      added g = ap (watched g) calls ∙ kernel.added g cfd h.calls

      on : watched cfd h'.calls ≡ true
      on = added cfd ∙ ap (λ b. if b then true else watched cfd h.calls) (eq_refl cfd)

      either : (b c : Bool) → c ≡ true → (if b then true else c) ≡ true
      either true c e = refl
      either false c e = e

      grows : (g : ℕ) → watched g h.calls ≡ true → watched g h'.calls ≡ true
      grows g e = added g ∙ either (cfd == g) _ e

  -- The calls, the list and the listed clients are as they were.
  same-WatchesListed :
      (h h' : Host) (l : List ℕ)
      → h'.calls ≡ h.calls
      → ((q : ℕ) → mem q l ≡ true → find q h'.clients ≡ find q h.clients)
      → WatchesListed h l
      → WatchesListed h' l
  same-WatchesListed h h' l same_calls same w = record {
    listed_watched = λ q g there (d, is_d, has).
        ap (watched g) same_calls ∙ w.listed_watched q g there (d, sym (same q there) ∙ is_d, has);
    watched_listed = λ g on.
        let (q, there, (d, is_d, has)) =
          w.watched_listed g (ap (watched g) (sym same_calls) ∙ on) in
        (q, there, (d, same q there ∙ is_d, has));
  }

  -- The service is the same, and so are the calls and its clients.
  pub kept_manager :
      {W : Type 0} (s : System W) (c : TcpServerController) (h : Host)
      → c.tcp_client_svc_mgr ≡ s.controller.tcp_client_svc_mgr
      → h.calls ≡ s.host.calls
      → ((q : ℕ) (x : TcpClient)
          → find q s.host.clients ≡ some x
          → find q h.clients ≡ find q s.host.clients)
      → InOrder s
      → HasWatchedFds s
      → HasWatchedFds (record s { controller = c; host = h })
  kept_manager s c h same same_calls still o w m is_m =
      same-WatchesListed s.host h m.tcp_client_db same_calls
        (λ q there.
          let (x, is_x) =
            listed_live s o q
              (ap (λ n. mem q n.tcp_client_db) (same_manager s m (sym same ∙ is_m) o) ∙ there) in
          still q x is_x)
        (w m (sym same ∙ is_m))

  -- A list without clients.
  pub emptied :
      (h : Host) (l l' : List ℕ) → l ≡ [] → l' ≡ [] → WatchesListed h l → WatchesListed h l'
  emptied h l l' e e' w = subst (WatchesListed h) (e ∙ sym e') w
