-- ===== src/Service/Streams.antt =====
-- The service thread over any sequence of events: it neither faults nor blocks, and the messages of a
-- client are cut from the client's own bytes, whatever else happens.
use linux_tcp_server.Base.{
  ℕ, ◌≤◌, ◌≡◌, ◌≢◌, ◌∙◌, ap, inl, inr, refl, sym, subst, Bool, true, false, List, [], ◌∷◌, ◌++◌,
  Returns, Returns-bind, Returns-mono, append_assoc, ℕ_discrete,
}
use mathlib.Core.Bool.{false≢true}
use linux_tcp_server.Receive.{Recv}
use linux_tcp_server.Receive.Stream.{IsBounded}
use linux_tcp_server.ClientDb.{mem}
use linux_tcp_server.Service.{Serving, serve_event, serve_events}
use linux_tcp_server.TcpClient.{holds}
use linux_tcp_server.Service.Lookup.{HasFd}
use linux_tcp_server.Service.Serve.{IsTended, Attends}
use linux_tcp_server.Service.Isolation.{
  Tends, Tends-after, Handles, serve_event_lem, IsTended-still, members_else, attended_again,
  kept_unique,
}
use linux_tcp_server.Service.Logs.{
  CutsOwn, Runs, NobodyJoins, Continues, Runs-nothing, entry, cuts_other, cuts_first, cuts_none,
  quiet_other,
}

module _ {W : Type 0} (size p fd : ℕ) (s s' s'' : Serving W) (t : IsTended size s.host p)
    (listed : mem p s.manager.tcp_client_db ≡ true) (a : Attends size p fd t.kept s s')
    (runs : Runs size s' s'') (joins : NobodyJoins s' s'') where
  own :
      (u : IsTended size s.host p) (member : Bool)
      → mem p s'.manager.tcp_client_db ≡ member
      → CutsOwn size p u.kept (entry p a.received a.messages ∷ runs.0) s''
  own u true e =
      let (t', same) = attended_again size p fd t.kept s s' a e in
      subst (λ c. CutsOwn size p c (entry p a.received a.messages ∷ runs.0) s'')
        (kept_unique size p s.host t u)
        (cuts_first size s'' p t.kept a.received a.messages a.rest runs.0 a.cut a.fit
          (subst (λ c. CutsOwn size p c runs.0 s'') same (runs.2 p t' e)))
  own u false e =
      let (none_received, none_delivered) = runs.3 p e in
      subst (λ c. CutsOwn size p c (entry p a.received a.messages ∷ runs.0) s'')
        (kept_unique size p s.host t u)
        (cuts_none size s'' p t.kept a.received a.messages a.rest runs.0 a.cut a.fit none_received
          none_delivered (λ k. false≢true (sym e ∙ (joins p k).0)))

  others :
      (q : ℕ) (u : IsTended size s.host q)
      → p ≢ q
      → mem q s.manager.tcp_client_db ≡ true
      → CutsOwn size q u.kept (entry p a.received a.messages ∷ runs.0) s''
  others q u differ there =
      let (u', same) = IsTended-still size q s.host s'.host (a.others q differ) u in
      cuts_other size s'' p q u.kept a.received a.messages runs.0 differ (
        subst (λ c. CutsOwn size q c runs.0 s'') same
          (runs.2 q u' (members_else size p fd t.kept s s' q a differ ∙ there)))

  -- An event in front of a run.
  Runs-after : Runs size s s''
  unfolding entry
  Runs-after = (
    entry p a.received a.messages ∷ runs.0,
    runs.1 ∙ ap (λ l. l ++ runs.0) a.logged ∙ append_assoc s.log _ runs.0,
    (λ q u there. elim (ℕ_discrete p q) [
      | yes same ↦
          subst
            (λ x.
              (v : IsTended size s.host x)
              → CutsOwn size x v.kept (entry p a.received a.messages ∷ runs.0) s'')
            same (λ v. own v _ refl) u
      | no differ ↦ others q u differ there
    ]),
    (λ q absent. elim (ℕ_discrete p q) [
      | yes same ↦
          absurd (
            false≢true (sym absent ∙ subst (λ x. mem x s.manager.tcp_client_db ≡ true) same listed))
      | no differ ↦
          quiet_other p q a.received a.messages runs.0 differ
            (runs.3 q (members_else size p fd t.kept s s' q a differ ∙ absent))
    ]),
  )

was_listed :
    {W : Type 0} (size p fd : ℕ) (s s' : Serving W) (c : IsTended size s.host p)
    → c.fd ≡ fd
    → Attends size p fd c.kept s s'
    → mem p s.manager.tcp_client_db ≡ true
    → NobodyJoins s s'
was_listed size p fd s s' c is_fd a there q k = elim (ℕ_discrete p q) [
  | yes same ↦
      subst
        (λ x.
          (mem x s.manager.tcp_client_db ≡ true) × ((g : ℕ) → HasFd s'.host x g → HasFd s.host x g))
        same
        (
          there,
          (λ g has. (c.client, c.is_client, c.is_fd ∙ ap holds (is_fd ∙ sym (a.same_fd g has)))),
        )
  | no differ ↦ (
    sym (members_else size p fd c.kept s s' q a differ) ∙ k,
    (λ g (d, is_d, has). (d, sym (a.others q differ) ∙ is_d, has)),
  )
]

NobodyJoins-then :
    {W : Type 0} (s s' s'' : Serving W) → NobodyJoins s s' → NobodyJoins s' s'' → NobodyJoins s s''
NobodyJoins-then s s' s'' first second q k =
    let (there', back') = second q k in
    let (there, back) = first q there' in (there, (λ g has. back g (back' g has)))

module _ {W : Type 0} (recv : ℕ → ℕ → W → Recv × W)
    (bounded : (fd space : ℕ) (w : W) → IsBounded space (recv fd space w).0) where
  -- With the callback for messages set, if `recv` gives no more bytes than it is asked for, and if
  -- the listed clients are live, with rings in order of at most 8192 bytes, the service thread
  -- handles any sequence of events without a fault and without waiting for a mutex, its clients stay
  -- in order and keep their descriptors, and nobody joins the list. For each listed client, the
  -- messages delivered for it are the frames of the bytes it had sent, the bytes held before
  -- included, in order, none of them larger than the ring, and its ring holds what is left if it is still listed: the other clients'
  -- bytes never get in. A client that is not listed gets nothing.
  pub serve_events_lem :
      (rounds size : ℕ) (fds : List ℕ) (s : Serving W)
      → Tends size s.manager s.host
      → size ≤ 8192
      → Returns (serve_events recv rounds true fds s) (Continues size s)
  unfolding serve_events
  serve_events_lem rounds size [] s t small =
      (t, refl, (λ q there. (there, (λ g has. has))), Runs-nothing size s)
  serve_events_lem rounds size (fd ∷ fds) s t small =
      Returns-bind (Handles size fd s) (Continues size s) (serve_event recv rounds true fd s) _
        (serve_event_lem recv bounded rounds size fd s t small)
        λ s' handled. elim handled [
          | inl (same, nobody) ↦
              subst (λ x. Returns (serve_events recv rounds true fds x) (Continues size s))
                (sym same) (serve_events_lem rounds size fds s t small)
          | inr (p, c, there, is_fd, a) ↦
              Returns-mono (Continues size s') (Continues size s) _
                (serve_events_lem rounds size fds s' (Tends-after size p fd c.kept s s' a t) small)
                (λ s'' (tends, ready, joins, runs). (
                  tends,
                  ready ∙ a.same_ready,
                  NobodyJoins-then s s' s'' (was_listed size p fd s s' c is_fd a there) joins,
                  Runs-after size p fd s s' s'' c there a runs joins,
                ))
        ]
