-- ===== src/Controller/Shutdown.antt =====
-- The end of a server: `Stop` of TcpServerController.cpp.
use linux_tcp_server.Base.{
  Bool, false, fault, ◌⊎◌, ◌&&◌, Bool-cases, ReturnsOrFaults, ReturnsOrFaults-bind, bind_fault, ℕ,
  ◌≡◌, ◌∙◌, inl, inr, ap, refl, sym, subst, true, Option, none, some, [], ◌++◌, done, Returns,
  Returns-bind, Returns-mono, Option-cases,
}
use linux_tcp_server.ClientDb.{Host, mem, TcpClientDbManager, Platform, purge}
use linux_tcp_server.ClientDb
use linux_tcp_server.ClientDb.Dangling.{deref_ends}
use linux_tcp_server.Demarcar.{deref}
use mathlib.Core.Bool.{false≢true}
use linux_tcp_server.ClientDb.Purge.{Distinct, IsOwned, Lacks, closings, purge_lem, passes_all}
use linux_tcp_server.Service
use linux_tcp_server.Service.{TcpClientServiceManager}
use linux_tcp_server.Service.Stopping.{stop_lem, stop_ends}
use linux_tcp_server.Acceptor.{TcpNewConnectionAcceptor}
use linux_tcp_server.Controller.{
  TcpServerController, set_bit, un_set_bit, is_bit_set, tcp_server_not_listening_clients,
  tcp_server_not_accepting_new_connections, stop_connection_accepting_svc, stop_client_svc_mgr,
  stop_acceptor, stop_service, gone, destructor, stop,
}
use linux_tcp_server.Controller.Consistent.{IsConsistent, missing, stop_accepting-IsConsistent}
use linux_tcp_server.Controller.Bits.{is_bit_set_after}

-- The service is stopped already, or its thread runs and its list has different pointers.
abbrev CanStop : Option TcpClientServiceManager → Type 0
CanStop none = Unit
CanStop (some m) = (m.client_svc_mgr_thread ≡ some Service.started) × Distinct m.tcp_client_db

-- The acceptor's pointer is null after the first part of `Stop`.
halted :
    (c : TcpServerController)
    → IsConsistent c
    → (stop_connection_accepting_svc c).tcp_new_conn_acc ≡ none
      × ((stop_connection_accepting_svc c).tcp_client_svc_mgr ≡ c.tcp_client_svc_mgr)
      × ((stop_connection_accepting_svc c).tcp_client_db_mgr ≡ c.tcp_client_db_mgr)
unfolding stop_connection_accepting_svc set_bit
halted c k = elim (Option-cases c.tcp_new_conn_acc) [
  | inl no_acc ↦ rw (k.acceptor_bit ∙ ap missing no_acc) (no_acc, refl, refl)
  | inr (acc, is_acc) ↦ rw (k.acceptor_bit ∙ ap missing is_acc) (refl, refl, refl)
]

-- What the first part leaves for the second.
record Half (c c' : TcpServerController) : Type 0 where
  no_acceptor : c'.tcp_new_conn_acc ≡ none
  same_service : c'.tcp_client_svc_mgr ≡ c.tcp_client_svc_mgr
  same_db : c'.tcp_client_db_mgr ≡ c.tcp_client_db_mgr
  service_bit : is_bit_set tcp_server_not_listening_clients c' ≡ missing c'.tcp_client_svc_mgr

stop_acceptor_lem :
    (c : TcpServerController) (acc : Option TcpNewConnectionAcceptor)
    → c.tcp_new_conn_acc ≡ acc
    → IsConsistent c
    → Half c (stop_acceptor acc c)
unfolding stop_acceptor set_bit
stop_acceptor_lem c none is_acc k = record {
  no_acceptor = is_acc;
  same_service = refl;
  same_db = refl;
  service_bit = k.service_bit;
}
stop_acceptor_lem c (some acc) is_acc k =
    let (no_acceptor, same_service, same_db) = halted c k in
    let stopped = stop_accepting-IsConsistent c k in
    record {
      no_acceptor = no_acceptor;
      same_service = same_service;
      same_db = same_db;
      service_bit =
          (is_bit_set_after (stop_connection_accepting_svc c)
            tcp_server_not_accepting_new_connections tcp_server_not_listening_clients
            stopped.small).0
          ∙ stopped.service_bit;
    }

-- What the second part leaves for the third.
abbrev Ended : TcpServerController → TcpServerController → Type 0
Ended c c' =
    (c'.tcp_new_conn_acc ≡ c.tcp_new_conn_acc)
    × (c'.tcp_client_svc_mgr ≡ none)
    × (c'.tcp_client_db_mgr ≡ c.tcp_client_db_mgr)

-- The listed clients are off the heap, and their descriptors were closed.
abbrev Lost : TcpClientDbManager → Host → Host → Type 0
Lost m h h' = Lacks m.tcp_client_db h h' × (h'.calls ≡ h.calls ++ closings h m.tcp_client_db)

both_true : (a b : Bool) → (a && b) ≡ true → (a ≡ true) × (b ≡ true)
both_true true b e = (refl, e)
both_true false b e = absurd (false≢true e)

module _ (u : Platform) where
  stop_service_lem :
      (c : TcpServerController) (svc : Option TcpClientServiceManager)
      → u.passes_end ≡ true
      → c.tcp_client_svc_mgr ≡ svc
      → is_bit_set tcp_server_not_listening_clients c ≡ missing svc
      → CanStop svc
      → Returns (stop_service u svc c) (Ended c)
  unfolding stop_service stop_client_svc_mgr set_bit
  stop_service_lem c none pass is_svc bit can = (refl, is_svc, refl)
  stop_service_lem c (some m) pass is_svc bit (thread, apart) =
      rw (bit, is_svc, stopped) (refl, refl, refl)
    where
      stopped :
          Service.stop u m ≡ done (record m { client_svc_mgr_thread = none; tcp_client_db = [] })
      stopped =
          ap (λ t. Service.stop u (record m { client_svc_mgr_thread = t })) thread
          ∙ stop_lem u m pass apart

  -- Whatever the platform, the second part keeps the list of all clients if it returns.
  stop_client_svc_mgr_ends :
      (c : TcpServerController) (db : TcpClientDbManager)
      → c.tcp_client_db_mgr ≡ some db
      → ReturnsOrFaults (stop_client_svc_mgr u c) (λ c'. c'.tcp_client_db_mgr ≡ some db)
  unfolding stop_client_svc_mgr set_bit
  stop_client_svc_mgr_ends c db e =
      elim (Bool-cases (is_bit_set tcp_server_not_listening_clients c)) [
        | inl stopped ↦ rw stopped e
        | inr runs ↦ rw runs (
            ReturnsOrFaults-bind (λ x. Unit {0}) (λ x. x.tcp_client_db_mgr ≡ some db)
              (deref c.tcp_client_svc_mgr) _ (deref_ends c.tcp_client_svc_mgr)
              (λ svc a.
                ReturnsOrFaults-bind (λ x. Unit {0}) (λ x. x.tcp_client_db_mgr ≡ some db)
                  (Service.stop u svc) _ (stop_ends u svc) (λ svc' b. e)))
      ]

  stop_service_ends :
      (c : TcpServerController) (svc : Option TcpClientServiceManager) (db : TcpClientDbManager)
      → c.tcp_client_db_mgr ≡ some db
      → ReturnsOrFaults (stop_service u svc c) (λ c'. c'.tcp_client_db_mgr ≡ some db)
  unfolding stop_service set_bit
  stop_service_ends c none db e = e
  stop_service_ends c (some m) db e =
      ReturnsOrFaults-bind (λ x. x.tcp_client_db_mgr ≡ some db) (λ x. x.tcp_client_db_mgr ≡ some db)
        (stop_client_svc_mgr u c) _ (stop_client_svc_mgr_ends c db e) (λ c' k. k)

  -- The first part leaves the list of all clients alone.
  stop_accepting-db :
      (c : TcpServerController)
      → (stop_connection_accepting_svc c).tcp_client_db_mgr ≡ c.tcp_client_db_mgr
  unfolding stop_connection_accepting_svc set_bit
  stop_accepting-db c = elim (Bool-cases (is_bit_set tcp_server_not_accepting_new_connections c)) [
    | inl e ↦ rw e refl
    | inr e ↦ rw e refl
  ]

  stop_acceptor-db :
      (acc : Option TcpNewConnectionAcceptor) (c : TcpServerController)
      → (stop_acceptor acc c).tcp_client_db_mgr ≡ c.tcp_client_db_mgr
  unfolding stop_acceptor set_bit
  stop_acceptor-db none c = refl
  stop_acceptor-db (some acc) c = stop_accepting-db c

  -- If the purge is undefined, so is `Stop`.
  pub stop_faults :
      (c : TcpServerController) (h : Host) (db : TcpClientDbManager)
      → c.tcp_client_db_mgr ≡ some db
      → purge u db h ≡ fault
      → stop u c h ≡ fault
  unfolding stop
  stop_faults c h db is_db stuck =
      let c' : TcpServerController = stop_acceptor c.tcp_new_conn_acc c in
      bind_fault (λ x. x.tcp_client_db_mgr ≡ some db) (stop_service u c'.tcp_client_svc_mgr c') _
        (stop_service_ends c' c'.tcp_client_svc_mgr db
          (stop_acceptor-db c.tcp_new_conn_acc c ∙ is_db))
        (λ c'' e. rw (e, stuck) refl)

  -- On a platform that lets the undefined calls pass.
  stop_passing :
      (c : TcpServerController) (h : Host) (db : TcpClientDbManager)
      → u.passes_rwlock ≡ true
      → u.passes_end ≡ true
      → IsConsistent c
      → c.tcp_client_db_mgr ≡ some db
      → CanStop c.tcp_client_svc_mgr
      → Returns (purge u db h) (λ r. (r.0.tcp_client_db ≡ []) × Lost db h r.1)
      → Returns (stop u c h) (Lost db h)
  unfolding stop ClientDb.destructor destructor gone un_set_bit
  stop_passing c h db lock ends k is_db can purged =
      Returns-bind (Ended c') (Lost db h) (stop_service u c'.tcp_client_svc_mgr c') _
        (stop_service_lem c' c'.tcp_client_svc_mgr ends refl half.service_bit
          (subst CanStop (sym half.same_service) can))
        λ c'' ended. rw (ended.2 ∙ half.same_db ∙ is_db) (
          Returns-bind (λ r. (r.0.tcp_client_db ≡ []) × Lost db h r.1) (Lost db h) (purge u db h) _
            purged λ r all. rw (lock, ended.1, ended.0 ∙ half.no_acceptor) all.1)
    where
      c' : TcpServerController
      c' = stop_acceptor c.tcp_new_conn_acc c

      half : Half c c'
      half = stop_acceptor_lem c c.tcp_new_conn_acc refl k

-- `Stop` of a consistent server whose listed clients are live and different, with a service that can
-- be stopped, returns and passes its destructor's assertions if the platform lets the calls on the
-- rwlock that nobody initialised and the reads through the end of a list pass, and is undefined
-- otherwise. Where it returns, all listed clients are off the heap, their descriptors were closed in the
-- order of the list, and no other client changes.
pub stop_server :
    (u : Platform) (c : TcpServerController) (h : Host) (db : TcpClientDbManager)
    → IsConsistent c
    → c.tcp_client_db_mgr ≡ some db
    → CanStop c.tcp_client_svc_mgr
    → Distinct db.tcp_client_db
    → ((p : ℕ) → mem p db.tcp_client_db ≡ true → IsOwned p h)
    → ((passes_all u ≡ true)
        × Returns (stop u c h) (λ h'.
          Lacks db.tcp_client_db h h' × (h'.calls ≡ h.calls ++ closings h db.tcp_client_db)))
      ⊎ ((passes_all u ≡ false) × (stop u c h ≡ fault))
stop_server u c h db k is_db can apart owned = elim (purge_lem u db h apart owned) [
  | inl (all, purged) ↦
      let (lock, ends) = both_true u.passes_rwlock u.passes_end all in
      inl (
        all,
        stop_passing u c h db lock ends k is_db can (
            Returns-mono _ (λ r. (r.0.tcp_client_db ≡ []) × Lost db h r.1) (purge u db h) purged
              (λ r p. (p.0, (p.1, p.2)))),
      )
  | inr (stuck, undefined) ↦ inr (stuck, stop_faults u c h db is_db undefined)
]
