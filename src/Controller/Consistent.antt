-- ===== src/Controller/Consistent.antt =====
-- The flags of a controller agree with the objects it owns, whatever is asked of it.
use linux_tcp_server.Base.{
  ℕ, ◌<◌, ◌≡◌, ◌∙◌, ap, refl, sym, subst, Bool, true, false, Option, none, some, List, [], ◌∷◌,
  arith, Keeps, Returns, Keeps-bind, Keeps-then, Bool-cases, Option-cases, inl, inr,
}
use linux_tcp_server.Flags.{has_mask}
use linux_tcp_server.Demarcar.{deref}
use linux_tcp_server.ClientDb.{Host, Platform}
use linux_tcp_server.Service
use linux_tcp_server.Service.{add_client_to_epoll}
use linux_tcp_server.TcpClient.{get}
use linux_tcp_server.Acceptor
use linux_tcp_server.Controller.{
  TcpServerController, ServerBit, tcp_server_initialized, tcp_server_running,
  tcp_server_not_accepting_new_connections, tcp_server_not_listening_clients, set_bit, is_bit_set,
  un_set_bit, construct, start, start_conection_acception_svc, stop_connection_accepting_svc,
  stop_client_svc_mgr, create_active_a_client, set_server_notif_callbacks, process_new_client,
  multiplex,
}
use linux_tcp_server.Controller.Bits.{is_bit_set_after}
use linux_tcp_server.Controller.Requests.{
  Request, start_request, callbacks_request, stop_accepting, start_accepting, stop_listening,
  start_listening, connect_request, accept_request, perform, perform_all,
}
use linux_tcp_server.Controller.Accept.{Allocations, Connection, accept_round, accept_client}

abbrev pub missing : {A : Type 0} → Option A → Bool
missing none = true
missing (some a) = false

-- The server is initialized, and each of the bits for a stopped acceptor and a stopped service is set
-- just if the pointer is null.
pub record IsConsistent (c : TcpServerController) : Type 0 where
  pub small : c.state_flags < 128
  pub is_initialized : is_bit_set tcp_server_initialized c ≡ true
  pub acceptor_bit :
      is_bit_set tcp_server_not_accepting_new_connections c ≡ missing c.tcp_new_conn_acc
  pub service_bit : is_bit_set tcp_server_not_listening_clients c ≡ missing c.tcp_client_svc_mgr

-- The same flags, and the same pointers null.
same_shape :
    (c c' : TcpServerController)
    → c'.state_flags ≡ c.state_flags
    → missing c'.tcp_new_conn_acc ≡ missing c.tcp_new_conn_acc
    → missing c'.tcp_client_svc_mgr ≡ missing c.tcp_client_svc_mgr
    → IsConsistent c
    → IsConsistent c'
unfolding is_bit_set
same_shape c c' same_flags same_acc same_svc k = record {
  small = subst (λ x. x < 128) (sym same_flags) k.small;
  is_initialized = ap (λ x. has_mask x 1) same_flags ∙ k.is_initialized;
  acceptor_bit = ap (λ x. has_mask x 4) same_flags ∙ k.acceptor_bit ∙ sym same_acc;
  service_bit = ap (λ x. has_mask x 8) same_flags ∙ k.service_bit ∙ sym same_svc;
}

running_IsConsistent :
    (c : TcpServerController) → IsConsistent c → IsConsistent (set_bit tcp_server_running c)
unfolding set_bit is_bit_set
running_IsConsistent c k =
    let law = λ (b : ServerBit). is_bit_set_after c tcp_server_running b k.small in
    record {
      small = (law tcp_server_initialized).2;
      is_initialized = (law tcp_server_initialized).0 ∙ k.is_initialized;
      acceptor_bit = (law tcp_server_not_accepting_new_connections).0 ∙ k.acceptor_bit;
      service_bit = (law tcp_server_not_listening_clients).0 ∙ k.service_bit;
    }

pub stop_accepting-IsConsistent :
    (c : TcpServerController) → IsConsistent c → IsConsistent (stop_connection_accepting_svc c)
unfolding stop_connection_accepting_svc set_bit is_bit_set
stop_accepting-IsConsistent c k =
    let law =
      λ (b : ServerBit). is_bit_set_after c tcp_server_not_accepting_new_connections b k.small in
    elim (Bool-cases (is_bit_set tcp_server_not_accepting_new_connections c)) [
      | inl set ↦ rw set k
      | inr clear ↦ rw clear (record {
        small = (law tcp_server_initialized).2;
        is_initialized = (law tcp_server_initialized).0 ∙ k.is_initialized;
        acceptor_bit = (law tcp_server_not_accepting_new_connections).0;
        service_bit = (law tcp_server_not_listening_clients).0 ∙ k.service_bit;
      })
    ]

stop_listening-IsConsistent :
    (u : Platform) (c : TcpServerController)
    → IsConsistent c
    → Keeps (stop_client_svc_mgr u c) IsConsistent
unfolding stop_client_svc_mgr set_bit is_bit_set
stop_listening-IsConsistent u c k =
    let law = λ (b : ServerBit). is_bit_set_after c tcp_server_not_listening_clients b k.small in
    let stopped : IsConsistent
        (record (set_bit tcp_server_not_listening_clients c) { tcp_client_svc_mgr = none }) =
      record {
        small = (law tcp_server_initialized).2;
        is_initialized = (law tcp_server_initialized).0 ∙ k.is_initialized;
        acceptor_bit = (law tcp_server_not_accepting_new_connections).0 ∙ k.acceptor_bit;
        service_bit = (law tcp_server_not_listening_clients).0;
      } in
    elim (Bool-cases (is_bit_set tcp_server_not_listening_clients c)) [
      | inl set ↦ rw set k
      | inr clear ↦ rw clear (
          Keeps-then IsConsistent (deref c.tcp_client_svc_mgr) _
            (λ svc. Keeps-then IsConsistent (Service.stop u svc) _ (λ svc'. stopped)))
    ]

start-IsConsistent :
    (created : Bool) (c : TcpServerController)
    → IsConsistent c
    → Keeps (start created c) IsConsistent
unfolding start
start-IsConsistent created c k = elim (Option-cases c.tcp_client_svc_mgr) [
  | inl no_svc ↦ rw no_svc tt
  | inr (svc, is_svc) ↦ elim (Option-cases c.tcp_new_conn_acc) [
    | inl no_acc ↦
        rw (is_svc, no_acc) (Keeps-then IsConsistent (Service.start_thread svc) _ (λ svc'. tt))
    | inr (acc, is_acc) ↦
        rw (is_svc, is_acc)
          (Keeps-then IsConsistent (Service.start_thread svc) _ (λ svc'.
            Keeps-then IsConsistent (Acceptor.start_thread created acc) _ (λ acc'.
              Keeps-then IsConsistent (deref c.tcp_client_db_mgr) _ (λ db.
                running_IsConsistent _
                  (same_shape c _ refl (sym (ap missing is_acc)) (sym (ap missing is_svc)) k)))))
  ]
]

start_accepting-IsConsistent :
    (socket : Option ℕ) (created : Bool) (c : TcpServerController)
    → IsConsistent c
    → Keeps (start_conection_acception_svc socket created c) IsConsistent
unfolding start_conection_acception_svc un_set_bit is_bit_set
start_accepting-IsConsistent socket created c k =
    let law =
      λ (b : ServerBit). is_bit_set_after c tcp_server_not_accepting_new_connections b k.small in
    elim (Bool-cases (is_bit_set tcp_server_not_accepting_new_connections c)) [
      | inr clear ↦ rw clear k
      | inl set ↦ rw set (
          Keeps-then IsConsistent (Acceptor.construct socket) _ (λ acc.
            Keeps-then IsConsistent (Acceptor.start_thread created acc) _ (λ acc'. record {
              small = (law tcp_server_initialized).3;
              is_initialized = (law tcp_server_initialized).1 ∙ k.is_initialized;
              acceptor_bit = (law tcp_server_not_accepting_new_connections).1;
              service_bit = (law tcp_server_not_listening_clients).1 ∙ k.service_bit;
            })))
    ]

connect-IsConsistent :
    (p : ℕ) (resolved : Bool) (server_ip_addr server_port_no : ℕ) (c : TcpServerController)
    (h : Host)
    → IsConsistent c
    → Keeps
        (create_active_a_client p resolved server_ip_addr server_port_no c h)
        (λ r. IsConsistent r.0)
unfolding create_active_a_client
connect-IsConsistent p false ip port c h k = tt
connect-IsConsistent p true ip port c h k =
    Keeps-then (λ r. IsConsistent r.0) (deref c.tcp_client_db_mgr) _
      (λ db. same_shape c _ refl refl refl k)

accept-IsConsistent :
    (a : Allocations) (p : ℕ) (conn : Option Connection) (c : TcpServerController) (h : Host)
    → IsConsistent c
    → Keeps (accept_round a p conn c h) (λ r. IsConsistent r.0)
unfolding accept_round accept_client process_new_client
accept-IsConsistent a p none c h k = k
accept-IsConsistent a p (some conn) c h k = Keeps-then P (get c.client_connected) _ (λ notify.
    Keeps-then P (deref c.tcp_client_db_mgr) _ (λ db. Keeps-then P (multiplex p _) _ (λ h'.
      elim (Option-cases c.tcp_client_svc_mgr) [
        | inl no_svc ↦ rw no_svc tt
        | inr (svc, is_svc) ↦ rw is_svc (
            Keeps-then P (add_client_to_epoll p _ h') _
              (λ h''. same_shape c _ refl refl (sym (ap missing is_svc)) k))
      ])))
  where
    P : TcpServerController × Host → Type 0
    P r = IsConsistent r.0

perform-IsConsistent :
    (r : Request) (c : TcpServerController) (h : Host)
    → IsConsistent c
    → Keeps (perform r c h) (λ u. IsConsistent u.0)
unfolding perform set_server_notif_callbacks
perform-IsConsistent (start_request created) c h k =
    Keeps-bind IsConsistent (λ u. IsConsistent u.0) (start created c) _
      (start-IsConsistent created c k) (λ c' k'. k')
perform-IsConsistent (callbacks_request a b d) c h k = same_shape c _ refl refl refl k
perform-IsConsistent stop_accepting c h k = stop_accepting-IsConsistent c k
perform-IsConsistent (start_accepting socket created) c h k =
    Keeps-bind IsConsistent (λ u. IsConsistent u.0) (start_conection_acception_svc socket created c)
      _ (start_accepting-IsConsistent socket created c k) (λ c' k'. k')
perform-IsConsistent (stop_listening u) c h k =
    Keeps-bind IsConsistent (λ u. IsConsistent u.0) (stop_client_svc_mgr u c) _
      (stop_listening-IsConsistent u c k) (λ c' k'. k')
perform-IsConsistent start_listening c h k = k
perform-IsConsistent (connect_request p resolved ip port) c h k =
    connect-IsConsistent p resolved ip port c h k
perform-IsConsistent (accept_request a p conn) c h k = accept-IsConsistent a p conn c h k

perform_all-IsConsistent :
    (rs : List Request) (c : TcpServerController) (h : Host)
    → IsConsistent c
    → Keeps (perform_all rs c h) (λ u. IsConsistent u.0)
unfolding perform_all
perform_all-IsConsistent [] c h k = k
perform_all-IsConsistent (r ∷ rs) c h k =
    Keeps-bind (λ u. IsConsistent u.0) (λ u. IsConsistent u.0) (perform r c h) _
      (perform-IsConsistent r c h k) (λ u k'. perform_all-IsConsistent rs u.0 u.1 k')

-- A server just constructed is consistent, and so it is after any sequence of requests that returns:
-- the bits that say that it neither accepts nor listens are set just if it has no acceptor and no
-- service.
pub requests-IsConsistent :
    (accept_fd ip_addr port_no : ℕ) (name : List ℕ) (rs : List Request) (h : Host)
    → Returns
        (construct (some accept_fd) ip_addr port_no name)
        (λ c. IsConsistent c × Keeps (perform_all rs c h) (λ u. IsConsistent u.0))
unfolding construct Acceptor.construct set_bit is_bit_set
requests-IsConsistent accept_fd ip_addr port_no name rs h =
    let fresh : IsConsistent _ = record {
      small = omega arith;
      is_initialized = refl;
      acceptor_bit = refl;
      service_bit = refl;
    } in
    (fresh, perform_all-IsConsistent rs _ h fresh)
