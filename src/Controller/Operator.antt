-- ===== src/Controller/Operator.antt =====
-- What the operator's commands on a running server of TcpServerController.cpp leave alone.
use linux_tcp_server.Base.{
  some_inj, sym, ap, ◌∙◌, Option-cases, ◌||◌, ◌==◌, ℕ, ◌≡◌, ◌≢◌, refl, subst, Bool, true, false,
  Option, some, find, find-put_other, done, inl, inr, Bool-cases, Keeps, Keeps-then,
}
use linux_tcp_server.ClientDb
use linux_tcp_server.ClientDb.{Host, TcpClientDbManager, mem}
use linux_tcp_server.Acceptor
use linux_tcp_server.Controller.Joining.{mem-last}
use linux_tcp_server.Demarcar.{deref}
use linux_tcp_server.Controller.{
  TcpServerController, set_bit, un_set_bit, is_bit_set, tcp_server_not_accepting_new_connections,
  stop_connection_accepting_svc, start_conection_acception_svc, create_active_a_client,
}

-- The service, the callbacks and the name are as before, and the list of clients is there if it was.
pub record SameService (c c' : TcpServerController) : Type 0 where
  pub same_svc : c'.tcp_client_svc_mgr ≡ c.tcp_client_svc_mgr
  pub same_connected : c'.client_connected ≡ c.client_connected
  pub same_msg_recvd : c'.client_msg_recvd ≡ c.client_msg_recvd
  pub same_name : c'.name ≡ c.name
  pub still_db :
      (db : TcpClientDbManager)
      → c.tcp_client_db_mgr ≡ some db
      → (db' : TcpClientDbManager) × (c'.tcp_client_db_mgr ≡ some db')
        × ((q : ℕ) → mem q db.tcp_client_db ≡ true → mem q db'.tcp_client_db ≡ true)

SameService-refl : (c : TcpServerController) → SameService c c
SameService-refl c = record {
  same_svc = refl;
  same_connected = refl;
  same_msg_recvd = refl;
  same_name = refl;
  still_db = λ db is_db. (db, is_db, (λ q there. there));
}

pub stop_connection_accepting_svc-SameService :
    (c : TcpServerController) → SameService c (stop_connection_accepting_svc c)
unfolding stop_connection_accepting_svc set_bit
stop_connection_accepting_svc-SameService c =
    elim (Bool-cases (is_bit_set tcp_server_not_accepting_new_connections c)) [
      | inl e ↦ rw e (SameService-refl c)
      | inr e ↦ rw e (record {
        same_svc = refl;
        same_connected = refl;
        same_msg_recvd = refl;
        same_name = refl;
        still_db = λ db is_db. (db, is_db, (λ q there. there));
      })
    ]

pub start_conection_acception_svc-Keeps :
    (socket : Option ℕ) (created : Bool) (c : TcpServerController)
    → Keeps (start_conection_acception_svc socket created c) (SameService c)
unfolding start_conection_acception_svc un_set_bit
start_conection_acception_svc-Keeps socket created c =
    elim (Bool-cases (is_bit_set tcp_server_not_accepting_new_connections c)) [
      | inl e ↦ rw e (
          Keeps-then (SameService c) (Acceptor.construct socket) _ (λ acc.
            Keeps-then (SameService c) (Acceptor.start_thread created acc) _ (λ acc'. record {
              same_svc = refl;
              same_connected = refl;
              same_msg_recvd = refl;
              same_name = refl;
              still_db = λ db is_db. (db, is_db, (λ q there. there));
            })))
      | inr e ↦ rw e (SameService-refl c)
    ]

pub start_conection_acception_svc-SameService :
    (socket : Option ℕ) (created : Bool) (c c' : TcpServerController)
    → start_conection_acception_svc socket created c ≡ done c'
    → SameService c c'
start_conection_acception_svc-SameService socket created c c' e =
    subst (λ m. Keeps m (SameService c)) e (start_conection_acception_svc-Keeps socket created c)

-- The service is as before, and every client but the new one.
abbrev Connects : ℕ → TcpServerController → Host → TcpServerController × Host → Type 0
Connects p c h r = SameService c r.0 × ((q : ℕ) → p ≢ q → find q r.1.clients ≡ find q h.clients)

known_still :
    (p q : ℕ) (db db' : TcpClientDbManager)
    → db' ≡ db
    → mem q db'.tcp_client_db ≡ true
    → mem q (ClientDb.add_client_to_db p db).tcp_client_db ≡ true
unfolding ClientDb.add_client_to_db
known_still p q db db' same there =
    mem-last q p db.tcp_client_db
    ∙ ap (λ b. b || (p == q)) (sym (ap (λ x. mem q x.tcp_client_db) same) ∙ there)

pub create_active_a_client-Keeps :
    (p : ℕ) (resolved : Bool) (server_ip_addr server_port_no : ℕ) (c : TcpServerController)
    (h : Host)
    → Keeps (create_active_a_client p resolved server_ip_addr server_port_no c h) (Connects p c h)
unfolding create_active_a_client
create_active_a_client-Keeps p false server_ip_addr server_port_no c h = tt
create_active_a_client-Keeps p true server_ip_addr server_port_no c h =
    elim (Option-cases c.tcp_client_db_mgr) [
      | inl missing ↦ rw missing tt
      | inr (db, there) ↦ rw there (
        record {
          same_svc = refl;
          same_connected = refl;
          same_msg_recvd = refl;
          same_name = refl;
          still_db = λ db' is_db. (
            ClientDb.add_client_to_db p db,
            refl,
            (λ q known. known_still p q db db' (sym (some_inj is_db)) known),
          );
        },
        (λ q differ. find-put_other p q _ h.clients differ),
      )
    ]

pub create_active_a_client-Connects :
    (p : ℕ) (resolved : Bool) (server_ip_addr server_port_no : ℕ) (c : TcpServerController)
    (h : Host) (r : TcpServerController × Host)
    → create_active_a_client p resolved server_ip_addr server_port_no c h ≡ done r
    → Connects p c h r
create_active_a_client-Connects p resolved server_ip_addr server_port_no c h r e =
    subst (λ m. Keeps m (Connects p c h)) e
      (create_active_a_client-Keeps p resolved server_ip_addr server_port_no c h)

pub create_active_a_client-calls :
    (p : ℕ) (resolved : Bool) (server_ip_addr server_port_no : ℕ) (c : TcpServerController)
    (h : Host) (r : TcpServerController × Host)
    → create_active_a_client p resolved server_ip_addr server_port_no c h ≡ done r
    → r.1.calls ≡ h.calls
unfolding create_active_a_client
create_active_a_client-calls p resolved server_ip_addr server_port_no c h r e =
    subst (λ m. Keeps m (λ x. x.1.calls ≡ h.calls)) e (keeps resolved)
  where
    keeps :
        (b : Bool)
        → Keeps
            (create_active_a_client p b server_ip_addr server_port_no c h)
            (λ x. x.1.calls ≡ h.calls)
    keeps false = tt
    keeps true = Keeps-then (λ x. x.1.calls ≡ h.calls) (deref c.tcp_client_db_mgr) _ (λ db. refl)
