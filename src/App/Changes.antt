-- ===== src/App/Changes.antt =====
-- What one command does to the list of servers of testapp.cpp, if it does not stop a server.
use linux_tcp_server.Base.{
  ℕ, ◌≡◌, inl, inr, refl, Bool, true, false, Option, none, some, List, [], ◌∷◌, ◌++◌, put, sym,
  Outcome, done, ◌>>=◌, Keeps, Keeps-then, Keeps-bind, Keeps-self, Bool-cases,
}
use mathlib.Core.Bool.{false≢true}
use linux_tcp_server.Demarcar.{deref}
use linux_tcp_server.NetworkUtils.{network_convert_ip_p_to_n}
use linux_tcp_server.Acceptor
use linux_tcp_server.Service
use linux_tcp_server.Controller
use linux_tcp_server.Controller.{TcpServerController}
use linux_tcp_server.Controller.Operator.{
  stop_connection_accepting_svc-SameService, start_conection_acception_svc-Keeps,
  create_active_a_client-Keeps,
}
use linux_tcp_server.ClientDb.{Platform}
use linux_tcp_server.App.{Application, load_server, Arguments, tcp_server_lookup}
use linux_tcp_server.App.Commands.{
  Environment, OpMode, config_disable, config_enable, operational, mode_unknown, Command,
  tcp_server_create, tcp_server_start, tcp_server_stop_conn_accept, tcp_server_stop_client_listen,
  tcp_server_stop, tcp_server_connect_remote, other, ReturnCode, on_server, with_server, create,
  switch_command,
}

-- The command that stops a server.
abbrev pub stops : Command → OpMode → Bool
stops tcp_server_stop config_enable = true
stops _ _ = false

-- A command changes nothing, or one server in its place, which keeps its name, or it puts a new server
-- with a name that no lookup finds to the end of the list.
pub data Changes (address : ℕ) (app app' : Application) : Type 0 where
  nothing : app' ≡ app → Changes address app app'
  updates :
      (p : ℕ) (c c' : TcpServerController)
      → load_server p app ≡ done c
      → c'.name ≡ c.name
      → app'.servers ≡ put p c' app.servers
      → app'.tcp_server_lst ≡ app.tcp_server_lst
      → Changes address app app'
  creates :
      (name : List ℕ) (c : TcpServerController)
      → tcp_server_lookup name app ≡ done none
      → c.name ≡ name
      → app'.servers ≡ put address c app.servers
      → app'.tcp_server_lst ≡ app.tcp_server_lst ++ address ∷ []
      → Changes address app app'

HasName : List ℕ → TcpServerController → Type 0
HasName name c = c.name ≡ name

start-HasName :
    (created : Bool) (c : TcpServerController) → Keeps (Controller.start created c) (HasName c.name)
unfolding Controller.start Controller.set_bit HasName
start-HasName created c =
    Keeps-then (λ x. x.name ≡ c.name) (deref c.tcp_client_svc_mgr) _
      (λ svc.
        Keeps-then (λ x. x.name ≡ c.name) (Service.start_thread svc) _
          (λ svc'.
            Keeps-then (λ x. x.name ≡ c.name) (deref c.tcp_new_conn_acc) _
              (λ acc.
                Keeps-then (λ x. x.name ≡ c.name) (Acceptor.start_thread created acc) _
                  (λ acc'.
                    Keeps-then (λ x. x.name ≡ c.name) (deref c.tcp_client_db_mgr) _ (λ db. refl)))))

stop_client_svc_mgr-HasName :
    (u : Platform) (c : TcpServerController)
    → Keeps (Controller.stop_client_svc_mgr u c) (HasName c.name)
unfolding Controller.stop_client_svc_mgr Controller.set_bit HasName
stop_client_svc_mgr-HasName u c =
    elim (Bool-cases (Controller.is_bit_set Controller.tcp_server_not_listening_clients c)) [
      | inl stopped ↦ rw stopped refl
      | inr runs ↦ rw runs (
          Keeps-then (λ x. x.name ≡ c.name) (deref c.tcp_client_svc_mgr) _
            (λ svc. Keeps-then (λ x. x.name ≡ c.name) (Service.stop u svc) _ (λ svc'. refl)))
    ]

module _ (env : Environment) (a : Arguments) (app : Application) where
  abbrev Does : ReturnCode × Application → Type 0
  Does r = Changes env.address app r.1

  -- After the server was loaded.
  loaded :
      (p : ℕ) (f : TcpServerController → Outcome (ReturnCode × Application))
      → ((c : TcpServerController) → load_server p app ≡ done c → Keeps (f c) Does)
      → Keeps (load_server p app >>= f) Does
  loaded p f k =
      Keeps-bind (λ c. load_server p app ≡ done c) Does _ f (Keeps-self (load_server p app)) k

  on_server_lem :
      (command : Command) (mode : OpMode) (p : ℕ)
      → stops command mode ≡ false
      → Keeps (on_server env a command mode p app) Does
  unfolding on_server HasName
  on_server_lem tcp_server_create config_enable p e = nothing refl
  on_server_lem tcp_server_create config_disable p e = nothing refl
  on_server_lem tcp_server_create operational p e = nothing refl
  on_server_lem tcp_server_create mode_unknown p e = nothing refl
  on_server_lem other config_enable p e = nothing refl
  on_server_lem other config_disable p e = nothing refl
  on_server_lem other operational p e = nothing refl
  on_server_lem other mode_unknown p e = nothing refl
  on_server_lem tcp_server_start mode p e = loaded p _ (λ c is_c.
      Keeps-bind (λ x. x.name ≡ c.name) Does (Controller.start env.created c) _
        (unfold HasName in start-HasName env.created c)
        (λ c' same. updates p c c' is_c same refl refl))
  on_server_lem tcp_server_stop_conn_accept config_enable p e = loaded p _ (λ c is_c.
      updates p c (Controller.stop_connection_accepting_svc c) is_c
        (stop_connection_accepting_svc-SameService c).same_name refl refl)
  on_server_lem tcp_server_stop_conn_accept config_disable p e = loaded p _ (λ c is_c.
      Keeps-bind _ Does (Controller.start_conection_acception_svc env.socket env.created c) _
        (start_conection_acception_svc-Keeps env.socket env.created c)
        (λ c' same. updates p c c' is_c same.same_name refl refl))
  on_server_lem tcp_server_stop_conn_accept operational p e = nothing refl
  on_server_lem tcp_server_stop_conn_accept mode_unknown p e = nothing refl
  on_server_lem tcp_server_stop_client_listen config_enable p e = loaded p _ (λ c is_c.
      Keeps-bind (λ x. x.name ≡ c.name) Does (Controller.stop_client_svc_mgr env.platform c) _
        (unfold HasName in stop_client_svc_mgr-HasName env.platform c)
        (λ c' same. updates p c c' is_c same refl refl))
  on_server_lem tcp_server_stop_client_listen config_disable p e =
      loaded p _ (λ c is_c. updates p c c is_c refl refl refl)
  on_server_lem tcp_server_stop_client_listen operational p e = nothing refl
  on_server_lem tcp_server_stop_client_listen mode_unknown p e = nothing refl
  on_server_lem tcp_server_stop config_enable p e = absurd (false≢true (sym e))
  on_server_lem tcp_server_stop config_disable p e = nothing refl
  on_server_lem tcp_server_stop operational p e = nothing refl
  on_server_lem tcp_server_stop mode_unknown p e = nothing refl
  on_server_lem tcp_server_connect_remote config_enable p e = loaded p _ (λ c is_c.
      Keeps-then Does (deref a.remote_ip_addr) _ (λ remote.
        Keeps-bind _ Does
          (Controller.create_active_a_client env.address env.resolved
            (network_convert_ip_p_to_n env.inet_pton remote) a.remote_port c app.host)
          _
          (create_active_a_client-Keeps env.address env.resolved
            (network_convert_ip_p_to_n env.inet_pton remote) a.remote_port c app.host)
          (λ (c', h) (same, others). updates p c c' is_c same.same_name refl refl)))
  on_server_lem tcp_server_connect_remote config_disable p e = nothing refl
  on_server_lem tcp_server_connect_remote operational p e = nothing refl
  on_server_lem tcp_server_connect_remote mode_unknown p e = nothing refl

  with_server_lem :
      (command : Command) (mode : OpMode) (found : Option ℕ)
      → stops command mode ≡ false
      → Keeps (with_server env a command mode found app) Does
  unfolding with_server
  with_server_lem command mode none e = nothing refl
  with_server_lem command mode (some p) e = on_server_lem command mode p e

  create_lem :
      (name : List ℕ) (found : Option ℕ)
      → tcp_server_lookup name app ≡ done found
      → Keeps (create env a name found app) Does
  unfolding create Controller.construct Controller.set_server_notif_callbacks Controller.set_bit
  create_lem name (some p) known = nothing refl
  create_lem name none unknown =
      Keeps-bind (λ c. c.name ≡ name) Does _ _
        (Keeps-then (λ c. c.name ≡ name) (Acceptor.construct env.socket) _ (λ acc. refl))
        (λ c named.
          creates name (Controller.set_server_notif_callbacks true true true c) unknown named refl
            refl)

  -- After the name was read and looked up.
  looked_up :
      (after : List ℕ → Option ℕ → Outcome (ReturnCode × Application))
      → ((name : List ℕ) (found : Option ℕ)
          → tcp_server_lookup name app ≡ done found
          → Keeps (after name found) Does)
      → Keeps
          (deref a.server_name >>= λ name. tcp_server_lookup name app >>= λ found. after name found)
          Does
  looked_up after k = Keeps-then Does (deref a.server_name) _ (λ name.
      Keeps-bind (λ found. tcp_server_lookup name app ≡ done found) Does _ _
        (Keeps-self (tcp_server_lookup name app)) (λ found e. k name found e))

  pub switch_command_lem :
      (command : Command) (mode : OpMode)
      → stops command mode ≡ false
      → Keeps (switch_command env a command mode app) (λ r. Changes env.address app r.1)
  unfolding switch_command
  switch_command_lem other mode e = nothing refl
  switch_command_lem tcp_server_create mode e = looked_up (λ n f. create env a n f app) create_lem
  switch_command_lem tcp_server_start mode e =
      looked_up (λ n f. with_server env a tcp_server_start mode f app)
        (λ n f known. with_server_lem tcp_server_start mode f e)
  switch_command_lem tcp_server_stop_conn_accept mode e =
      looked_up (λ n f. with_server env a tcp_server_stop_conn_accept mode f app)
        (λ n f known. with_server_lem tcp_server_stop_conn_accept mode f e)
  switch_command_lem tcp_server_stop_client_listen mode e =
      looked_up (λ n f. with_server env a tcp_server_stop_client_listen mode f app)
        (λ n f known. with_server_lem tcp_server_stop_client_listen mode f e)
  switch_command_lem tcp_server_stop mode e =
      looked_up (λ n f. with_server env a tcp_server_stop mode f app)
        (λ n f known. with_server_lem tcp_server_stop mode f e)
  switch_command_lem tcp_server_connect_remote mode e =
      looked_up (λ n f. with_server env a tcp_server_connect_remote mode f app)
        (λ n f known. with_server_lem tcp_server_connect_remote mode f e)
