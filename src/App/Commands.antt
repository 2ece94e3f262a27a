-- ===== src/App/Commands.antt =====
-- The handlers of testapp.cpp.
use linux_tcp_server.Base.{
  ℕ, Bool, true, Option, none, some, List, [], ◌∷◌, ◌++◌, put, erase, ◌==◌, if◌then◌else◌, Outcome,
  done, ◌>>=◌,
}
use linux_tcp_server.Demarcar.{deref}
use linux_tcp_server.NetworkUtils.{network_convert_ip_p_to_n}
use linux_tcp_server.Controller
use linux_tcp_server.Controller.{TcpServerController, ServerShown}
use linux_tcp_server.ClientDb.{Platform}
use linux_tcp_server.App.{
  Application, load_server, store_server, Tlv, Arguments, default_arguments, scan_tlvs,
  tcp_server_lookup,
}

-- `op_mode` of the command parser.
pub data OpMode : Type 0 where
  config_disable config_enable operational mode_unknown : OpMode

-- The command codes; any other code is ignored.
pub data Command : Type 0 where
  tcp_server_create tcp_server_start tcp_server_stop_conn_accept : Command
  tcp_server_stop_client_listen tcp_server_stop tcp_server_connect_remote : Command
  other : Command

abbrev pub command_of : ℕ → Command
command_of n =
    if n == 1
    then tcp_server_create
    else (if n == 2
        then tcp_server_start
        else (if n == 4
            then tcp_server_stop_conn_accept
            else (if n == 5
                then tcp_server_stop_client_listen
                else (if n == 6
                    then tcp_server_stop
                    else (if n == 7 then tcp_server_connect_remote else other)))))

-- What the system gives to a command: the address of `new`, and the results of `socket`,
-- `pthread_create` and `gethostbyname`, and what the platform lets pass; `inet_pton` and `atoi` are the C library's.
pub record Environment : Type 0 where
  pub address : ℕ
  pub socket : Option ℕ
  pub created : Bool
  pub resolved : Bool
  pub platform : Platform
  pub inet_pton : List ℕ → Option (List ℕ)
  pub atoi : List ℕ → ℕ

-- The value returned: 0 or -1.
pub data ReturnCode : Type 0 where
  success failure : ReturnCode

-- `TCP_SERVER_CREATE` after the lookup.
unfoldable pub create :
    Environment → Arguments → List ℕ → Option ℕ → Application → Outcome (ReturnCode × Application)
create env a name (some p) app = done (failure, app)
create env a name none app = do
  c ←
      Controller.construct env.socket (network_convert_ip_p_to_n env.inet_pton a.ip_addr) a.port_no
        name
  let c' = Controller.set_server_notif_callbacks true true true c
  done (
    success,
    record app {
      tcp_server_lst = app.tcp_server_lst ++ env.address ∷ [];
      servers = put env.address c' app.servers;
    },
  )

-- What a command does with the server it names.
unfoldable pub on_server :
    Environment
    → Arguments
    → Command
    → OpMode
    → ℕ
    → Application
    → Outcome (ReturnCode × Application)
on_server env a tcp_server_start mode p app = do
  c ← load_server p app
  c' ← Controller.start env.created c
  done (success, store_server p c' app)
on_server env a tcp_server_stop_conn_accept config_enable p app = do
  c ← load_server p app
  done (success, store_server p (Controller.stop_connection_accepting_svc c) app)
on_server env a tcp_server_stop_conn_accept config_disable p app = do
  c ← load_server p app
  c' ← Controller.start_conection_acception_svc env.socket env.created c
  done (success, store_server p c' app)
on_server env a tcp_server_stop_client_listen config_enable p app = do
  c ← load_server p app
  c' ← Controller.stop_client_svc_mgr env.platform c
  done (success, store_server p c' app)
on_server env a tcp_server_stop_client_listen config_disable p app = do
  c ← load_server p app
  done (success, store_server p (Controller.start_client_svc_mgr c) app)
on_server env a tcp_server_stop config_enable p app = do
  c ← load_server p app
  h ← Controller.stop env.platform c app.host
  done (success, record app { servers = erase p app.servers; host = h })
on_server env a tcp_server_stop config_disable p app = done (failure, app)
on_server env a tcp_server_connect_remote config_enable p app = do
  c ← load_server p app
  remote ← deref a.remote_ip_addr
  (c', h) ←
      Controller.create_active_a_client env.address env.resolved
        (network_convert_ip_p_to_n env.inet_pton remote) a.remote_port c app.host
  done (success, record (store_server p c' app) { host = h })
on_server env a _ _ p app = done (success, app)

-- A server that is not there is an error.
unfoldable pub with_server :
    Environment
    → Arguments
    → Command
    → OpMode
    → Option ℕ
    → Application
    → Outcome (ReturnCode × Application)
unfolding on_server
with_server env a command mode none app = done (failure, app)
with_server env a command mode (some p) app = on_server env a command mode p app

-- The `switch` over the command.
unfoldable pub switch_command :
    Environment → Arguments → Command → OpMode → Application → Outcome (ReturnCode × Application)
unfolding create with_server
switch_command env a other mode app = done (success, app)
switch_command env a tcp_server_create mode app = do
  name ← deref a.server_name
  found ← tcp_server_lookup name app
  create env a name found app
switch_command env a command mode app = do
  name ← deref a.server_name
  found ← tcp_server_lookup name app
  with_server env a command mode found app

unfoldable pub config_tcp_server_handler :
    Environment → ℕ → List Tlv → OpMode → Application → Outcome (ReturnCode × Application)
unfolding switch_command
config_tcp_server_handler env cmd_code tlvs mode app =
    switch_command env (scan_tlvs env.atoi tlvs default_arguments) (command_of cmd_code) mode app

-- `show_tcp_server_handler`: what is displayed, if anything.
unfoldable show_found : Option ℕ → Application → Outcome (ReturnCode × Option ServerShown)
show_found none app = done (failure, none)
show_found (some p) app = do
  c ← load_server p app
  shown ← Controller.display app.host c
  done (success, some shown)

unfoldable show_tcp_server_handler :
    Environment → ℕ → List Tlv → Application → Outcome (ReturnCode × Option ServerShown)
unfolding show_found
show_tcp_server_handler env cmd_code tlvs app =
    let a = scan_tlvs env.atoi tlvs default_arguments in
    let shown = (do
      name ← deref a.server_name
      found ← tcp_server_lookup name app
      show_found found app) in
    if cmd_code == 3 then shown else done (success, none)
