-- ===== src/App/Cli.antt =====
-- The command trees that testapp.cpp builds, and its `main`. The calls of the command parser's library
-- are kept as a list.
use Prim.Native.String.{String}
use linux_tcp_server.Base.{
  ℕ, zero, suc, ◌≡◌, ◌⊎◌, inl, inr, refl, true, Option, none, some, List, [], ◌∷◌, ◌++◌, codes,
  Outcome, ◌>>=◌,
}
use linux_tcp_server.NetworkUtils.{network_convert_ip_p_to_n}
use linux_tcp_server.Controller
use linux_tcp_server.Controller.{ServerShown}
use linux_tcp_server.App.Commands.{
  Environment, Command, tcp_server_create, tcp_server_start, tcp_server_stop_conn_accept,
  tcp_server_stop_client_listen, tcp_server_stop, tcp_server_connect_remote, other, command_of,
}

-- The static `param_t` variables of the two functions, and the two hooks.
data Param : Type 0 where
  config_hook show_hook tcp_server tcp_server_name dis_conn_accept : Param
  disable_client_listen stop tcp_server_addr tcp_server_port start : Param
  connect remote_machine_addr remote_machine_port : Param
  show_tcp_server show_tcp_server_name : Param

data Handler : Type 0 where
  config_handler show_handler no_handler : Handler

data LeafType : Type 0 where
  invalid string_leaf ipv4 int_leaf : LeafType

-- A call of `init_param` for a command word or for a leaf, and the other three calls.
data CliCall : Type 0 where
  init_cmd : Param → String → Handler → String → CliCall
  init_leaf : Param → Handler → LeafType → String → String → CliCall
  register_param : Param → Param → CliCall
  set_cmd_code : Param → ℕ → CliCall
  support_negation : Param → CliCall

unfoldable tcp_build_config_cli_tree : List CliCall
tcp_build_config_cli_tree =
    init_cmd tcp_server "tcp-server" no_handler "config tcp-server"
    ∷ register_param config_hook tcp_server
    ∷ init_leaf tcp_server_name config_handler string_leaf "tcp-server-name" "Tcp Server Name"
    ∷ register_param tcp_server tcp_server_name
    ∷ set_cmd_code tcp_server_name 1
    ∷ init_cmd dis_conn_accept "disable-conn-accept" config_handler "Connection Accept Settings"
    ∷ register_param tcp_server_name dis_conn_accept
    ∷ set_cmd_code dis_conn_accept 4
    ∷ init_cmd disable_client_listen "disable-client-listen" config_handler "Listening  Settings"
    ∷ register_param tcp_server_name disable_client_listen
    ∷ set_cmd_code disable_client_listen 5
    ∷ init_cmd stop "stop" config_handler "Stop TCP Server"
    ∷ register_param tcp_server_name stop
    ∷ set_cmd_code stop 6
    ∷ init_leaf tcp_server_addr no_handler ipv4 "tcp-server-addr" "Tcp Server Address"
    ∷ register_param tcp_server_name tcp_server_addr
    ∷ init_leaf tcp_server_port config_handler int_leaf "tcp-server-port" "Tcp Server Port Number"
    ∷ register_param tcp_server_addr tcp_server_port
    ∷ set_cmd_code tcp_server_port 1
    ∷ init_cmd start "start" config_handler "Start"
    ∷ register_param tcp_server_name start
    ∷ set_cmd_code start 2
    ∷ init_cmd connect "connect" no_handler "connect tcp-server"
    ∷ register_param tcp_server_name connect
    ∷ init_leaf remote_machine_addr no_handler ipv4 "remote-addr" "Remote IPV4 address"
    ∷ register_param connect remote_machine_addr
    ∷ init_leaf remote_machine_port config_handler int_leaf "remote-port" "Remote Port Number"
    ∷ register_param remote_machine_addr remote_machine_port
    ∷ set_cmd_code remote_machine_port 7
    ∷ support_negation tcp_server_name
    ∷ support_negation config_hook
    ∷ []

unfoldable tcp_build_show_cli_tree : List CliCall
tcp_build_show_cli_tree =
    init_cmd show_tcp_server "tcp-server" no_handler "show tcp-server"
    ∷ register_param show_hook show_tcp_server
    ∷ init_leaf show_tcp_server_name show_handler string_leaf "tcp-server-name" "Tcp Server Name"
    ∷ register_param show_tcp_server show_tcp_server_name
    ∷ set_cmd_code show_tcp_server_name 3
    ∷ []

unfoldable tcp_build_cli : List CliCall
unfolding tcp_build_config_cli_tree tcp_build_show_cli_tree
tcp_build_cli = tcp_build_config_cli_tree ++ tcp_build_show_cli_tree

-- The branch of `main` that is compiled, in which no client has come yet when the server is displayed.
unfoldable main : Environment → Outcome ServerShown
main env = do
  server1 ←
      Controller.construct env.socket (network_convert_ip_p_to_n env.inet_pton (codes "127.0.0.1"))
        40000 (codes "Default TCP Server")
  running ← Controller.start env.created server1
  Controller.display (record { clients = []; calls = [] })
      (Controller.set_server_notif_callbacks true true true running)

abbrev element_at : ℕ → List CliCall → Option CliCall
element_at i [] = none
element_at zero (k ∷ l) = some k
element_at (suc i) (k ∷ l) = element_at i l

-- A call that is made.
abbrev Within : CliCall → List CliCall → Type 0
Within k l = (i : ℕ) × (element_at i l ≡ some k)

-- The parameter hangs under the first one of the path, and so on up to the configuration hook, which
-- is the last.
abbrev HangsUnder : List CliCall → Param → List Param → Type 0
HangsUnder calls p [] = p ≡ config_hook
HangsUnder calls p (q ∷ path) = Within (register_param q p) calls × HangsUnder calls q path

named : HangsUnder tcp_build_cli tcp_server_name (tcp_server ∷ config_hook ∷ [])
unfolding tcp_build_cli
named = ((3, refl), ((1, refl), refl))

-- Every command that the handler of configuration commands knows can be typed: the tree has a
-- parameter with its code, which hangs under the configuration hook.
commands_in_tree :
    (c : Command)
    → (c ≡ other)
      ⊎ ((p : Param) × (n : ℕ) × (path : List Param) × Within (set_cmd_code p n) tcp_build_cli
          × HangsUnder tcp_build_cli p path
          × (command_of n ≡ c))
unfolding tcp_build_cli
commands_in_tree other = inl refl
commands_in_tree tcp_server_create =
    inr (tcp_server_name, 1, tcp_server ∷ config_hook ∷ [], (4, refl), named, refl)
commands_in_tree tcp_server_start = inr (
  start,
  2,
  tcp_server_name ∷ tcp_server ∷ config_hook ∷ [],
  (21, refl),
  ((20, refl), named),
  refl,
)
commands_in_tree tcp_server_stop_conn_accept = inr (
  dis_conn_accept,
  4,
  tcp_server_name ∷ tcp_server ∷ config_hook ∷ [],
  (7, refl),
  ((6, refl), named),
  refl,
)
commands_in_tree tcp_server_stop_client_listen = inr (
  disable_client_listen,
  5,
  tcp_server_name ∷ tcp_server ∷ config_hook ∷ [],
  (10, refl),
  ((9, refl), named),
  refl,
)
commands_in_tree tcp_server_stop = inr (
  stop,
  6,
  tcp_server_name ∷ tcp_server ∷ config_hook ∷ [],
  (13, refl),
  ((12, refl), named),
  refl,
)
commands_in_tree tcp_server_connect_remote = inr (
  remote_machine_port,
  7,
  remote_machine_addr ∷ connect ∷ tcp_server_name ∷ tcp_server ∷ config_hook ∷ [],
  (28, refl),
  ((27, refl), ((25, refl), ((23, refl), named))),
  refl,
)
