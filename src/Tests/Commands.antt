-- ===== src/Tests/Commands.antt =====
-- Instances for the commands of the test application.
use linux_tcp_server.Base.{
  ℕ, ◌≡◌, ◌∙◌, ap, sym, done_inj, refl, subst, inl, inr, true, some, none, [], ◌∷◌, find, codes,
  done, fault, Returns,
}
use mathlib.Core.Bool.{false≢true}
use linux_tcp_server.TcpClient.{holds}
use linux_tcp_server.Service.Lookup.{mem_cases}
use linux_tcp_server.ClientDb
use linux_tcp_server.Tests.Samples.{lenient}
use linux_tcp_server.ClientDb.{purge, mem}
use linux_tcp_server.Acceptor
use linux_tcp_server.Controller
use linux_tcp_server.Controller.{TcpServerController}
use linux_tcp_server.App.{
  Application, Arguments, default_arguments, lookup_in, scan_tlvs, tcp_server_lookup,
}
use linux_tcp_server.App.Commands.{
  Environment, OpMode, success, failure, config_enable, tcp_server_stop, tcp_server_create, create,
  on_server, switch_command, config_tcp_server_handler,
}
use linux_tcp_server.App.Lookup.{AllLive, Finds}
use linux_tcp_server.App.Servers.{stopped_server_dangles}
use linux_tcp_server.App.Distinct.{NamesDiffer}
use linux_tcp_server.App.Once.{created_once}
use linux_tcp_server.App.Names.{GetsFresh, lookup_finds_server}
use linux_tcp_server.App.Session.{Typed, run_commands, lookups_after_commands}
use linux_tcp_server.NetworkUtils.{network_convert_ip_p_to_n}
use linux_tcp_server.Service
use linux_tcp_server.Service.{allocated}

abbrev environment : Environment
environment = record {
  address = 500;
  socket = some 4;
  platform = lenient;
  created = true;
  resolved = true;
  inet_pton = λ s. some (127 ∷ 0 ∷ 0 ∷ 1 ∷ []);
  atoi = λ s. 40000;
}

-- A server that was constructed and started, and whose acceptor and service were stopped.
abbrev server : TcpServerController
server = record {
  tcp_new_conn_acc = none;
  tcp_client_db_mgr = some (record { tcp_client_db = [] });
  tcp_client_svc_mgr = none;
  state_flags = 15;
  ip_addr = 2130706433;
  port_no = 40000;
  name = codes "a";
  client_connected = holds true;
  client_disconected = holds true;
  client_msg_recvd = holds true;
}

abbrev app : Application
app = record {
  tcp_server_lst = 400 ∷ [];
  servers = (400, server) ∷ [];
  host = record { clients = []; calls = [] };
}

abbrev stopped_app : Application
stopped_app = record app { servers = [] }

live : AllLive app.servers app.tcp_server_lst
live p there = elim (mem_cases p 400 [] there) [
  | inl same ↦
      subst (λ x. (c : TcpServerController) × (find x app.servers ≡ some c)) same (server, refl)
  | inr behind ↦ absurd (false≢true behind)
]

known : tcp_server_lookup (codes "a") app ≡ done (some 400)
unfolding tcp_server_lookup lookup_in
known = refl

stopped :
    on_server environment default_arguments tcp_server_stop config_enable 400 app
    ≡ done (success, stopped_app)
unfolding on_server Controller.stop Controller.un_set_bit purge ClientDb.destructor
stopped = refl

stopped_server_dangles_example :
    (stopped_app.tcp_server_lst ≡ 400 ∷ []) × (tcp_server_lookup (codes "a") stopped_app ≡ fault)
stopped_server_dangles_example =
    stopped_server_dangles environment default_arguments (codes "a") 400 app stopped_app known
      stopped

-- The command `config tcp-server b`.
abbrev typed : Typed
typed = record {
  env = environment;
  cmd_code = 1;
  tlvs = record { leaf_id = codes "tcp-server-name"; value = codes "b" } ∷ [];
  mode = config_enable;
}

-- The server that it creates.
abbrev created : TcpServerController
created = record {
  tcp_new_conn_acc = some (record { accept_fd = 4; accept_new_conn_thread = some allocated });
  tcp_client_db_mgr = some (record { tcp_client_db = [] });
  tcp_client_svc_mgr = some Service.construct;
  state_flags = 1;
  ip_addr = 2130706433;
  port_no = 40000;
  name = codes "b";
  client_connected = holds true;
  client_disconected = holds true;
  client_msg_recvd = holds true;
}

abbrev two_servers : Application
two_servers = record app {
  tcp_server_lst = 400 ∷ 500 ∷ [];
  servers = (400, server) ∷ (500, created) ∷ [];
}

both_commands : run_commands (typed ∷ typed ∷ []) app ≡ done two_servers
unfolding run_commands config_tcp_server_handler switch_command create tcp_server_lookup lookup_in
    scan_tlvs Controller.construct Controller.set_server_notif_callbacks network_convert_ip_p_to_n
    Controller.set_bit Acceptor.construct
both_commands = refl

lookups_after_commands_example :
    Returns
      (tcp_server_lookup (codes "b") two_servers)
      (Finds two_servers.servers (400 ∷ 500 ∷ []) (codes "b"))
lookups_after_commands_example =
    lookups_after_commands (typed ∷ typed ∷ []) app two_servers (codes "b") (refl, (refl, tt)) live
      both_commands

only_server : NamesDiffer app
only_server p q c d p_in q_in is_c is_d same = elim (mem_cases p 400 [] p_in) [
  | inl is_p ↦ elim (mem_cases q 400 [] q_in) [
    | inl is_q ↦ sym is_p ∙ is_q
    | inr behind ↦ absurd (false≢true behind)
  ]
  | inr behind ↦ absurd (false≢true behind)
]

-- The same command once more, with the next address.
abbrev typed_again : Typed
typed_again = record typed { env = record environment { address = 600 } }

first_command :
    config_tcp_server_handler environment typed.cmd_code typed.tlvs typed.mode app
    ≡ done (success, two_servers)
unfolding config_tcp_server_handler switch_command create tcp_server_lookup lookup_in scan_tlvs
    Controller.construct Controller.set_server_notif_callbacks network_convert_ip_p_to_n
    Controller.set_bit Acceptor.construct
first_command = refl

fresh : GetsFresh (typed ∷ typed_again ∷ []) app
unfolding GetsFresh
fresh = (
  refl,
  (λ code app' ran.
      let same : two_servers ≡ app' = ap (λ r. r.1) (done_inj (sym first_command ∙ ran)) in
      (ap (λ x. find 600 x.servers) (sym same), (λ code' app'' ran'. tt))),
)

again : run_commands (typed ∷ typed_again ∷ []) app ≡ done two_servers
unfolding run_commands config_tcp_server_handler switch_command create tcp_server_lookup lookup_in
    scan_tlvs Controller.construct Controller.set_server_notif_callbacks network_convert_ip_p_to_n
    Controller.set_bit Acceptor.construct
again = refl

lookup_finds_server_example :
    NamesDiffer two_servers
    × ((p : ℕ) (c : TcpServerController)
        → mem p (400 ∷ 500 ∷ []) ≡ true
        → find p two_servers.servers ≡ some c
        → tcp_server_lookup c.name two_servers ≡ done (some p))
lookup_finds_server_example =
    lookup_finds_server (typed ∷ typed_again ∷ []) app two_servers (refl, (refl, tt)) fresh live
      only_server again

-- The arguments of that command.
abbrev for_b : Arguments
for_b = record default_arguments { server_name = some (codes "b") }

creates_b :
    switch_command environment for_b tcp_server_create config_enable app
    ≡ done (success, two_servers)
unfolding switch_command create tcp_server_lookup lookup_in Controller.construct
    Controller.set_server_notif_callbacks network_convert_ip_p_to_n Controller.set_bit
    Acceptor.construct
creates_b = refl

fresh_again : GetsFresh (typed_again ∷ []) two_servers
unfolding GetsFresh
fresh_again = (refl, (λ code app' ran. tt))

only_again : run_commands (typed_again ∷ []) two_servers ≡ done two_servers
unfolding run_commands config_tcp_server_handler switch_command create tcp_server_lookup lookup_in
    scan_tlvs
only_again = refl

created_once_example :
    (tcp_server_lookup (codes "b") two_servers ≡ done (some 500))
    × ((env' : Environment) (a' : Arguments) (mode' : OpMode)
        → a'.server_name ≡ some (codes "b")
        → switch_command env' a' tcp_server_create mode' two_servers ≡ done (failure, two_servers))
created_once_example =
    created_once environment for_b (codes "b") config_enable (typed_again ∷ []) app two_servers
      two_servers refl refl live only_server creates_b (refl, tt) fresh_again only_again
