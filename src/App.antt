-- ===== src/App.antt =====
-- testapp.cpp: the list of the servers, and the handlers of the commands that a user types. The
-- command parser is a library of its own: what it hands to a handler, the command's code, the values by
-- leaf and whether the command is negated, are arguments.
pub mod Commands
pub mod Lookup
pub mod Servers
pub mod Cli
pub mod Notices
pub mod Endpoints
pub mod Changes
pub mod Session
pub mod Distinct
pub mod Names
pub mod Once
use linux_tcp_server.Base.{
  ℕ, ◌%◌, ◌^◌, Bool, true, false, Option, none, some, List, [], ◌∷◌, ◌++◌, find, put, erase, codes,
  same_text, starts_with, ◌==◌, if◌then◌else◌, Outcome, done, fault, ◌>>=◌,
}
use linux_tcp_server.Demarcar.{deref}
use linux_tcp_server.ClientDb.{Host}
use linux_tcp_server.Controller.{TcpServerController}

-- The pointers of `tcp_server_lst`, the controllers on the heap by address, and the clients.
pub record Application : Type 0 where
  pub tcp_server_lst : List ℕ
  pub servers : List (ℕ × TcpServerController)
  pub host : Host

abbrev pub load_server : ℕ → Application → Outcome TcpServerController
load_server p app = deref (find p app.servers)

abbrev pub store_server : ℕ → TcpServerController → Application → Application
store_server p c app = record app { servers = put p c app.servers }

-- The loop of `TcpServer_lookup`.
unfoldable pub lookup_in : List (ℕ × TcpServerController) → List ℕ → List ℕ → Outcome (Option ℕ)
lookup_in servers name [] = done none
lookup_in servers name (p ∷ l) = do
  ctrlr ← deref (find p servers)
  let next = lookup_in servers name l
  if same_text ctrlr.name name then done (some p) else next

unfoldable pub tcp_server_lookup : List ℕ → Application → Outcome (Option ℕ)
unfolding lookup_in
tcp_server_lookup name app = lookup_in app.servers name app.tcp_server_lst

-- A value of the command, by the name of its leaf.
pub record Tlv : Type 0 where
  pub leaf_id : List ℕ
  pub value : List ℕ

-- The local variables of a handler.
pub record Arguments : Type 0 where
  pub server_name : Option (List ℕ)
  pub ip_addr : List ℕ
  pub port_no : ℕ
  pub remote_ip_addr : Option (List ℕ)
  pub remote_port : ℕ

abbrev pub default_arguments : Arguments
default_arguments = record {
  server_name = none;
  ip_addr = codes "127.0.0.1";
  port_no = 40000;
  remote_ip_addr = none;
  remote_port = 0;
}

-- The body of the loop over the values; `atoi` is the C library's, and ports have 16 bits.
unfoldable scan_tlv : (List ℕ → ℕ) → Tlv → Arguments → Arguments
scan_tlv atoi t a =
    if starts_with t.leaf_id (codes "tcp-server-name")
    then record a { server_name = some t.value }
    else (if starts_with t.leaf_id (codes "tcp-server-addr")
        then record a { ip_addr = t.value }
        else (if starts_with t.leaf_id (codes "tcp-server-port")
            then record a { port_no = atoi t.value % 2 ^ 16 }
            else (if starts_with t.leaf_id (codes "remote-addr")
                then record a { remote_ip_addr = some t.value }
                else (if starts_with t.leaf_id (codes "remote-port")
                    then record a { remote_port = atoi t.value % 2 ^ 16 }
                    else a))))

unfoldable pub scan_tlvs : (List ℕ → ℕ) → List Tlv → Arguments → Arguments
unfolding scan_tlv
scan_tlvs atoi [] a = a
scan_tlvs atoi (t ∷ ts) a = scan_tlvs atoi ts (scan_tlv atoi t a)
