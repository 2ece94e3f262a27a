-- ===== src/TcpClient.antt =====
-- TcpClient.cpp and .h: one connection of the server, and the flags of its state.
pub mod States
use linux_tcp_server.Base.{
  ◌≡◌, ℕ, ◌-◌, ◌^◌, Bool, true, false, not, Option, none, some, List, [], ◌∷◌, ◌++◌, ◌==◌,
  if◌then◌else◌, Outcome, done, fault, ◌>>=◌, ◌>>◌,
}
use linux_tcp_server.Flags.{set_mask, unset_mask, has_mask}
use linux_tcp_server.Demarcar.{Demarcar, destroy, destructor}

-- A field that the constructor may leave unset; to read it then is undefined.
pub data Slot {ℓ} (A : Type ℓ) : Type ℓ where
  unset : Slot A
  holds : A → Slot A

abbrev pub get {ℓ} : {A : Type ℓ} → Slot A → Outcome A
get unset = fault
get (holds a) = done a

pub holds_inj {ℓ} : {A : Type ℓ} {a b : A} → holds a ≡ holds b → a ≡ b
holds_inj e = cc

-- The bits of `state_flags`.
pub data ClientState : Type 0 where
  connect_in_progress connected passive_opener active_opener multiplex_listen threaded : ClientState

abbrev pub state_bit : ClientState → ℕ
state_bit connect_in_progress = 1
state_bit connected = 2
state_bit passive_opener = 8
state_bit active_opener = 16
state_bit multiplex_listen = 32
state_bit threaded = 64

-- `tcp_ctrlr` tells whether the pointer to the controller is set.
pub record TcpClient : Type 0 where
  pub ip_addr : ℕ
  pub port_no : ℕ
  pub server_ip_addr : Slot ℕ
  pub server_port_no : Slot ℕ
  pub state_flags : ℕ
  pub comm_fd : Slot ℕ
  pub tcp_ctrlr : Slot Bool
  pub msgd : Slot (Option Demarcar)

-- The constructor sets three fields.
unfoldable pub construct : ℕ → ℕ → TcpClient
construct ip_addr port_no = record {
  ip_addr = ip_addr;
  port_no = port_no;
  server_ip_addr = unset;
  server_port_no = unset;
  state_flags = 0;
  comm_fd = unset;
  tcp_ctrlr = unset;
  msgd = unset;
}

unfoldable pub set_state : TcpClient → ClientState → TcpClient
set_state c s = record c { state_flags = set_mask c.state_flags (state_bit s) }

unfoldable pub un_set_state : TcpClient → ClientState → TcpClient
un_set_state c s = record c { state_flags = unset_mask c.state_flags (state_bit s) }

unfoldable pub is_state_set : TcpClient → ClientState → Bool
is_state_set c s = has_mask c.state_flags (state_bit s)

-- The line of `Display` for one flag, printed if it is set.
line : TcpClient → ClientState → List ClientState
unfolding is_state_set
line c s = if is_state_set c s then s ∷ [] else []

-- What `Display` prints: the four numbers of the first line, and the flags.
pub record Shown : Type 0 where
  pub ip_addr : ℕ
  pub port_no : ℕ
  pub server_ip_addr : ℕ
  pub server_port_no : ℕ
  pub flags : List ClientState

unfoldable pub display : TcpClient → Outcome Shown
unfolding line
display c = do
  server_ip ← get c.server_ip_addr
  server_port ← get c.server_port_no
  done (record {
    ip_addr = c.ip_addr;
    port_no = c.port_no;
    server_ip_addr = server_ip;
    server_port_no = server_port;
    flags =
        line c active_opener
        ++ (line c connect_in_progress
            ++ (line c connected
                ++ (line c multiplex_listen ++ (line c passive_opener ++ line c threaded))));
  })

-- The message demarcator is destroyed and deleted.
unfoldable pub drop_msgd : Option Demarcar → Outcome (Unit {0})
drop_msgd none = done tt
drop_msgd (some d) = destructor (destroy d)

-- `Abort` up to `delete this`: the descriptor that it closes, if any.
unfoldable pub abort : TcpClient → Outcome (Option ℕ)
unfolding drop_msgd
abort c = do
  fd ← get c.comm_fd
  msgd ← get c.msgd
  drop_msgd msgd
  done (if fd == 0 then none else some fd)
