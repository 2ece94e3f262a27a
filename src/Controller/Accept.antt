-- ===== src/Controller/Accept.antt =====
-- The body of the accept loop in `StartTcpConnectionAcceptorThreadInternal` of
-- TcpNewConnectionAcceptor.cpp.
use linux_tcp_server.Base.{ℕ, Bool, true, Option, none, some, Outcome, done, ◌>>=◌}
use linux_tcp_server.Demarcar
use linux_tcp_server.Demarcar.{variable_size, default_cbc_size}
use linux_tcp_server.TcpClient
use linux_tcp_server.TcpClient.{TcpClient, holds, get, set_state, passive_opener, connected}
use linux_tcp_server.ClientDb.{Host, store_client}
use linux_tcp_server.Controller.{TcpServerController, process_new_client}

-- What `accept` gives for a new connection.
pub record Connection : Type 0 where
  pub comm_sock_fd : ℕ
  pub s_addr : ℕ
  pub sin_port : ℕ

-- Whether the three calls of `calloc` for the demarcator succeed.
pub record Allocations : Type 0 where
  pub hdr : Bool
  pub ring : Bool
  pub buffer : Bool

-- The client as it is handed to the controller.
unfoldable pub new_client : Allocations → Connection → TcpServerController → TcpClient
new_client a conn c =
    record (set_state (set_state (TcpClient.construct conn.s_addr conn.sin_port) passive_opener)
      connected) {
        server_ip_addr = holds c.ip_addr;
        server_port_no = holds c.port_no;
        tcp_ctrlr = holds true;
        comm_fd = holds conn.comm_sock_fd;
        msgd =
            holds (some (Demarcar.construct variable_size a.hdr a.ring a.buffer default_cbc_size));
      }

-- The pointer to the callback is read, and the callback of the application only prints. `p` is the
-- address that `new` gives.
unfoldable pub accept_client :
    Allocations → ℕ → Connection → TcpServerController → Host → Outcome (TcpServerController × Host)
unfolding new_client
accept_client a p conn c h = do
  notify ← get c.client_connected
  process_new_client p c (store_client p (new_client a conn c) h)

-- A round of the loop: `accept` may fail.
unfoldable pub accept_round :
    Allocations
    → ℕ
    → Option Connection
    → TcpServerController
    → Host
    → Outcome (TcpServerController × Host)
unfolding accept_client
accept_round a p none c h = done (c, h)
accept_round a p (some conn) c h = accept_client a p conn c h
