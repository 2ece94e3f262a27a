-- ===== src/App/Notices.antt =====
-- What testapp.cpp prints when the server calls its callbacks, and the address lines of
-- TcpClient::Display and TcpServerController::Display: dotted addresses and port numbers.
use linux_tcp_server.Base.{ℕ, ◌+◌, ◌*◌, ◌/◌, ◌%◌, List}
use linux_tcp_server.NetworkUtils.{htonl, c_string, network_convert_ip_n_to_p}
use linux_tcp_server.TcpClient.{TcpClient, Shown}
use linux_tcp_server.Controller.{TcpServerController, ServerShown}

-- An address as `%s` prints it, and a port as `%d` does.
pub record Endpoint : Type 0 where
  pub address : List ℕ
  pub port : ℕ

-- `htons` on a little-endian host.
abbrev pub htons : ℕ → ℕ
htons n = n % 256 * 256 + n / 256 % 256

-- What the application is told of.
pub data Notice : Type 0 where
  client_connected : Endpoint → Endpoint → Notice
  client_disconnected : Endpoint → Endpoint → Notice
  message : ℕ → List ℕ → Notice

module _ (inet_ntop : List ℕ → List ℕ) where
  unfoldable pub dotted : ℕ → List ℕ
  dotted ip_addr = c_string (network_convert_ip_n_to_p inet_ntop ip_addr)

  unfoldable pub print_client : TcpClient → Endpoint
  unfolding dotted
  print_client c = record { address = dotted (htonl c.ip_addr); port = c.port_no }

  unfoldable pub print_server : TcpServerController → Endpoint
  unfolding dotted
  print_server c = record { address = dotted c.ip_addr; port = htons c.port_no }

  unfoldable appln_client_connected : TcpServerController → TcpClient → Notice
  unfolding print_server print_client
  appln_client_connected s c = client_connected (print_server s) (print_client c)

  unfoldable appln_client_disconnected : TcpServerController → TcpClient → Notice
  unfolding print_server print_client
  appln_client_disconnected s c = client_disconnected (print_server s) (print_client c)

  -- The two ends in the first line of `TcpClient::Display`.
  unfoldable pub client_line : Shown → Endpoint × Endpoint
  unfolding dotted
  client_line s = (
    record { address = dotted s.ip_addr; port = s.port_no },
    record { address = dotted s.server_ip_addr; port = s.server_port_no },
  )

  -- The address in the first line of `TcpServerController::Display`.
  unfoldable pub server_line : ServerShown → Endpoint
  unfolding dotted
  server_line s = record { address = dotted s.ip_addr; port = s.port_no }

-- `%s` prints the message up to its first zero.
unfoldable pub appln_client_msg_recvd : List ℕ → ℕ → Notice
appln_client_msg_recvd msg msg_size = message msg_size (c_string msg)
