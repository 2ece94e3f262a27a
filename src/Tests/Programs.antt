-- ===== src/Tests/Programs.antt =====
-- Instances for the client programs, the addresses and the state flags of a client.
use linux_tcp_server.Base.{
  ℕ, suc, ◌≡◌, ◌≤◌, ◌⊎◌, ◌<◌, inl, refl, true, ◌||◌, ◌&&◌, not, ◌==◌, Option, some, none, List, [],
  ◌∷◌, arith, done, fault, Returns, codes, ◌*◌, ◌+◌, ◌/◌, ◌%◌, ◌↔◌,
}
use linux_tcp_server.Stream.{encode}
use linux_tcp_server.Demarcar.{Demarcar, variable_size, process_msg, deliver, payload}
use linux_tcp_server.Demarcar
use linux_tcp_server.Demarcar.Fresh.{construct-Holds}
use linux_tcp_server.Demarcar.Oversized.{IsStalled}
use linux_tcp_server.Senders.{send_msg, prompt_user}
use linux_tcp_server.Senders.Framing.{send_msg_lem}
use linux_tcp_server.Senders.Structs.{prompt_user_stalls}
use linux_tcp_server.NetworkUtils.{network_convert_ip_n_to_p, network_convert_ip_p_to_n, c_string}
use linux_tcp_server.NetworkUtils.RoundTrip.{IsText, network_convert_round_trip}
use linux_tcp_server.TcpClient
use linux_tcp_server.TcpClient.{
  TcpClient, connected, passive_opener, set_state, un_set_state, is_state_set,
}
use linux_tcp_server.Controller
use linux_tcp_server.Controller.{TcpServerController}
use linux_tcp_server.Controller.Accept.{new_client}
use linux_tcp_server.Controller.Accepted.{all_succeed}
use linux_tcp_server.App.Notices.{print_client, print_server, client_line, server_line, htons}
use linux_tcp_server.App.Endpoints.{client_endpoints, server_endpoints}
use linux_tcp_server.TcpClient.States.{is_state_set_after}

send_msg_lem_example :
    ((2 ≤ 65533) × (send_msg true (72 ∷ 105 ∷ []) 2 ≡ done (encode (72 ∷ 105 ∷ []))))
    ⊎ ((65533 < 2) × (send_msg true (72 ∷ 105 ∷ []) 2 ≡ fault))
send_msg_lem_example = send_msg_lem (72 ∷ 105 ∷ []) (omega arith)

prompt_user_stalls_example :
    Returns
      (process_msg true
        (Demarcar.construct variable_size true true true 256)
        (prompt_user 1 2 3 4)
        20)
      (λ r. (r.0 ≡ []) × IsStalled r.1 256)
prompt_user_stalls_example =
    prompt_user_stalls 1 2 3 4 (Demarcar.construct variable_size true true true 256) 256
      (inl (omega arith)) (construct-Holds variable_size 256 (omega arith) (omega arith))
      (omega arith) (omega arith)

-- A reading and a writing of addresses, in which each byte is a character one larger.
abbrev some_ntop : List ℕ → List ℕ
some_ntop (a ∷ b ∷ c ∷ d ∷ []) = suc a ∷ suc b ∷ suc c ∷ suc d ∷ []
some_ntop _ = []

abbrev some_pton : List ℕ → Option (List ℕ)
some_pton (suc a ∷ suc b ∷ suc c ∷ suc d ∷ []) = some (a ∷ b ∷ c ∷ d ∷ [])
some_pton _ = none

some_ntop-IsText : (bytes : List ℕ) → IsText 15 (some_ntop bytes)
some_ntop-IsText (a ∷ b ∷ c ∷ d ∷ []) =
    (omega arith, (omega arith, (omega arith, (omega arith, tt))))
some_ntop-IsText _ = tt

network_convert_round_trip_example :
    network_convert_ip_p_to_n some_pton (c_string (network_convert_ip_n_to_p some_ntop 2130706433))
    ≡ 2130706433
network_convert_round_trip_example =
    network_convert_round_trip some_ntop some_pton some_ntop-IsText (λ n. refl) 2130706433
      (omega arith)

abbrev fresh_client : TcpClient
fresh_client = record {
  ip_addr = 1;
  port_no = 2;
  server_ip_addr = TcpClient.unset;
  server_port_no = TcpClient.unset;
  state_flags = 8;
  comm_fd = TcpClient.unset;
  tcp_ctrlr = TcpClient.unset;
  msgd = TcpClient.unset;
}

is_state_set_after_example :
    (is_state_set (set_state fresh_client connected) passive_opener
      ≡ (1 == 3 || is_state_set fresh_client passive_opener))
    × (is_state_set (un_set_state fresh_client connected) passive_opener
        ≡ (not (1 == 3) && is_state_set fresh_client passive_opener))
    × ((set_state fresh_client connected).state_flags < 128)
    × ((un_set_state fresh_client connected).state_flags < 128)
is_state_set_after_example = is_state_set_after fresh_client connected passive_opener (omega arith)

abbrev some_server : TcpServerController
some_server = record {
  tcp_new_conn_acc = none;
  tcp_client_db_mgr = none;
  tcp_client_svc_mgr = none;
  state_flags = 1;
  ip_addr = 2130706433;
  port_no = 40000;
  name = codes "a";
  client_connected = TcpClient.holds true;
  client_disconected = TcpClient.holds true;
  client_msg_recvd = TcpClient.holds true;
}

-- A client at 10.0.0.1, port 4242.
abbrev some_client : TcpClient
some_client =
    new_client all_succeed (record { comm_sock_fd = 7; s_addr = 16777226; sin_port = 37392 })
      some_server

client_endpoints_example :
    (print_client some_ntop some_client
      ≡ record { address = some_ntop (10 ∷ 0 ∷ 0 ∷ 1 ∷ []); port = 146 * 256 + 16 })
    × Returns (TcpClient.display some_client) (λ s.
      (client_line some_ntop s).0
      ≡ record { address = some_ntop (1 ∷ 0 ∷ 0 ∷ 10 ∷ []); port = 146 * 256 + 16 })
client_endpoints_example =
    client_endpoints some_ntop some_ntop-IsText 10 0 0 1 16 146 7 all_succeed some_server
      (omega arith) (omega arith)

server_endpoints_example :
    Returns
      (Controller.construct
        (some 4)
        (network_convert_ip_p_to_n some_pton (11 ∷ 1 ∷ 1 ∷ 2 ∷ []))
        40000
        (codes "a"))
      (λ server.
        Returns (Controller.display (record { clients = []; calls = [] }) server) (λ s.
          server_line some_ntop s
          ≡ record { address = some_ntop (10 ∷ 0 ∷ 0 ∷ 1 ∷ []); port = 40000 })
        × (print_server some_ntop server
            ≡ record { address = some_ntop (10 ∷ 0 ∷ 0 ∷ 1 ∷ []); port = htons 40000 })
        × (((print_server some_ntop server).port ≡ 40000) ↔ (40000 / 256 ≡ 40000 % 256)))
server_endpoints_example =
    server_endpoints some_ntop some_ntop-IsText some_pton (11 ∷ 1 ∷ 1 ∷ 2 ∷ []) (codes "a") 10 0 0 1
      40000 4 (record { clients = []; calls = [] }) refl (omega arith) (omega arith)
