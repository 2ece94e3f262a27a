-- ===== src/Controller/Requests.antt =====
-- What a controller is asked to do, by the commands of testapp.cpp and by the acceptor's thread.
use linux_tcp_server.Base.{ℕ, Bool, Option, List, [], ◌∷◌, Outcome, done, ◌>>=◌}
use linux_tcp_server.ClientDb.{Host, Platform}
use linux_tcp_server.Controller.{
  TcpServerController, start, start_conection_acception_svc, stop_connection_accepting_svc,
  stop_client_svc_mgr, start_client_svc_mgr, create_active_a_client, set_server_notif_callbacks,
}
use linux_tcp_server.Controller.Accept.{Allocations, Connection, accept_round}

-- What the application can ask of a controller, with the results of the system's calls, and a round of
-- the acceptor's loop.
pub data Request : Type 0 where
  start_request : Bool → Request
  callbacks_request : Bool → Bool → Bool → Request
  stop_accepting : Request
  start_accepting : Option ℕ → Bool → Request
  stop_listening : Platform → Request
  start_listening : Request
  connect_request : ℕ → Bool → ℕ → ℕ → Request
  accept_request : Allocations → ℕ → Option Connection → Request

unfoldable pub perform : Request → TcpServerController → Host → Outcome (TcpServerController × Host)
perform (start_request created) c h = do c' ← start created c; done (c', h)
perform (callbacks_request has_connected has_disconected has_msg_recvd) c h =
    done (set_server_notif_callbacks has_connected has_disconected has_msg_recvd c, h)
perform stop_accepting c h = done (stop_connection_accepting_svc c, h)
perform (start_accepting socket created) c h = do
  c' ← start_conection_acception_svc socket created c
  done (c', h)
perform (stop_listening u) c h = do c' ← stop_client_svc_mgr u c; done (c', h)
perform start_listening c h = done (start_client_svc_mgr c, h)
perform (connect_request p resolved server_ip_addr server_port_no) c h =
    create_active_a_client p resolved server_ip_addr server_port_no c h
perform (accept_request a p conn) c h = accept_round a p conn c h

unfoldable pub perform_all :
    List Request → TcpServerController → Host → Outcome (TcpServerController × Host)
unfolding perform
perform_all [] c h = done (c, h)
perform_all (r ∷ rs) c h = do (c', h') ← perform r c h; perform_all rs c' h'
