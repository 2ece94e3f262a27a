-- ===== src/Controller/Pipeline.antt =====
-- From one end to the other: tcp_client_fix_sizestr_sender.cpp sends, TcpNewConnectionAcceptor.cpp
-- accepts, TcpClientServiceManager.cpp receives, and the application gets the messages.
use linux_tcp_server.Base.{
  subst, some_inj, ℕ, ◌+◌, ◌≤◌, ◌<◌, ◌≡◌, ◌∙◌, ap, sym, zero, suc, Bool, true, some, List, ◌++◌,
  arith, length, replicate, done, Returns, Returns-mono, done_inj, ℕ_discrete,
}
use linux_tcp_server.Stream.{encode_all, All}
use linux_tcp_server.TcpClient.{holds}
use linux_tcp_server.ClientDb.{Host, TcpClientDbManager, mem}
use linux_tcp_server.Receive.Progress.{Socket}
use linux_tcp_server.Service
use linux_tcp_server.Service.{TcpClientServiceManager, Entry, Serving, serve_event}
use linux_tcp_server.Service.Lookup.{HasFd}
use linux_tcp_server.Service.Isolation.{Tends, have_fds}
use linux_tcp_server.Service.Arrival.{Delivered, sent_messages_arrive}
use linux_tcp_server.Controller.{TcpServerController}
use linux_tcp_server.Controller.Accept.{Connection, accept_client}
use linux_tcp_server.Controller.Accepted.{all_succeed, Accepts, accept_client_lem}
use linux_tcp_server.Controller.Joining.{joined, others_listed}
use linux_tcp_server.Controller.Run.{System, Reaches}
use linux_tcp_server.Controller.InOrder.{InOrder}
use linux_tcp_server.Controller.Safety.{started_server, initial, started-InOrder}
use linux_tcp_server.Senders.{msg, fix_sizestr_session}
use linux_tcp_server.Senders.Framing.{framed_rounds_lem}

-- The state of the service thread after the client `p` was taken in.
abbrev pub serving_with :
    {W : Type 0}
    → ℕ
    → TcpClientServiceManager
    → List Entry
    → W
    → TcpServerController × Host
    → Serving W
serving_with p svc log w r = record {
  log = log;
  manager = Service.add_client_to_db p svc;
  host = r.1;
  world = w;
}

texts_fit : (n : ℕ) → All (λ m. 2 + length m ≤ 256) (replicate n msg)
texts_fit zero = tt
texts_fit (suc n) = (omega arith, texts_fit n)

session_bytes :
    (n : ℕ) (sent : List ℕ)
    → fix_sizestr_session true true n ≡ done sent
    → sent ≡ encode_all (replicate n msg)
unfolding fix_sizestr_session
session_bytes n sent e = done_inj (sym e ∙ framed_rounds_lem n)

-- A server in order, whatever led to it.
client_served :
    {W : Type 0} (conn : Connection) (socket : Socket W conn.comm_sock_fd) (n rounds p : ℕ)
    (c : TcpServerController) (h : Host) (svc : TcpClientServiceManager) (db : TcpClientDbManager)
    (has_callback : Bool) (log : List Entry) (w : W)
    → c.tcp_client_svc_mgr ≡ some svc
    → c.tcp_client_db_mgr ≡ some db
    → c.client_connected ≡ holds has_callback
    → Tends 256 svc h
    → ((q : ℕ) → mem q svc.tcp_client_db ≡ true → ¬ HasFd h q conn.comm_sock_fd)
    → fix_sizestr_session true true n ≡ done (socket.pending w)
    → length (socket.pending w) < rounds
    → Returns (accept_client all_succeed p conn c h) (λ r.
      Returns
        (serve_event socket.recv rounds true conn.comm_sock_fd (serving_with p svc log w r))
        (Delivered 256 p (replicate n msg) (socket.pending w) (serving_with p svc log w r)))
client_served conn socket n rounds p c h svc db has_callback log w is_svc is_db is_callback t fresh
      sent enough =
    Returns-mono (Accepts p conn svc db c h) _ (accept_client all_succeed p conn c h)
      (accept_client_lem p conn c h svc db has_callback is_svc is_db is_callback t)
      (λ r a.
        sent_messages_arrive socket rounds 256 p (serving_with p svc log w r) (replicate n msg)
          a.tended (have_fds a.tends) (joined p svc) a.has_conn_fd
          (λ q there has. only_one r a q there has) (omega arith) enough
          (ap (λ l. l ++ socket.pending w) a.empty ∙ session_bytes n (socket.pending w) sent)
          (texts_fit n))
  where
    only_one :
        (r : TcpServerController × Host)
        → Accepts p conn svc db c h r
        → (q : ℕ) → mem q (Service.add_client_to_db p svc).tcp_client_db ≡ true
        → HasFd r.1 q conn.comm_sock_fd
        → q ≡ p
    only_one r a q there (d, is_d, has) = elim (ℕ_discrete p q) [
      | yes same ↦ sym same
      | no differ ↦
          absurd
            (fresh q (others_listed p q svc differ there) (d, sym (a.others q differ) ∙ is_d, has))
    ]

-- After a server was constructed and started once and got its callbacks, over any turns of its two
-- threads and the commands that stop and start the acceptance of connections and connect to another
-- server (a second `Start` of the server, `Stop` and disable-client-listen are not among them),
-- once the acceptor accepts, the server takes in a connection whose descriptor no listed client
-- has, if the allocations for it succeed. If what is pending on the connection is what the client
-- program sends in `n` rounds, then one event for it, in more rounds than bytes are pending,
-- delivers the program's text `n` times.
pub client_program_served :
    {W : Type 0} (conn : Connection) (socket : Socket W conn.comm_sock_fd)
    (accept_fd ip_addr port_no : ℕ) (name : List ℕ) (w : W) (c : TcpServerController) (s : System W)
    (svc : TcpClientServiceManager) (n rounds p : ℕ)
    → started_server accept_fd ip_addr port_no name ≡ done c
    → Reaches socket.recv (initial c w) s
    → s.accepting ≡ true
    → s.controller.tcp_client_svc_mgr ≡ some svc
    → ((q : ℕ) → mem q svc.tcp_client_db ≡ true → ¬ HasFd s.host q conn.comm_sock_fd)
    → fix_sizestr_session true true n ≡ done (socket.pending s.world)
    → length (socket.pending s.world) < rounds
    → Returns (accept_client all_succeed p conn s.controller s.host) (λ r.
      Returns
        (serve_event socket.recv rounds true conn.comm_sock_fd (serving_with p svc s.log s.world r))
        (Delivered 256 p
          (replicate n msg)
          (socket.pending s.world)
          (serving_with p svc s.log s.world r)))
client_program_served conn socket accept_fd ip_addr port_no name w c s svc n rounds p starts reached
      accepting is_svc fresh sent enough =
    let o : InOrder s =
      started-InOrder socket.recv socket.bounded accept_fd ip_addr port_no name w c s starts
        reached in
    client_served conn socket n rounds p s.controller s.host svc o.db o.has_callback s.log s.world
      is_svc o.is_db o.is_callback
      (subst (λ m. Tends 256 m s.host) (some_inj (sym o.is_svc ∙ is_svc))
        (o.tends (o.ready_first accepting)))
      fresh sent enough
