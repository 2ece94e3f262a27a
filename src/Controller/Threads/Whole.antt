-- ===== src/Controller/Threads/Whole.antt =====
-- A thread that is not interrupted: its turns together are the handlers of Controller/Accept and
-- Service.
use linux_tcp_server.Base.{
  ℕ, ◌≡◌, ◌∙◌, refl, Bool, Option, none, some, List, Outcome, done, ◌>>=◌, bind_same, bind_once,
  sym,
}
use linux_tcp_server.Demarcar.{deref}
use linux_tcp_server.TcpClient.{holds, get}
use linux_tcp_server.Receive.{Recv, Ending, full, closed, idle, error, running, drain}
use linux_tcp_server.ClientDb.{Host, store_client, load}
use linux_tcp_server.Service.{
  TcpClientServiceManager, Serving, Entry, get_client_by_fd, after_drain, hang_up, remove_client,
  serve_event, serve_found, serve_client, client_fd_start_listen, add_client_to_epoll,
}
use linux_tcp_server.Controller.{multiplex, process_new_client}
use linux_tcp_server.Controller.Accept.{Allocations, Connection, accept_client, new_client}
use linux_tcp_server.Controller.Threads.{
  Shared, leaving, receive_turn, waiting, attending, accept_turn, acceptor_turn, leaving_turn,
  event_turn,
}

-- One more turn of a thread, wherever it stands.
abbrev pub acceptor_next : {W : Type 0} → Shared W → Outcome (Shared W)
acceptor_next s = acceptor_turn s.acceptor s

abbrev leaving_next : {W : Type 0} → Shared W → Outcome (Shared W)
leaving_next s = leaving_turn s.service s

-- A new connection, from `accept` to the next one.
abbrev pub accept_whole :
    {W : Type 0} → Allocations → ℕ → Connection → Shared W → Outcome (Shared W)
accept_whole a p conn s = do
  made ← accept_turn a p conn s
  in_db ← acceptor_next made
  flagged ← acceptor_next in_db
  listed ← acceptor_next flagged
  acceptor_next listed

pub accept_whole-eq :
    {W : Type 0} (a : Allocations) (p : ℕ) (conn : Connection) (s : Shared W)
    → accept_whole a p conn s ≡ (do
      (c, h) ← accept_client a p conn s.controller s.host
      done (record s { controller = c; host = h; acceptor = waiting }))
unfolding accept_turn acceptor_turn accept_client process_new_client multiplex
accept_whole-eq a p conn s = bind_same (get s.controller.client_connected) _ _ _ _ λ notify.
    bind_same (deref s.controller.tcp_client_db_mgr) _ _ _ _ λ db.
      bind_same (multiplex p (store_client p (new_client a conn s.controller) s.host)) _ _ _ _ λ h.
        bind_same (deref s.controller.tcp_client_svc_mgr) _ _ _ _ λ svc.
          sym
            (bind_once (add_client_to_epoll p (client_fd_start_listen p svc) h) _ _ _ (λ h'. refl))

-- A state in which the service's thread waits for an event.
abbrev pub steady : {W : Type 0} → TcpClientServiceManager → Shared W → Shared W
steady m s = record s {
  controller = record s.controller { tcp_client_svc_mgr = some m };
  service = attending;
}

-- What the thread's handler leaves.
abbrev pub after_event : {W : Type 0} → Shared W → Serving W → Shared W
after_event s s' = record (steady s'.manager s) { host = s'.host; log = s'.log; world = s'.world }

module _ {W : Type 0} (recv : ℕ → ℕ → W → Recv × W) where
  -- An event, with all that follows.
  abbrev pub event_whole : ℕ → Bool → ℕ → Shared W → Outcome (Shared W)
  event_whole rounds registered fd s = do
    received ← event_turn recv rounds registered fd s
    shut ← leaving_next received
    forgotten ← leaving_next shut
    leaving_next forgotten

  -- What follows the loop over `recv`.
  conclude-eq :
      (e : Ending) (p comm_fd fd : ℕ) (m : TcpClientServiceManager) (h : Host) (s : Shared W)
      (l : List Entry) (w : W)
      → (do
        shut ←
            leaving_next (record (steady m s) {
              host = h;
              log = l;
              world = w;
              service = leaving e p comm_fd fd;
            })
        forgotten ← leaving_next shut
        leaving_next forgotten)
        ≡ (do
          (m', h') ← after_drain e p comm_fd fd m h
          done (after_event s (record { log = l; manager = m'; host = h'; world = w })))
  unfolding leaving_turn after_drain hang_up remove_client
  conclude-eq full p comm_fd fd m h s l w = refl
  conclude-eq idle p comm_fd fd m h s l w = refl
  conclude-eq running p comm_fd fd m h s l w = refl
  conclude-eq closed p comm_fd fd m h s l w = bind_same (get m.epfd) _ _ _ _ (λ epfd. refl)
  conclude-eq error p comm_fd fd m h s l w = bind_same (get m.epfd) _ _ _ _ (λ epfd. refl)

  found_eq :
      (rounds : ℕ) (registered : Bool) (fd : ℕ) (m : TcpClientServiceManager) (s : Shared W)
      (found : Option ℕ)
      → (do
        received ← receive_turn recv rounds registered fd found (steady m s)
        shut ← leaving_next received
        forgotten ← leaving_next shut
        leaving_next forgotten)
        ≡ (do
          s' ←
              serve_found recv rounds registered fd found
                (record { log = s.log; manager = m; host = s.host; world = s.world })
          done (after_event s s'))
  unfolding leaving_turn serve_found serve_client receive_turn
  found_eq rounds registered fd m s none = refl
  found_eq rounds registered fd m s (some p) = bind_same (load p s.host) _ _ _ _ λ c.
      bind_same (get c.msgd) _ _ _ _ λ msgd. bind_same (deref msgd) _ _ _ _ λ d.
        bind_same (get c.comm_fd) _ _ _ _ λ comm_fd.
          bind_same (drain recv rounds registered comm_fd d s.world) _ _ _ _ λ r.
            conclude-eq r.ending p comm_fd fd m
              (store_client p (record c { msgd = holds (some r.msgd) }) s.host) s _ r.world
            ∙ sym (
                bind_once
                  (after_drain r.ending p comm_fd fd m
                    (store_client p (record c { msgd = holds (some r.msgd) }) s.host))
                  _ _ _ (λ x. refl))

  event_whole-eq :
      (rounds : ℕ) (registered : Bool) (fd : ℕ) (m : TcpClientServiceManager) (s : Shared W)
      → event_whole rounds registered fd (steady m s) ≡ (do
        s' ←
            serve_event recv rounds registered fd
              (record { log = s.log; manager = m; host = s.host; world = s.world })
        done (after_event s s'))
  unfolding event_turn leaving_turn serve_event serve_found serve_client receive_turn
  event_whole-eq rounds registered fd m s =
      bind_same (get_client_by_fd s.host fd m) _ _ _ _ (found_eq rounds registered fd m s)

  -- Moves that are not interrupted are the handlers, errors included: those of the acceptor for a
  -- connection are `accept_client`, and those of the service for an event are `serve_event`.
  uninterrupted_turns :
      (a : Allocations) (p : ℕ) (conn : Connection) (rounds : ℕ) (registered : Bool) (fd : ℕ)
      (m : TcpClientServiceManager) (s : Shared W)
      → (accept_whole a p conn s ≡ (do
        (c, h) ← accept_client a p conn s.controller s.host
        done (record s { controller = c; host = h; acceptor = waiting })))
        × (event_whole rounds registered fd (steady m s) ≡ (do
          s' ←
              serve_event recv rounds registered fd
                (record { log = s.log; manager = m; host = s.host; world = s.world })
          done (after_event s s')))
  uninterrupted_turns a p conn rounds registered fd m s =
      (accept_whole-eq a p conn s, event_whole-eq rounds registered fd m s)
