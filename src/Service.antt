-- ===== src/Service.antt =====
-- TcpClientServiceManager.cpp and .h: the list of the clients that the service thread listens to, and
-- what the thread does when `epoll_wait` reports descriptors. The calls of pthread and epoll are
-- those of the system.
pub mod Lookup
pub mod Serve
pub mod Isolation
pub mod Logs
pub mod Streams
pub mod Stopping
pub mod Starting
pub mod Dangling
pub mod Single
pub mod Arrival
pub mod Closing
pub mod Interest
pub mod Watched
use linux_tcp_server.Base.{
  ℕ, zero, suc, Bool, true, false, Option, none, some, List, [], ◌∷◌, ◌++◌, length, ltb, ◌==◌,
  if◌then◌else◌, Outcome, done, blocked, fault, exhausted, ◌>>=◌, ◌>>◌,
}
use linux_tcp_server.Demarcar.{Delivery, deref}
use linux_tcp_server.TcpClient.{TcpClient, Slot, unset, holds, get}
use linux_tcp_server.Receive.{Recv, Ending, full, closed, idle, error, running, drain}
use linux_tcp_server.ClientDb.{
  Host, call, close, epoll_add, epoll_del, load, store_client, delete_client, remove, still_valid,
  Platform, read_at,
}

-- A `pthread_t` that was allocated, and one that was created.
pub data Thread : Type 0 where
  allocated started : Thread

-- `is_ready` is guarded by `ready_mutex`. The sets of descriptors are lists.
pub record TcpClientServiceManager : Type 0 where
  pub max_fd : ℕ
  pub epfd : Slot ℕ
  pub active_fd_set : List ℕ
  pub backup_fd_set : List ℕ
  pub client_svc_mgr_thread : Option Thread
  pub tcp_client_db : List ℕ
  pub is_ready : Bool

abbrev pub construct : TcpClientServiceManager
construct = record {
  max_fd = 0;
  epfd = unset;
  active_fd_set = [];
  backup_fd_set = [];
  client_svc_mgr_thread = some allocated;
  tcp_client_db = [];
  is_ready = false;
}

-- The loop of `GetMaxFd`.
unfoldable pub max_fd_from : Host → ℕ → List ℕ → Outcome ℕ
max_fd_from h max_fd [] = done max_fd
max_fd_from h max_fd (p ∷ l) = do
  c ← load p h
  fd ← get c.comm_fd
  max_fd_from h (if ltb max_fd fd then fd else max_fd) l

unfoldable pub get_max_fd : Host → TcpClientServiceManager → Outcome ℕ
unfolding max_fd_from
get_max_fd h m = max_fd_from h 0 m.tcp_client_db

-- `FD_SET` is undefined from `FD_SETSIZE` on.
unfoldable pub fd_set : ℕ → List ℕ → Outcome (List ℕ)
fd_set fd s = if ltb fd 1024 then done (fd ∷ s) else fault

unfoldable pub copy_fds : Host → List ℕ → List ℕ → Outcome (List ℕ)
unfolding fd_set
copy_fds h s [] = done s
copy_fds h s (p ∷ l) = do c ← load p h; fd ← get c.comm_fd; s' ← fd_set fd s; copy_fds h s' l

unfoldable pub copy_client_fd_to_fd_set : Host → TcpClientServiceManager → List ℕ → Outcome (List ℕ)
unfolding copy_fds
copy_client_fd_to_fd_set h m s = copy_fds h s m.tcp_client_db

unfoldable pub add_client_to_db : ℕ → TcpClientServiceManager → TcpClientServiceManager
add_client_to_db p m = record m { tcp_client_db = m.tcp_client_db ++ p ∷ [] }

abbrev pub client_fd_start_listen : ℕ → TcpClientServiceManager → TcpClientServiceManager
client_fd_start_listen p m = add_client_to_db p m

-- The first client of a list with the descriptor.
unfoldable pub find_fd : Host → ℕ → List ℕ → Outcome (Option ℕ)
find_fd h fd [] = done none
find_fd h fd (p ∷ l) = do
  c ← load p h
  comm_fd ← get c.comm_fd
  let next = find_fd h fd l
  if comm_fd == fd then done (some p) else next

unfoldable pub get_client_by_fd : Host → ℕ → TcpClientServiceManager → Outcome (Option ℕ)
unfolding find_fd
get_client_by_fd h fd m = find_fd h fd m.tcp_client_db

unfoldable pub add_client_to_epoll : ℕ → TcpClientServiceManager → Host → Outcome Host
add_client_to_epoll p m h = do
  c ← load p h
  fd ← get c.comm_fd
  epfd ← get m.epfd
  done (call (epoll_add fd) h)

-- The condition under which `WaitUntilReady` returns.
unfoldable pub wait_until_ready : TcpClientServiceManager → Outcome (Unit {0})
wait_until_ready m = if m.is_ready then done tt else blocked

unfoldable pub remove_client :
    ℕ → TcpClientServiceManager → Host → Outcome (TcpClientServiceManager × Host)
remove_client p m h = do
  h' ← delete_client p h
  done (record m { tcp_client_db = remove p m.tcp_client_db }, h')

-- A thread is created in the memory of the `pthread_t`, and only a created one can be cancelled.
unfoldable pub start_thread : TcpClientServiceManager → Outcome TcpClientServiceManager
start_thread m = do
  thread ← deref m.client_svc_mgr_thread
  done (record m { client_svc_mgr_thread = some started })

unfoldable join : Thread → Outcome (Unit {0})
join allocated = fault
join started = done tt

unfoldable pub stop_thread : TcpClientServiceManager → Outcome TcpClientServiceManager
unfolding join
stop_thread m = do
  thread ← deref m.client_svc_mgr_thread
  join thread
  done (record m { client_svc_mgr_thread = none })

-- The loop of `Stop` with the iterator at `it`.
unfoldable pub stop_loop :
    Platform → ℕ → List ℕ → TcpClientServiceManager → Outcome TcpClientServiceManager
stop_loop u zero it m = exhausted
stop_loop u (suc fuel) [] m = done m
stop_loop u (suc fuel) (p ∷ it) m = do
  read_at u it
  still_valid p it
  stop_loop u fuel (remove p it) (record m { tcp_client_db = remove p m.tcp_client_db })

-- `Stop` up to `delete this`.
unfoldable pub stop : Platform → TcpClientServiceManager → Outcome TcpClientServiceManager
unfolding stop_thread stop_loop
stop u m = do
  m' ← stop_thread m
  read_at u m'.tcp_client_db
  stop_loop u (suc (length m'.tcp_client_db)) m'.tcp_client_db m'

-- The loop that gives the clients to epoll.
unfoldable pub watch_all : List ℕ → Host → Outcome Host
watch_all [] h = done h
watch_all (p ∷ l) h = do c ← load p h; fd ← get c.comm_fd; watch_all l (call (epoll_add fd) h)

-- `StartTcpClientServiceManagerThreadInternal` up to `while (true)`; `epfd` is what `epoll_create1`
-- gave.
unfoldable pub start_internal :
    ℕ → TcpClientServiceManager → Host → Outcome (TcpClientServiceManager × Host)
unfolding watch_all get_max_fd
start_internal epfd m h = do
  let ready = record m { epfd = holds epfd; is_ready = true }
  max_fd ← get_max_fd h ready
  h' ← watch_all m.tcp_client_db h
  done (record ready { max_fd = max_fd }, h')

-- What one event brought for a client: the bytes received, and the messages delivered.
pub record Entry : Type 0 where
  pub client : ℕ
  pub received : List ℕ
  pub deliveries : List Delivery

-- The state of the thread: a log of the events that found a client, the manager, the heap, and the
-- world that `recv` reads.
pub record Serving (W : Type 0) : Type 0 where
  pub log : List Entry
  pub manager : TcpClientServiceManager
  pub host : Host
  pub world : W

-- The client's descriptor is closed, epoll forgets it, and the client is removed and deleted.
unfoldable pub hang_up :
    ℕ → ℕ → ℕ → TcpClientServiceManager → Host → Outcome (TcpClientServiceManager × Host)
unfolding remove_client
hang_up p comm_fd fd m h = do
  epfd ← get m.epfd
  remove_client p m (call (epoll_del fd) (call (close comm_fd) h))

-- What follows the loop over `recv`, by the way it ended.
unfoldable pub after_drain :
    Ending → ℕ → ℕ → ℕ → TcpClientServiceManager → Host → Outcome (TcpClientServiceManager × Host)
unfolding hang_up
after_drain full p comm_fd fd m h = done (m, h)
after_drain idle p comm_fd fd m h = done (m, h)
after_drain running p comm_fd fd m h = done (m, h)
after_drain closed p comm_fd fd m h = hang_up p comm_fd fd m h
after_drain error p comm_fd fd m h = hang_up p fd fd m h

module _ {W : Type 0} (recv : ℕ → ℕ → W → Recv × W) where
  -- The part of the body of the event loop for a client that was found. `registered` tells whether its
  -- controller has a callback for messages, and `rounds` bounds the loop over `recv`.
  unfoldable pub serve_client : ℕ → Bool → ℕ → ℕ → Serving W → Outcome (Serving W)
  unfolding after_drain
  serve_client rounds registered fd p s = do
    c ← load p s.host
    msgd ← get c.msgd
    d ← deref msgd
    comm_fd ← get c.comm_fd
    r ← drain recv rounds registered comm_fd d s.world
    let kept = store_client p (record c { msgd = holds (some r.msgd) }) s.host
    (m, h) ← after_drain r.ending p comm_fd fd s.manager kept
    done (record {
      log = s.log ++ record { client = p; received = r.received; deliveries = r.deliveries } ∷ [];
      manager = m;
      host = h;
      world = r.world;
    })

  unfoldable pub serve_found : ℕ → Bool → ℕ → Option ℕ → Serving W → Outcome (Serving W)
  unfolding serve_client
  serve_found rounds registered fd none s = done s
  serve_found rounds registered fd (some p) s = serve_client rounds registered fd p s

  -- One event.
  unfoldable pub serve_event : ℕ → Bool → ℕ → Serving W → Outcome (Serving W)
  unfolding serve_found
  serve_event rounds registered fd s = do
    found ← get_client_by_fd s.host fd s.manager
    serve_found rounds registered fd found s

  -- The events of one or more returns of `epoll_wait`.
  unfoldable pub serve_events : ℕ → Bool → List ℕ → Serving W → Outcome (Serving W)
  unfolding serve_event
  serve_events rounds registered [] s = done s
  serve_events rounds registered (fd ∷ fds) s = do
    s' ← serve_event rounds registered fd s
    serve_events rounds registered fds s'
