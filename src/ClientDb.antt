-- ===== src/ClientDb.antt =====
-- TcpClientDBManager.cpp and .h: the list of all clients of a server. The clients themselves are on
-- the heap, and the list holds pointers.
pub mod Purge
pub mod Dangling
use linux_tcp_server.Base.{
  ℕ, zero, suc, Bool, true, false, Option, none, some, List, [], ◌∷◌, ◌++◌, length, find, put,
  erase, ◌==◌, ◌||◌, if◌then◌else◌, Outcome, done, fault, exhausted, ◌>>=◌, ◌>>◌,
}
use linux_tcp_server.Demarcar.{deref}
use linux_tcp_server.TcpClient.{TcpClient, Shown, display, abort}

-- The calls of the system that have an effect outside the process.
pub data Call : Type 0 where
  close : ℕ → Call
  epoll_add : ℕ → Call
  epoll_del : ℕ → Call

-- The clients on the heap by address, and the calls made so far.
pub record Host : Type 0 where
  pub clients : List (ℕ × TcpClient)
  pub calls : List Call

abbrev pub call : Call → Host → Host
call k h = record h { calls = h.calls ++ k ∷ [] }

abbrev pub load : ℕ → Host → Outcome TcpClient
load p h = deref (find p h.clients)

abbrev pub store_client : ℕ → TcpClient → Host → Host
store_client p c h = record h { clients = put p c h.clients }

-- `delete` of a pointer that must be live.
abbrev pub delete_client : ℕ → Host → Outcome Host
delete_client p h = do c ← load p h; done (record h { clients = erase p h.clients })

pub record TcpClientDbManager : Type 0 where
  pub tcp_client_db : List ℕ

abbrev pub construct : TcpClientDbManager
construct = record { tcp_client_db = [] }

-- `emplace_back`
unfoldable pub add_client_to_db : ℕ → TcpClientDbManager → TcpClientDbManager
add_client_to_db p m = record m { tcp_client_db = m.tcp_client_db ++ p ∷ [] }

abbrev pub mem : ℕ → List ℕ → Bool
mem p [] = false
mem p (q ∷ l) = (q == p) || mem p l

-- `std::list::remove`: every element that is equal goes.
abbrev pub remove : ℕ → List ℕ → List ℕ
remove p [] = []
remove p (q ∷ l) = let rest = remove p l in if q == p then rest else q ∷ rest

unfoldable pub display_all : Host → List ℕ → Outcome (List Shown)
display_all h [] = done []
display_all h (p ∷ l) = do
  c ← load p h
  shown ← display c
  rest ← display_all h l
  done (shown ∷ rest)

unfoldable pub display_client_db : Host → TcpClientDbManager → Outcome (List Shown)
unfolding display_all
display_client_db h m = display_all h m.tcp_client_db

-- The descriptor that `Abort` closes, if any.
unfoldable abort_fd : Option ℕ → Host → Host
abort_fd none h = h
abort_fd (some fd) h = call (close fd) h

-- `Abort` of the client behind a pointer, `delete this` included.
unfoldable pub abort_client : ℕ → Host → Outcome Host
unfolding abort_fd
abort_client p h = do c ← load p h; fd ← abort c; delete_client p (abort_fd fd h)

-- The iterator stands on the first node of a rest of the list. If the removal frees that node, its
-- next use is undefined.
unfoldable pub still_valid : ℕ → List ℕ → Outcome (Unit {0})
still_valid p [] = done tt
still_valid p (q ∷ it) = if q == p then fault else done tt

-- Whether the platform lets pass what C++ and POSIX leave undefined: a call on an rwlock that nobody
-- initialised, and a read through the end of a list.
pub record Platform : Type 0 where
  pub passes_rwlock : Bool
  pub passes_end : Bool

abbrev pub pass : Bool → Outcome (Unit {0})
pass true = done tt
pass false = fault

-- `*it` for an iterator. The value that a read at the end gives is never used.
unfoldable pub read_at : Platform → List ℕ → Outcome (Unit {0})
read_at u [] = pass u.passes_end
read_at u (p ∷ it) = done tt

-- The loop of `Purge` with the iterator at `it`.
unfoldable pub purge_loop :
    Platform → ℕ → List ℕ → TcpClientDbManager → Host → Outcome (TcpClientDbManager × Host)
unfolding still_valid read_at
purge_loop u zero it m h = exhausted
purge_loop u (suc fuel) [] m h = done (m, h)
purge_loop u (suc fuel) (p ∷ it) m h = do
  read_at u it
  h' ← abort_client p h
  still_valid p it
  purge_loop u fuel (remove p it) (record m { tcp_client_db = remove p m.tcp_client_db }) h'

-- No code initialises the rwlock that is locked and unlocked.
unfoldable pub purge : Platform → TcpClientDbManager → Host → Outcome (TcpClientDbManager × Host)
unfolding purge_loop read_at
purge u m h = do
  pass u.passes_rwlock
  read_at u m.tcp_client_db
  r ← purge_loop u (suc (length m.tcp_client_db)) m.tcp_client_db m h
  pass u.passes_rwlock
  done r

-- The destructor destroys the rwlock.
unfoldable pub destructor : Platform → TcpClientDbManager → Outcome (Unit {0})
destructor u m = pass u.passes_rwlock
