-- ===== src/Acceptor.antt =====
-- TcpNewConnectionAcceptor.cpp and .h: the object with the listening socket, its thread's set-up, and
-- the start and the end of the thread. What is done with a new connection is in Controller/Accept.
use linux_tcp_server.Base.{
  ℕ, Bool, Option, none, some, if◌then◌else◌, Outcome, done, fault, exited, ◌>>=◌,
}
use linux_tcp_server.Demarcar.{deref}
use linux_tcp_server.ClientDb.{Host, call, close}
use linux_tcp_server.Service.{Thread, allocated, started}

pub record TcpNewConnectionAcceptor : Type 0 where
  pub accept_fd : ℕ
  pub accept_new_conn_thread : Option Thread

-- The constructor, given the result of `socket`.
unfoldable pub construct : Option ℕ → Outcome TcpNewConnectionAcceptor
construct none = exited
construct (some fd) = done (record { accept_fd = fd; accept_new_conn_thread = some allocated })

-- `StartTcpConnectionAcceptorThread`, given whether `pthread_create` succeeds.
unfoldable pub start_thread : Bool → TcpNewConnectionAcceptor → Outcome TcpNewConnectionAcceptor
start_thread created a = do
  thread ← deref a.accept_new_conn_thread
  if created then done (record a { accept_new_conn_thread = some started }) else exited

-- `StopTcpNewConnectionAcceptorThread`: only a created thread can be cancelled and joined.
unfoldable pub stop_thread : TcpNewConnectionAcceptor → Outcome TcpNewConnectionAcceptor
stop_thread a = elim a.accept_new_conn_thread [
  | none ↦ done a
  | some allocated ↦ fault
  | some started ↦ done (record a { accept_new_conn_thread = none })
]

-- `Stop` up to `delete this`.
unfoldable pub stop : TcpNewConnectionAcceptor → Host → Outcome (TcpNewConnectionAcceptor × Host)
unfolding stop_thread
stop a h = do a' ← stop_thread a; done (record a' { accept_fd = 0 }, call (close a'.accept_fd) h)

-- What the calls on the listening socket return: `true` for success.
pub record SocketCalls : Type 0 where
  pub reuse_addr : Bool
  pub reuse_port : Bool
  pub bind : Bool
  pub listen : Bool

-- `StartTcpConnectionAcceptorThreadInternal` between `WaitUntilReady` and `while (true)`.
unfoldable pub set_up : SocketCalls → Outcome (Unit {0})
set_up c =
    if c.reuse_addr
    then (if c.reuse_port
        then (if c.bind then (if c.listen then done tt else exited) else exited)
        else exited)
    else exited
