-- ===== src/Receive.antt =====
-- The inner loop of `StartTcpClientServiceManagerThreadInternal` in TcpClientServiceManager.cpp: what
-- the service thread receives on one connection that `epoll_wait` reported.
pub mod Stream
pub mod Progress
pub mod Arrival
pub mod Segments
use linux_tcp_server.Base.{
  ℕ, zero, suc, Bool, true, false, List, [], ◌∷◌, ◌++◌, length, ltb, ◌==◌, if◌then◌else◌, Outcome,
  done, fault, ◌>>=◌,
}
use linux_tcp_server.Bcb.{u16, available_size}
use linux_tcp_server.Demarcar.{Demarcar, Delivery, deref, process_msg, max_client_buffer_size}

-- What a call of `recv` gives: bytes (none at the end of the stream), an error that means that nothing
-- is there yet, or another error.
pub data Recv : Type 0 where
  bytes : List ℕ → Recv
  would_block : Recv
  failed : Recv

-- How the loop ends: the ring is full, the peer has closed, nothing is there, an error, or the rounds
-- looked at are over.
pub data Ending : Type 0 where
  full closed idle error running : Ending

-- `received` logs the bytes that `recv` gave.
pub record Drained (W : Type 0) : Type 0 where
  pub deliveries : List Delivery
  pub received : List ℕ
  pub msgd : Demarcar
  pub world : W
  pub ending : Ending

abbrev pub ends : {W : Type 0} → Demarcar → W → Ending → Drained W
ends d w e = record { deliveries = []; received = []; msgd = d; world = w; ending = e }

-- One more round in front of the others.
abbrev pub extend : {W : Type 0} → List Delivery → List ℕ → Drained W → Drained W
extend ms bs r = record r { deliveries = ms ++ r.deliveries; received = bs ++ r.received }

-- What is done with a result of `recv`; `loop` is the rest of the loop. The receive buffer has 8192
-- bytes.
unfoldable pub on_recv :
    {W : Type 0}
    → Bool
    → Demarcar
    → (Demarcar → W → Outcome (Drained W))
    → Recv
    → W
    → Outcome (Drained W)
on_recv registered d loop (bytes bs) w =
    let more = (do
      (ms, e) ← process_msg registered d bs (u16 (length bs))
      rest ← loop e w
      done (extend ms bs rest)) in
    if length bs == 0
    then done (ends d w closed)
    else (if ltb max_client_buffer_size (length bs) then fault else more)
on_recv registered d loop would_block w = done (ends d w idle)
on_recv registered d loop failed w = done (ends d w error)

-- `recv` is the system's: it is given the descriptor and the size, and the state of the world.
module _ {W : Type 0} (recv : ℕ → ℕ → W → Recv × W) where
  -- The first rounds of `while (1)`.
  unfoldable pub drain : ℕ → Bool → ℕ → Demarcar → W → Outcome (Drained W)
  unfolding on_recv
  drain zero registered fd d w = done (ends d w running)
  drain (suc rounds) registered fd d w = do
    b ← deref d.bcb
    let space = available_size b
    let (r, w') = recv fd space w
    let next = on_recv registered d (drain rounds registered fd) r w'
    if space == 0 then done (ends d w full) else next
