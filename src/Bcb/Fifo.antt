-- ===== src/Bcb/Fifo.antt =====
-- What a byte circular buffer promises: a bounded first-in first-out queue with a lock, which a read of
-- too many bytes takes for good.
use linux_tcp_server.Base.{
  ℕ, ◌+◌, ◌-◌, Bool, true, List, [], ◌∷◌, ◌++◌, length, take, drop, ltb, ◌==◌, if◌then◌else◌,
}

-- The calls of a client, in the order that it makes them: `BCBWrite` of a whole array, `BCBRead` into
-- an array of the size asked for, `BCBAvailableSize`, `BCBIsFull` and `BCBReset`.
pub data Call : Type 0 where
  write_call : List ℕ → Call
  read_call : ℕ → Bool → Call
  available_call : Call
  full_call : Call
  reset_call : Call

-- What the client sees of a call: the number returned with the bytes read, a truth value, or nothing.
-- A call that waits for the lock, or is undefined, ends the client's run.
pub data Reply : Type 0 where
  number : ℕ → List ℕ → Reply
  truth : Bool → Reply
  nothing : Reply
  waits : Reply
  undefined : Reply

pub record Fifo : Type 0 where
  pub capacity : ℕ
  pub bytes : List ℕ
  pub taken : Bool

-- The replies to a sequence of calls.
unfoldable pub run : List Call → Fifo → List Reply
run [] q = []
run (write_call src ∷ calls) q =
    let refused = number 0 [] ∷ run calls q in
    let stored = number (length src) [] ∷ run calls (record q { bytes = q.bytes ++ src }) in
    if ltb q.capacity (length src + length q.bytes)
    then refused
    else (if q.taken then waits ∷ [] else stored)
run (read_call n remove ∷ calls) q =
    let short = number 0 [] ∷ run calls (record q { taken = true }) in
    let given =
      number n (take n q.bytes)
      ∷ run calls (record q { bytes = if remove then drop n q.bytes else q.bytes }) in
    if q.taken then waits ∷ [] else (if ltb (length q.bytes) n then short else given)
run (available_call ∷ calls) q = number (q.capacity - length q.bytes) [] ∷ run calls q
run (full_call ∷ calls) q = truth (length q.bytes == q.capacity) ∷ run calls q
run (reset_call ∷ calls) q = nothing ∷ run calls (record q { bytes = [] })
