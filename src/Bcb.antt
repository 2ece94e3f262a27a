-- ===== src/Bcb.antt =====
-- ByteCircularBuffer.cpp and .h: the ring of bytes that each client's messages are cut from.
-- A pointer argument is an option, `none` for a null pointer; the array behind it is a list, which
-- `memcpy` must not leave. A function that changes what a pointer shows returns it.
pub mod Copy
pub mod Valid
pub mod Enqueue
pub mod Dequeue
pub mod Contract
pub mod Fifo
pub mod History
pub mod Abstract
mod Tests
use linux_tcp_server.Base.{
  ℕ, ◌+◌, ◌-◌, ◌%◌, ◌^◌, ◌||◌, ◌&&◌, Bool, true, false, Option, none, some, List, length, take,
  drop, replicate, store, ltb, leb, ◌==◌, if◌then◌else◌, Outcome, done, blocked, fault, ◌>>=◌,
}

-- `ByteCircularBuffer_t`; `locked` is the state of its mutex.
pub record Bcb : Type 0 where
  pub buffer : List ℕ
  pub buffer_size : ℕ
  pub front : ℕ
  pub rear : ℕ
  pub current_size : ℕ
  pub locked : Bool

-- What is kept of a number that is stored as a `uint16_t`.
abbrev pub u16 : ℕ → ℕ
u16 n = n % 65536

-- The two flags say whether the two calls of `calloc` succeed.
unfoldable pub create_new : Bool → Bool → ℕ → Option Bcb
create_new false buf size = none
create_new true false size = none
create_new true true size = some (record {
  buffer = replicate size 0;
  buffer_size = size;
  front = 0;
  rear = 0;
  current_size = 0;
  locked = false;
})

-- The difference is an `int` that the `uint16_t` result wraps.
unfoldable pub available_size : Bcb → ℕ
available_size b = u16 (b.buffer_size + 65536 - b.current_size)

-- `pthread_mutex_lock` of a mutex that is not recursive, by the one thread that uses the buffer.
unfoldable pub mutex_lock : Bcb → Outcome Bcb
mutex_lock b = if b.locked then blocked else done (record b { locked = true })

unfoldable mutex_unlock : Bcb → Bcb
mutex_unlock b = record b { locked = false }

-- `memcpy(dst + off, src, n)`: both ranges must lie inside their arrays.
unfoldable pub memcpy : List ℕ → ℕ → List ℕ → ℕ → Outcome (List ℕ)
memcpy dst off src n =
    if leb (off + n) (length dst) && leb n (length src)
    then done (store dst off (take n src))
    else fault

-- `a % m` on `int`, which a zero divisor makes undefined.
unfoldable modulo : ℕ → ℕ → Outcome ℕ
modulo a m = if m == 0 then fault else done (a % m)

-- The copy of `BCBWrite`, in one piece or in two.
unfoldable pub copy_in : Bcb → List ℕ → ℕ → Outcome (List ℕ)
unfolding memcpy
copy_in b src data_size =
    let space_till_end = u16 (b.buffer_size + 65536 - b.front) in
    if leb data_size space_till_end then memcpy b.buffer b.front src data_size else (do
      buf ← memcpy b.buffer b.front src space_till_end
      memcpy buf 0 (drop space_till_end src) (data_size - space_till_end))

-- `BCBWrite` with both pointers set. The room is an `int` in the test, which may be negative.
unfoldable pub write_some : Bcb → List ℕ → ℕ → Outcome (ℕ × Bcb)
unfolding mutex_lock mutex_unlock copy_in modulo
write_some b src data_size =
    if ltb b.buffer_size (data_size + b.current_size) then done (0, b) else (do
      l ← mutex_lock b
      buf ← copy_in l src data_size
      front ← modulo (l.front + data_size) l.buffer_size
      done (
        data_size,
        mutex_unlock (record l {
          buffer = buf;
          front = u16 front;
          current_size = u16 (l.current_size + data_size);
        }),
      ))

-- `BCBWrite`; -1 as a `uint16_t` is 65535.
unfoldable pub write : Option Bcb → Option (List ℕ) → ℕ → Outcome (ℕ × Option Bcb)
unfolding write_some
write none src data_size = done (65535, none)
write (some b) none data_size = done (65535, some b)
write (some b) (some src) data_size = do (n, b') ← write_some b src data_size; done (n, some b')

-- The copy of `BCBRead`, in one piece or in two.
unfoldable pub copy_out : Bcb → List ℕ → ℕ → Outcome (List ℕ)
unfolding memcpy
copy_out b dst data_size =
    let data_till_end = u16 (b.buffer_size + 65536 - b.rear) in
    if leb data_size data_till_end then memcpy dst 0 (drop b.rear b.buffer) data_size else (do
      buf ← memcpy dst 0 (drop b.rear b.buffer) data_till_end
      memcpy buf data_till_end b.buffer (data_size - data_till_end))

-- The bytes that were read leave the ring, if `BCBRead` is asked to remove them.
unfoldable consume : Bcb → ℕ → Bool → Outcome Bcb
unfolding modulo
consume b data_size false = done b
consume b data_size true = do
  rear ← modulo (b.rear + data_size) b.buffer_size
  done (record b { rear = u16 rear; current_size = u16 (b.current_size + 65536 - data_size) })

-- `BCBRead` with the mutex taken and both pointers set. The early return keeps the mutex.
unfoldable pub read_locked : Bcb → List ℕ → ℕ → Bool → Outcome (ℕ × List ℕ × Bcb)
unfolding copy_out consume mutex_unlock
read_locked b dst data_size remove_read_bytes =
    if ltb b.current_size data_size then done (0, dst, b) else (do
      out ← copy_out b dst data_size
      b' ← consume b data_size remove_read_bytes
      done (data_size, out, mutex_unlock b'))

-- `BCBRead`. It locks before it tests the pointers, so a null buffer is a fault, and a null
-- destination leaves the mutex taken.
unfoldable pub read :
    Option Bcb → Option (List ℕ) → ℕ → Bool → Outcome (ℕ × Option (List ℕ) × Option Bcb)
unfolding mutex_lock read_locked
read none dst data_size remove_read_bytes = fault
read (some b) none data_size remove_read_bytes = do l ← mutex_lock b; done (0, none, some l)
read (some b) (some dst) data_size remove_read_bytes = do
  l ← mutex_lock b
  (n, out, b') ← read_locked l dst data_size remove_read_bytes
  done (n, some out, some b')

unfoldable pub is_full : Bcb → Bool
is_full b = b.current_size == b.buffer_size

unfoldable pub reset : Bcb → Bcb
reset b = record b { current_size = 0; front = 0; rear = 0 }
