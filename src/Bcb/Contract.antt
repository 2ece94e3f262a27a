-- ===== src/Bcb/Contract.antt =====
-- What callers of the ring rely on: it is a bounded first-in first-out queue of bytes.
use linux_tcp_server.Base.{
  ℕ, ◌+◌, ◌≤◌, ◌<◌, ◌≡◌, refl, Bool, true, false, some, List, [], ◌++◌, arith, length, take, drop,
  if◌then◌else◌, done, blocked, ltb-true, ltb-false, replicate, length-replicate, length-tabulate,
}
use linux_tcp_server.Bcb.{
  Bcb, create_new, available_size, write_some, write, read, mutex_lock, is_full, reset,
}
use linux_tcp_server.Bcb.Valid.{IsValid, contents}
use linux_tcp_server.Bcb.Enqueue.{wrote, write_some_lem, wrote-IsValid, contents-wrote}
use linux_tcp_server.Bcb.Dequeue.{
  got, removed, read_locked_lem, length-got, take-got, removed-IsValid, contents-removed,
}

pub length-contents : (b : Bcb) → length (contents b) ≡ b.current_size
length-contents b = length-tabulate _ b.current_size

-- A new ring of a positive `uint16_t` size is valid and empty, and all of it is available.
pub create_new-IsValid :
    (size : ℕ)
    → 0 < size
    → size < 65536
    → (b : Bcb) × (create_new true true size ≡ some b)
      × IsValid b
      × (contents b ≡ [])
      × (available_size b ≡ size)
      × (b.buffer_size ≡ size)
unfolding create_new available_size
create_new-IsValid size pos small = (fresh, refl, fresh-IsValid, refl, omega arith, refl)
  where
    fresh : Bcb
    fresh = record {
      buffer = replicate size 0;
      buffer_size = size;
      front = 0;
      rear = 0;
      current_size = 0;
      locked = false;
    }

    fresh-IsValid : IsValid fresh
    fresh-IsValid = record {
      storage = length-replicate size 0;
      positive = pos;
      small = small;
      rear_in = pos;
      size_in = omega arith;
      front_at = omega arith;
      unlocked = refl;
    }

mutex_lock-free : (b : Bcb) → b.locked ≡ false → mutex_lock b ≡ done (record b { locked = true })
unfolding mutex_lock
mutex_lock-free b h = rw h

-- `BCBAvailableSize` does not wrap: with the bytes held it makes up the capacity.
pub available_size-add-current :
    {b : Bcb} → IsValid b → available_size b + b.current_size ≡ b.buffer_size
unfolding available_size
available_size-add-current v = omega arith

-- `BCBWrite` to a valid ring of bytes that fit and are all in the source stores them behind those
-- held, returns their number, and keeps the ring valid and its capacity.
pub write_fits :
    {b : Bcb} (src : List ℕ) (n : ℕ)
    → IsValid b
    → n ≤ available_size b
    → n ≤ length src
    → (b' : Bcb) × (write (some b) (some src) n ≡ done (n, some b'))
      × IsValid b'
      × (contents b' ≡ contents b ++ take n src)
      × (b'.buffer_size ≡ b.buffer_size)
unfolding write
write_fits {b} src n v room given =
    let fits : b.current_size + n ≤ b.buffer_size = omega (arith, available_size-add-current v) in
    (
      wrote b src n,
      rw (write_some_lem b src n v fits given),
      wrote-IsValid b src n v fits given,
      contents-wrote b src n v fits given,
      refl,
    )

-- `BCBWrite` to a valid ring of more bytes than are available writes nothing, returns 0, and does
-- not take the mutex.
write_too_many :
    {b : Bcb} (src : List ℕ) (n : ℕ)
    → IsValid b
    → available_size b < n
    → write (some b) (some src) n ≡ done (0, some b)
unfolding write write_some
write_too_many {b} src n v h =
    rw (ltb-true b.buffer_size (n + b.current_size) (omega (arith, available_size-add-current v)))

-- `BCBRead` from a valid ring of no more bytes than are held, to a destination with room for them,
-- copies the oldest ones there, returns their number, and leaves a valid ring that holds the
-- others, or all of them if it is not asked to remove.
pub read_held :
    {b : Bcb} (dst : List ℕ) (n : ℕ) (rm : Bool)
    → IsValid b
    → n ≤ length (contents b)
    → n ≤ length dst
    → (out : List ℕ) × (b' : Bcb) × (read (some b) (some dst) n rm ≡ done (n, some out, some b'))
      × (take n out ≡ take n (contents b))
      × (length out ≡ length dst)
      × IsValid b'
      × (contents b' ≡ (if rm then drop n (contents b) else contents b))
      × (b'.buffer_size ≡ b.buffer_size)
unfolding read
read_held {b} dst n rm v h given =
    let held : n ≤ b.current_size = omega (arith, length-contents b) in
    let locks = mutex_lock-free b v.unlocked in
    (
      got b dst n,
      (if rm then removed b n else b),
      rw (locks, read_locked_lem b dst n v held given rm),
      take-got b dst n v held given,
      length-got b dst n v held given,
      after rm (removed-IsValid b dst n v held given),
      shows rm (contents-removed b dst n v held given),
      sized rm,
    )
  where
    after : (r : Bool) → IsValid (removed b n) → IsValid (if r then removed b n else b)
    after true w = w
    after false w = v

    shows :
        (r : Bool)
        → contents (removed b n) ≡ drop n (contents b)
        → contents (if r then removed b n else b) ≡ (if r then drop n (contents b) else contents b)
    shows true e = e
    shows false e = refl

    sized : (r : Bool) → (if r then removed b n else b).buffer_size ≡ b.buffer_size
    sized true = refl
    sized false = refl

pub read_short :
    {b : Bcb} (dst : List ℕ) (n : ℕ) (rm : Bool)
    → IsValid b
    → b.current_size < n
    → read (some b) (some dst) n rm ≡ done (0, some dst, some (record b { locked = true }))
unfolding read
read_short {b} dst n rm v h = rw (mutex_lock-free b v.unlocked, ltb-true b.current_size n h)

-- A write that fits waits for the mutex.
pub write_locked :
    (b : Bcb) (src : List ℕ) (m : ℕ)
    → IsValid b
    → m + b.current_size ≤ b.buffer_size
    → write (some (record b { locked = true })) (some src) m ≡ blocked
unfolding write
write_locked b src m v h = rw (ltb-false b.buffer_size (m + b.current_size) h)

-- `BCBRead` from a valid ring of more bytes than are held returns 0 with the mutex taken, so every
-- later read of that ring, and every later write of bytes that fit, blocks.
pub read_short_locks :
    {b : Bcb} (dst : List ℕ) (n : ℕ) (rm : Bool)
    → IsValid b
    → b.current_size < n
    → (b' : Bcb) × (read (some b) (some dst) n rm ≡ done (0, some dst, some b'))
      × ((out : List ℕ) (m : ℕ) (again : Bool) → read (some b') (some out) m again ≡ blocked)
      × ((src : List ℕ) (m : ℕ) → m ≤ available_size b' → write (some b') (some src) m ≡ blocked)
unfolding read available_size
read_short_locks {b} dst n rm v h = (
  record b { locked = true },
  read_short dst n rm v h,
  (λ out m again. refl),
  (λ src m k. write_locked b src m v (omega (arith, v))),
)

-- `BCBReset` of a valid ring leaves a valid ring that is empty and has the old capacity.
pub reset-IsValid :
    {b : Bcb}
    → IsValid b
    → IsValid (reset b) × (contents (reset b) ≡ []) × (available_size (reset b) ≡ b.buffer_size)
unfolding reset available_size
reset-IsValid v = (
  record {
    storage = v.storage;
    positive = v.positive;
    small = v.small;
    rear_in = v.positive;
    size_in = omega arith;
    front_at = omega (arith, v);
    unlocked = v.unlocked;
  },
  refl,
  omega (arith, v),
)

-- A valid ring that `BCBIsFull` calls full has no room left.
is_full_lem : {b : Bcb} → IsValid b → is_full b ≡ true → available_size b ≡ 0
unfolding is_full available_size
is_full_lem v h = ground arith
