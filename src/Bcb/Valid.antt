-- ===== src/Bcb/Valid.antt =====
-- The representation invariant of the ring, and the bytes that it holds.
use linux_tcp_server.Base.{ℕ, ◌+◌, ◌%◌, ◌≤◌, ◌<◌, ◌≡◌, false, List, length, get_or, tabulate}
use linux_tcp_server.Bcb.{Bcb}

-- The indices are in range, the write index is `current_size` past the read index, and nobody holds
-- the mutex.
pub record IsValid (b : Bcb) : Type 0 where
  pub storage : length b.buffer ≡ b.buffer_size
  pub positive : 0 < b.buffer_size
  pub small : b.buffer_size < 65536
  pub rear_in : b.rear < b.buffer_size
  pub size_in : b.current_size ≤ b.buffer_size
  pub front_at : b.front ≡ (b.rear + b.current_size) % b.buffer_size
  pub unlocked : b.locked ≡ false

-- The byte that stands `i` places after the oldest one.
abbrev pub byte_at : Bcb → ℕ → ℕ
byte_at b i = get_or b.buffer ((b.rear + i) % b.buffer_size) 0

-- The bytes in the ring, the oldest first.
abbrev pub contents : Bcb → List ℕ
contents b = tabulate (byte_at b) b.current_size
