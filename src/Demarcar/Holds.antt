-- ===== src/Demarcar/Holds.antt =====
-- A demarcator in order: a valid ring of a known capacity, and a message buffer that a whole ring and
-- the terminating zero fit into.
use linux_tcp_server.Base.{ℕ, ◌≤◌, ◌<◌, ◌≡◌, refl, ap, some, List, length, arith}
use linux_tcp_server.Bcb.{Bcb}
use linux_tcp_server.Bcb.Valid.{IsValid, contents}
use linux_tcp_server.Bcb.Contract.{length-contents}
use linux_tcp_server.Demarcar.{Demarcar, Kind}

-- The demarcator is of kind `k` and holds the bytes `c` in a ring of `size` bytes.
pub record Holds (d : Demarcar) (k : Kind) (c : List ℕ) (size : ℕ) : Type 0 where
  pub ring : Bcb
  pub array : List ℕ
  pub of_kind : d.kind ≡ k
  pub is_ring : d.bcb ≡ some ring
  pub is_array : d.buffer ≡ some array
  pub valid : IsValid ring
  pub bytes : contents ring ≡ c
  pub capacity : ring.buffer_size ≡ size
  pub roomy : size < length array

-- Another ring of the same capacity in its place.
pub with_ring :
    {d : Demarcar} {k : Kind} {c : List ℕ} {size : ℕ}
    → Holds d k c size
    → (b : Bcb) {c' : List ℕ} → IsValid b
    → contents b ≡ c'
    → b.buffer_size ≡ size
    → Holds (record d { bcb = some b }) k c' size
with_ring h b v e f = record {
  ring = b;
  array = h.array;
  of_kind = h.of_kind;
  is_ring = refl;
  is_array = h.is_array;
  valid = v;
  bytes = e;
  capacity = f;
  roomy = h.roomy;
}

-- What a ring holds is no longer than the ring.
pub Holds-length-le :
    {d : Demarcar} {k : Kind} {c : List ℕ} {size : ℕ} → Holds d k c size → length c ≤ size
Holds-length-le h = omega (arith, ap length h.bytes, length-contents h.ring, h.valid, h.capacity)

pub Holds-length :
    {d : Demarcar} {k : Kind} {c : List ℕ} {size : ℕ}
    → (h : Holds d k c size) → h.ring.current_size ≡ length c
Holds-length h = omega (arith, ap length h.bytes, length-contents h.ring)
