-- ===== src/Bcb/Dequeue.antt =====
-- `BCBRead` copies the oldest bytes of a valid ring, and takes them out if it is asked to.
use linux_tcp_server.Base.{
  ℕ, ◌+◌, ◌-◌, ◌%◌, ◌≤◌, ◌≡◌, refl, sym, ◌∙◌, ap, Bool, true, false, List, arith, length, get_or,
  take, drop, done, mod_step, ring_turn, tabulate_ext, take-eq-tabulate, take-tabulate,
  drop-tabulate, if◌then◌else◌,
}
use linux_tcp_server.Bcb.{Bcb, copy_out, read_locked}
use linux_tcp_server.Bcb.Valid.{IsValid, contents, byte_at}
use linux_tcp_server.Bcb.Copy.{read_out, copy_out_lem, get_or-read_out, length-read_out}

-- The bytes that a read of `n` leaves in its destination.
abbrev pub got : Bcb → List ℕ → ℕ → List ℕ
got b dst n = read_out dst b.buffer b.rear (b.buffer_size - b.rear) n

-- The ring without its `n` oldest bytes.
abbrev pub removed : Bcb → ℕ → Bcb
removed b n = record b { rear = (b.rear + n) % b.buffer_size; current_size = b.current_size - n }

module _ (b : Bcb) (dst : List ℕ) (n : ℕ) (v : IsValid b) (held : n ≤ b.current_size)
    (given : n ≤ length dst) where
  copy_lem : copy_out (record b { locked = true }) dst n ≡ done (got b dst n)
  copy_lem =
      copy_out_lem dst b.buffer b.buffer_size b.rear (b.buffer_size - b.rear) n v.storage
        (omega (arith, v)) (omega (arith, v)) given (record b { locked = true }) refl refl refl
        v.small v.rear_in

  pub read_locked_lem :
      (rm : Bool)
      → read_locked (record b { locked = true }) dst n rm
        ≡ done (n, got b dst n, (if rm then removed b n else b))
  unfolding read_locked
  read_locked_lem false = ground (arith, v, copy_lem)
  read_locked_lem true = ground (arith, v, copy_lem)

  pub length-got : length (got b dst n) ≡ length dst
  length-got =
      length-read_out dst b.buffer b.buffer_size b.rear (b.buffer_size - b.rear) n v.storage
        (omega (arith, v)) (omega (arith, v)) given

  pub take-got : take n (got b dst n) ≡ take n (contents b)
  take-got =
      take-eq-tabulate n (got b dst n) 0 (omega (arith, length-got))
      ∙ tabulate_ext _ (byte_at b) n (λ i h.
        get_or-read_out dst b.buffer b.buffer_size b.rear (b.buffer_size - b.rear) n v.storage
          (omega (arith, v)) (omega (arith, v)) given i _ h
          (ring_turn b.rear i b.buffer_size v.rear_in (omega (arith, v))))
      ∙ sym (take-tabulate (byte_at b) b.current_size n held)

  pub removed-IsValid : IsValid (removed b n)
  removed-IsValid = record {
    storage = v.storage;
    positive = v.positive;
    small = v.small;
    rear_in = omega (arith, v);
    size_in = omega (arith, v);
    front_at =
        v.front_at
        ∙ sym (
            mod_step (b.rear + n) (b.current_size - n) b.buffer_size
            ∙ ap (λ t. t % b.buffer_size) (omega arith));
    unlocked = v.unlocked;
  }

  pub contents-removed : contents (removed b n) ≡ drop n (contents b)
  contents-removed = sym (
      drop-tabulate (byte_at b) (byte_at (removed b n)) b.current_size n (b.current_size - n)
        (omega arith)
        λ i h.
          ap (λ j. get_or b.buffer j 0)
            (mod_step (b.rear + n) i b.buffer_size ∙ ap (λ t. t % b.buffer_size) (omega arith)))
