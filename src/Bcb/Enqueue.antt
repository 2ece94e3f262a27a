-- ===== src/Bcb/Enqueue.antt =====
-- `BCBWrite` appends to the queue of bytes that a valid ring holds.
use linux_tcp_server.Base.{
  ℕ, ◌+◌, ◌-◌, ◌%◌, ◌≤◌, ◌<◌, ◌≡◌, refl, sym, ◌∙◌, ap, ap₂, ◌⊎◌, inl, inr, true, List, ◌++◌, arith,
  length, get_or, take, drop, store, leb, done, Bool-cases, leb_le, leb_gt, mod_cases, mod_step,
  ring_place, length-drop, length-store, tabulate-add, tabulate_ext, take-eq-tabulate,
}
use linux_tcp_server.Bcb.{Bcb, copy_in, write_some}
use linux_tcp_server.Bcb.Valid.{IsValid, contents, byte_at}
use linux_tcp_server.Bcb.Copy.{memcpy_lem, copied, copied_new, copied_old, length-copied}

-- The copy stays inside the two arrays, and leaves `copied`.
copy_in_lem :
    (b : Bcb) (src : List ℕ) (n : ℕ)
    → length b.buffer ≡ b.buffer_size
    → b.buffer_size < 65536
    → b.front < b.buffer_size
    → n ≤ b.buffer_size
    → n ≤ length src
    → copy_in b src n ≡ done (copied b.buffer b.front (b.buffer_size - b.front) src n)
unfolding copy_in
copy_in_lem b src n storage small front_in fits given =
    rw (room_lem) (elim (Bool-cases (leb n room)) [
      | inl e ↦ rw (e) (memcpy_lem b.buffer b.front src n (omega (arith, leb_le n room e)) given)
      | inr e ↦
          rw
            (e, memcpy_lem b.buffer b.front src room (omega arith) (omega (arith, leb_gt n room e)))
            (memcpy_lem (store b.buffer b.front (take room src)) 0 (drop room src) (n - room)
              (omega (arith, length-store b.buffer b.front (take room src), leb_gt n room e))
              (omega (arith, length-drop room src)))
    ])
  where
    room : ℕ
    room = b.buffer_size - b.front

    room_lem : (b.buffer_size + 65536 - b.front) % 65536 ≡ room
    room_lem = omega arith

-- The record that a write that fits leaves.
abbrev pub wrote : Bcb → List ℕ → ℕ → Bcb
wrote b src n = record b {
  buffer = copied b.buffer b.front (b.buffer_size - b.front) src n;
  front = (b.front + n) % b.buffer_size;
  current_size = b.current_size + n;
}

module _ (b : Bcb) (src : List ℕ) (n : ℕ) (v : IsValid b)
    (fits : b.current_size + n ≤ b.buffer_size) (given : n ≤ length src) where
  front_in : b.front < b.buffer_size
  front_in = rw v.front_at (omega (arith, v))

  pub write_some_lem : write_some b src n ≡ done (n, wrote b src n)
  unfolding write_some
  write_some_lem = ground (arith, front_in, copy_in_lem (record b { locked = true }) src n)

  pub wrote-IsValid : IsValid (wrote b src n)
  wrote-IsValid = record {
    storage =
        length-copied b.buffer b.buffer_size b.front (b.buffer_size - b.front) src n v.storage
          (omega (arith, front_in)) (omega arith) given;
    positive = v.positive;
    small = v.small;
    rear_in = v.rear_in;
    size_in = fits;
    front_at =
        ap (λ t. t % b.buffer_size) (ap (λ t. t + n) v.front_at)
        ∙ mod_step (b.rear + b.current_size) n b.buffer_size
        ∙ ap (λ t. t % b.buffer_size) (omega arith);
    unlocked = v.unlocked;
  }

  new_byte : (i : ℕ) → i < n → get_or src i 0 ≡ byte_at (wrote b src n) (b.current_size + i)
  new_byte i h = sym (
      copied_new b.buffer b.buffer_size b.front (b.buffer_size - b.front) src n v.storage
        (omega (arith, front_in)) (omega arith) given i _ h
        (ring_place b.rear b.current_size i b.front b.buffer_size v.front_at front_in
          (omega arith)))

  -- The bytes held lie outside those written.
  free :
      (i : ℕ)
      → i < b.current_size
      → let j = (b.rear + i) % b.buffer_size in
        ((j < b.front) × (b.front + n ≤ j + b.buffer_size))
        ⊎ ((b.front + n ≤ j) × (j < b.buffer_size))
  free i h =
      let c = mod_cases (b.rear + i) b.buffer_size (omega (arith, v)) in
      let d = mod_cases (b.rear + b.current_size) b.buffer_size (omega (arith, v)) in
      ground (arith, v, c, d)

  old_byte : (i : ℕ) → i < b.current_size → byte_at (wrote b src n) i ≡ byte_at b i
  old_byte i h =
      copied_old b.buffer b.buffer_size b.front (b.buffer_size - b.front) src n v.storage
        (omega (arith, front_in)) (omega arith) given _ (free i h)

  pub contents-wrote : contents (wrote b src n) ≡ contents b ++ take n src
  contents-wrote =
      tabulate-add (byte_at (wrote b src n)) (λ i. get_or src i 0) b.current_size n _ refl new_byte
      ∙ ap₂ ◌++◌ (tabulate_ext _ _ b.current_size old_byte) (sym (take-eq-tabulate n src 0 given))
