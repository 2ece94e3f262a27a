-- ===== src/Bcb/Copy.antt =====
-- The two copies of the ring: what `copy_in` leaves in memory, and what `copy_out` gives.
use linux_tcp_server.Base.{
  ℕ, ◌+◌, ◌-◌, ◌%◌, ◌≤◌, ◌<◌, ◌≡◌, ◌∙◌, ◌⊎◌, inl, inr, List, arith, length, get_or, take, drop,
  store, leb, if◌then◌else◌, done, fault, length-take, length-store, length-drop, get_or-store_in,
  get_or-store_out, get_or-take, get_or-drop, Bool-cases, leb_le, leb_gt, dec_lt,
}
use linux_tcp_server.Bcb.{Bcb, memcpy, copy_out}

pub memcpy_lem :
    (dst : List ℕ) (off : ℕ) (src : List ℕ) (n : ℕ)
    → off + n ≤ length dst
    → n ≤ length src
    → memcpy dst off src n ≡ done (store dst off (take n src))
unfolding memcpy
memcpy_lem dst off src n h k = ground arith

-- What the two copies leave, `room` bytes before the end of the array.
abbrev pub copied : List ℕ → ℕ → ℕ → List ℕ → ℕ → List ℕ
copied buf front room src n =
    if leb n room
    then store buf front (take n src)
    else store (store buf front (take room src)) 0 (take (n - room) (drop room src))

module _ (buf : List ℕ) (size front room : ℕ) (src : List ℕ) (n : ℕ) (storage : length buf ≡ size)
    (front_in : front + room ≡ size) (fits : n ≤ size) (given : n ≤ length src) where
  pub length-copied : length (copied buf front room src n) ≡ size
  length-copied = elim (Bool-cases (leb n room)) [
    | inl e ↦ rw e (length-store buf front (take n src) ∙ storage)
    | inr e ↦ rw e (length-store _ 0 _ ∙ length-store buf front (take room src) ∙ storage)
  ]

  pub copied_new :
      (i j : ℕ)
      → i < n
      → ((j ≡ front + i) × (j < size)) ⊎ (j + size ≡ front + i)
      → get_or (copied buf front room src n) j 0 ≡ get_or src i 0
  copied_new i j h at = elim (Bool-cases (leb n room)) [
    | inl e ↦ rw e (
        get_or-store_in buf front (take n src) i j 0 (omega (arith, leb_le n room e))
          (omega (arith, length-take n src)) (omega (arith, leb_le n room e))
        ∙ get_or-take n src i 0 h)
    | inr e ↦ rw e (elim (dec_lt i room) [
      | yes p ↦
          get_or-store_out (store buf front (take room src)) 0 (take (n - room) (drop room src)) j 0
            (inr (omega (arith, length-take (n - room) (drop room src), leb_gt n room e)))
          ∙ get_or-store_in buf front (take room src) i j 0 (omega arith)
              (omega (arith, length-take room src, leb_gt n room e)) (omega arith)
          ∙ get_or-take room src i 0 p
      | no p ↦
          get_or-store_in (store buf front (take room src)) 0 (take (n - room) (drop room src))
            (i - room) j 0 (omega arith)
            (omega (arith, length-take (n - room) (drop room src), length-drop room src))
            (omega (arith, length-store buf front (take room src)))
          ∙ get_or-take (n - room) (drop room src) (i - room) 0 (omega arith)
          ∙ get_or-drop room src (i - room) i 0 (omega arith)
    ])
  ]

  pub copied_old :
      (j : ℕ)
      → ((j < front) × (front + n ≤ j + size)) ⊎ ((front + n ≤ j) × (j < size))
      → get_or (copied buf front room src n) j 0 ≡ get_or buf j 0
  copied_old j at = elim (Bool-cases (leb n room)) [
    | inl e ↦ rw e (get_or-store_out buf front (take n src) j 0 (omega (arith, length-take n src)))
    | inr e ↦ rw e (
        get_or-store_out (store buf front (take room src)) 0 (take (n - room) (drop room src)) j 0
          (inr (omega (arith, length-take (n - room) (drop room src), leb_gt n room e)))
        ∙ get_or-store_out buf front (take room src) j 0
            (omega (arith, length-take room src, leb_gt n room e)))
  ]

-- What a read of `n` bytes leaves in its destination.
abbrev pub read_out : List ℕ → List ℕ → ℕ → ℕ → ℕ → List ℕ
read_out dst buf rear room n =
    if leb n room
    then store dst 0 (take n (drop rear buf))
    else store (store dst 0 (take room (drop rear buf))) room (take (n - room) buf)

module _ (dst buf : List ℕ) (size rear room n : ℕ) (storage : length buf ≡ size)
    (rear_in : rear + room ≡ size) (fits : n ≤ size) (given : n ≤ length dst) where
  pub length-read_out : length (read_out dst buf rear room n) ≡ length dst
  length-read_out = elim (Bool-cases (leb n room)) [
    | inl e ↦ rw e (length-store dst 0 (take n (drop rear buf)))
    | inr e ↦ rw e (length-store _ room _ ∙ length-store dst 0 (take room (drop rear buf)))
  ]

  pub copy_out_lem :
      (b : Bcb)
      → b.buffer ≡ buf
      → b.buffer_size ≡ size
      → b.rear ≡ rear
      → size < 65536
      → rear < size
      → copy_out b dst n ≡ done (read_out dst buf rear room n)
  unfolding copy_out
  copy_out_lem b eb es er small inside =
      rw (eb, es, er, room_lem)
        (elim (Bool-cases (leb n room)) [
          | inl e ↦ rw e (
              memcpy_lem dst 0 (drop rear buf) n (omega arith)
                (omega (arith, length-drop rear buf, leb_le n room e)))
          | inr e ↦
              rw
                (
                  e,
                  memcpy_lem dst 0 (drop rear buf) room (omega (arith, leb_gt n room e))
                      (omega (arith, length-drop rear buf)),
                )
                (memcpy_lem (store dst 0 (take room (drop rear buf))) room buf (n - room)
                  (omega (arith, length-store dst 0 (take room (drop rear buf)), leb_gt n room e))
                  (omega arith))
        ])
    where
      room_lem : (size + 65536 - rear) % 65536 ≡ room
      room_lem = omega arith

  pub get_or-read_out :
      (i j : ℕ)
      → i < n
      → ((j ≡ rear + i) × (j < size)) ⊎ (j + size ≡ rear + i)
      → get_or (read_out dst buf rear room n) i 0 ≡ get_or buf j 0
  get_or-read_out i j h at = elim (Bool-cases (leb n room)) [
    | inl e ↦ rw e (
        get_or-store_in dst 0 (take n (drop rear buf)) i i 0 (omega arith)
          (omega (arith, length-take n (drop rear buf), length-drop rear buf, leb_le n room e))
          (omega arith)
        ∙ get_or-take n (drop rear buf) i 0 h
        ∙ get_or-drop rear buf i j 0 (omega (arith, leb_le n room e)))
    | inr e ↦ rw e (elim (dec_lt i room) [
      | yes p ↦
          get_or-store_out (store dst 0 (take room (drop rear buf))) room (take (n - room) buf) i 0
            (inl p)
          ∙ get_or-store_in dst 0 (take room (drop rear buf)) i i 0 (omega arith)
              (omega (arith, length-take room (drop rear buf), length-drop rear buf)) (omega arith)
          ∙ get_or-take room (drop rear buf) i 0 p
          ∙ get_or-drop rear buf i j 0 (omega arith)
      | no p ↦
          get_or-store_in (store dst 0 (take room (drop rear buf))) room (take (n - room) buf) j i 0
            (omega arith) (omega (arith, length-take (n - room) buf, leb_gt n room e))
            (omega (arith, length-store dst 0 (take room (drop rear buf))))
          ∙ get_or-take (n - room) buf j 0 (omega arith)
    ])
  ]

-- A copy that leaves its destination is a fault.
pub memcpy_fault :
    (dst : List ℕ) (off : ℕ) (src : List ℕ) (n : ℕ)
    → length dst < off + n
    → memcpy dst off src n ≡ fault
unfolding memcpy
memcpy_fault dst off src n h = ground arith
