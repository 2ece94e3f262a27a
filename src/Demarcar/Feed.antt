-- ===== src/Demarcar/Feed.antt =====
-- `ProcessMsg`: what is stored of the bytes received, and what is delivered.
use linux_tcp_server.Base.{
  ℕ, zero, suc, ◌+◌, ◌-◌, ◌%◌, ◌≤◌, ◌<◌, ◌≡◌, refl, sym, ◌∙◌, ap, subst, min, Bool, true, List, [],
  ◌++◌, arith, length, take, drop, ltb, leb, if◌then◌else◌, Returns, Returns-bind, Returns-mono,
  length-append, length-take, length-drop, take-append-take, append_assoc, append-nil, eq_false,
  leb-true, leb-false, ℕ_discrete,
}
use linux_tcp_server.Bcb.{available_size}
use linux_tcp_server.Bcb.Contract.{write_fits, available_size-add-current, length-contents}
use linux_tcp_server.Demarcar.{
  Demarcar, Kind, variable_size, write_all, process_msg, process_by, process_client_msg, rounds,
}
use linux_tcp_server.Demarcar.Holds.{Holds, with_ring}
use linux_tcp_server.Demarcar.Frames.{Delivers, process_frames_lem}

-- As many bytes were stored as there was room for, and the flag tells whether that was all of them.
abbrev pub Stored : Kind → List ℕ → ℕ → List ℕ → ℕ → Bool × Demarcar → Type 0
Stored k c size src n r =
    (r.0 ≡ leb n (size - length c)) × Holds r.1 k (c ++ take (min n (size - length c)) src) size

-- A first piece as long as the room allows, then the others.
Stored-step :
    (k : Kind) (c : List ℕ) (size : ℕ) (src : List ℕ) (n w : ℕ) (r : Bool × Demarcar)
    → w ≡ min n (size - length c)
    → n ≤ length src
    → Stored k (c ++ take w src) size (drop w src) (n - w) r
    → Stored k c size src n r
Stored-step k c size src n w r e g s = (
  s.0 ∙ same,
  subst (λ x. Holds r.1 k x size)
      (append_assoc c (take w src) _
        ∙ ap (λ x. c ++ x) (take-append-take w _ _ src (omega (arith, len))))
      s.1,
)
  where
    len : length (c ++ take w src) ≡ length c + w
    len = omega (arith, length-append c (take w src), length-take w src)

    same : leb (n - w) (size - length (c ++ take w src)) ≡ leb n (size - length c)
    same = ground (arith, len, e)

pub if-eq-min : (a b : ℕ) → (if ltb a b then a else b) ≡ min a b
if-eq-min a b = ground arith

nothing : (c src : List ℕ) (m : ℕ) → m ≡ 0 → c ≡ c ++ take m src
nothing c src m e = rw e (sym (append-nil c))

pub write_all_lem :
    (fuel : ℕ) (d : Demarcar) (k : Kind) (c : List ℕ) (size : ℕ) (src : List ℕ) (n : ℕ)
    → Holds d k c size
    → n < fuel
    → n ≤ length src
    → n < 65536
    → Returns (write_all fuel d src n) (Stored k c size src n)
unfolding write_all
write_all_lem zero d k c size src n h f g w = absurd (omega arith)
write_all_lem (suc fuel) d k c size src n h f g w = elim (ℕ_discrete n 0) [
  | yes e ↦ rw e (
    sym (leb-true 0 (size - length c) (omega arith)),
    subst (λ x. Holds d k x size) (nothing c src (min 0 (size - length c)) (omega arith)) h,
  )
  | no ne ↦ elim (ℕ_discrete (size - length c) 0) [
    | yes full ↦
        rw (eq_false n 0 ne, h.is_ring, avail, full)
          (
            sym (leb-false n (size - length c) (omega arith)),
            with_ring h h.ring h.valid
                (h.bytes ∙ nothing c src (min n (size - length c)) (omega arith)) h.capacity,
          )
    | no room ↦
        let (b, run, v, bytes, size_b) =
          write_fits src (min n (size - length c)) h.valid (omega (arith, avail)) (omega arith) in
        let rest : (n + 65536 - min n (size - length c)) % 65536 ≡ n - min n (size - length c) =
          omega arith in
        rw
          (
            eq_false n 0 ne,
            h.is_ring,
            avail,
            eq_false (size - length c) 0 room,
            if-eq-min n (size - length c),
            run,
            rest,
          )
          (Returns-mono
            (Stored k (c ++ take (min n (size - length c)) src) size
              (drop (min n (size - length c)) src) (n - min n (size - length c)))
            (Stored k c size src n) _
            (write_all_lem fuel _ k _ size _ _
              (with_ring h b v (bytes ∙ ap (λ x. x ++ take (min n (size - length c)) src) h.bytes)
                (size_b ∙ h.capacity))
              (omega arith) (omega (arith, length-drop (min n (size - length c)) src))
              (omega arith))
            (λ r s. Stored-step k c size src n (min n (size - length c)) r refl g s))
  ]
]
  where
    avail : available_size h.ring ≡ size - length c
    avail = omega (
      arith,
      available_size-add-current h.valid,
      ap length h.bytes,
      length-contents h.ring,
      h.capacity,
    )

-- The loop of the variable-size class has fuel enough for what the ring holds.
process_client_msg_lem :
    (d : Demarcar) (c : List ℕ) (size : ℕ)
    → Holds d variable_size c size
    → Returns (process_client_msg true d) (Delivers variable_size c size)
unfolding process_client_msg
process_client_msg_lem d c size h =
    subst (λ k. Returns (process_by k true d) (Delivers variable_size c size)) (sym h.of_kind)
      (process_frames_lem (rounds d) d variable_size c size h
        (rw h.is_ring (omega (arith, ap length h.bytes, length-contents h.ring))))

-- With the callback set and a demarcator for variable sizes in order, `ProcessMsg` of fewer than
-- 2^16 bytes that fit into the ring and are all in the source returns. It delivers, in order, the
-- payloads of all frames that the bytes held and the bytes received complete, and keeps the partial
-- frame after them. No message delivered is larger, with its header, than the ring.
pub process_msg_frames :
    (d : Demarcar) (c : List ℕ) (size : ℕ) (src : List ℕ) (n : ℕ)
    → Holds d variable_size c size
    → n ≤ size - length c
    → n ≤ length src
    → n < 65536
    → Returns (process_msg true d src n) (Delivers variable_size (c ++ take n src) size)
unfolding process_msg
process_msg_frames d c size src n h fits g w =
    Returns-bind (Stored variable_size c size src n) (Delivers variable_size (c ++ take n src) size)
      (write_all (suc n) d src n) _
      (write_all_lem (suc n) d variable_size c size src n h (omega arith) g w)
      λ r s.
        rw (s.0, leb-true n (size - length c) fits)
          (process_client_msg_lem r.1 (c ++ take n src) size
            (subst (λ m. Holds r.1 variable_size (c ++ take m src) size) (omega arith) s.1))

-- `ProcessMsg` of more bytes than fit fills the ring, drops the rest, and delivers nothing, whatever
-- frames are complete.
pub process_msg_overflow :
    (d : Demarcar) (k : Kind) (c : List ℕ) (size : ℕ) (src : List ℕ) (n : ℕ)
    → Holds d k c size
    → size - length c < n
    → n ≤ length src
    → n < 65536
    → Returns
        (process_msg true d src n)
        (λ r. (r.0 ≡ []) × Holds r.1 k (c ++ take (size - length c) src) size)
unfolding process_msg
process_msg_overflow d k c size src n h over g w =
    Returns-bind (Stored k c size src n) _ (write_all (suc n) d src n) _
      (write_all_lem (suc n) d k c size src n h (omega arith) g w)
      λ r s.
        rw (s.0, leb-false n (size - length c) over)
          (refl, subst (λ m. Holds r.1 k (c ++ take m src) size) (omega arith) s.1)
