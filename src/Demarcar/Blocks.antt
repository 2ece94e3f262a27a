-- ===== src/Demarcar/Blocks.antt =====
-- The fixed-size demarcator delivers every whole block that it holds; its last read then leaves the
-- mutex taken.
use linux_tcp_server.Base.{
  ℕ, zero, suc, ◌+◌, ◌-◌, ◌/◌, ◌%◌, ◌≤◌, ◌<◌, ◌≡◌, refl, sym, ◌∙◌, ap, subst, min, true, some, List,
  [], ◌∷◌, ◌++◌, map, arith, length, take, drop, set, inl, inr, blocked, Returns, Returns-bind,
  eq_false, ltb-true, ltb-false, leb-true, Returns-mono, ◌⊎◌, length-drop, length-take, length-set,
  take-set, take-append-drop, dec_lt,
}
use native.Mathlib.Nat.{div-eq_of_lt, div-eq-sub-div}
use linux_tcp_server.Bcb.{Bcb, available_size}
use linux_tcp_server.Bcb.Valid.{IsValid, contents}
use linux_tcp_server.Bcb.Contract.{length-contents, read_held, read_short, write_locked}
use linux_tcp_server.Demarcar.{
  Demarcar, fixed_size, Delivery, payload, deliver, process_blocks, is_block_ready, process_by,
  process_client_msg, process_msg, rounds, write_all,
}
use linux_tcp_server.Demarcar.Holds.{Holds, Holds-length, Holds-length-le}
use linux_tcp_server.Demarcar.Feed.{if-eq-min, Stored, write_all_lem}

-- The bytes `c` are the blocks `ms` of `n` bytes each, followed by the part `r` of a block.
abbrev pub Chop : ℕ → List ℕ → List (List ℕ) → List ℕ → Type 0
Chop n c [] r = (c ≡ r) × (length r < n)
Chop n c (m ∷ ms) r = (rest : List ℕ) × (c ≡ m ++ rest) × (length m ≡ n) × Chop n rest ms r

-- The demarcator holds the bytes `c`, and nobody will ever release the mutex of its ring.
abbrev IsStuck : Demarcar → List ℕ → ℕ → Type 0
IsStuck d c size =
    (b : Bcb) × (d.bcb ≡ some (record b { locked = true }))
    × IsValid b
    × (contents b ≡ c)
    × (b.buffer_size ≡ size)

-- The blocks of the bytes `c` were delivered, and the demarcator is stuck with the rest.
abbrev pub DeliversBlocks : ℕ → List ℕ → ℕ → List Delivery × Demarcar → Type 0
DeliversBlocks n c size r =
    (rest : List ℕ) × Chop n c (map payload r.0) rest × IsStuck r.1 rest size

process_blocks_lem :
    (fuel : ℕ) (d : Demarcar) (n : ℕ) (c : List ℕ) (size : ℕ)
    → Holds d (fixed_size n) c size
    → 0 < n
    → length c < fuel
    → Returns (process_blocks fuel true n d) (DeliversBlocks n c size)
unfolding process_blocks deliver
process_blocks_lem zero d n c size h pos f = absurd (omega arith)
process_blocks_lem (suc fuel) d n c size h pos f = elim (dec_lt (length c) n) [
  | yes few ↦
      rw (h.is_ring, h.is_array, read_short h.array n true h.valid (omega (arith, Holds-length h)))
        (c, (refl, few), (h.ring, refl, h.valid, h.bytes, h.capacity))
  | no enough ↦
      let (out, b, run, same, len, v, bytes, size_b) =
        read_held h.array n true h.valid (omega (arith, ap length h.bytes))
          (omega (arith, Holds-length-le h, h.roomy)) in
      rw
        (
          h.is_ring,
          h.is_array,
          run,
          eq_false n 0 (omega arith),
          ltb-true n (length out) (omega (arith, Holds-length-le h, h.roomy)),
        )
        (Returns-bind (DeliversBlocks n (drop n c) size) (DeliversBlocks n c size) _ _
          (process_blocks_lem fuel _ n (drop n c) size
            (record {
              ring = b;
              array = set out n 0;
              of_kind = h.of_kind;
              is_ring = refl;
              is_array = refl;
              valid = v;
              bytes = bytes ∙ ap (drop n) h.bytes;
              capacity = size_b ∙ h.capacity;
              roomy = omega (arith, length-set out n 0, h.roomy);
            })
            pos (omega (arith, length-drop n c)))
          λ t u. (
            u.0,
            (
              drop n c,
              sym (take-append-drop n c) ∙ ap (λ x. x ++ drop n c) (sym (taken out same)),
              omega (
                arith,
                length-take n (set out n 0),
                length-set out n 0,
                Holds-length-le h,
                h.roomy,
              ),
              u.1,
            ),
            u.2,
          ))
]
  where
    taken : (out : List ℕ) → take n out ≡ take n (contents h.ring) → take n (set out n 0) ≡ take n c
    taken out e = take-set n out n 0 (omega arith) ∙ e ∙ ap (take n) h.bytes

-- With whole blocks the loop runs and gets stuck; otherwise nothing happens.
abbrev BlocksOrNone : ℕ → List ℕ → ℕ → List Delivery × Demarcar → Type 0
BlocksOrNone n c size r =
    ((length c < n) × (r.0 ≡ []) × Holds r.1 (fixed_size n) c size)
    ⊎ ((n ≤ length c) × DeliversBlocks n c size r)

process_by_lem :
    (d : Demarcar) (n : ℕ) (c : List ℕ) (size : ℕ)
    → Holds d (fixed_size n) c size
    → 0 < n
    → Returns (process_by (fixed_size n) true d) (BlocksOrNone n c size)
unfolding process_by is_block_ready
process_by_lem d n c size h pos = elim (dec_lt (length c) n) [
  | yes few ↦
      rw
        (
          h.is_ring,
          eq_false n 0 (omega arith),
          ltb-false 0 (h.ring.current_size / n) (
              omega (
                arith,
                div-eq_of_lt {n = h.ring.current_size} {m = n} (omega (arith, Holds-length h)),
              )),
        )
        (inl (few, refl, h))
  | no enough ↦
      rw
        (
          h.is_ring,
          eq_false n 0 (omega arith),
          ltb-true 0 (h.ring.current_size / n) (
              omega (
                arith,
                div-eq-sub-div {m = n} {n = h.ring.current_size} pos
                    (omega (arith, Holds-length h)),
              )),
        )
        (Returns-mono (DeliversBlocks n c size) (BlocksOrNone n c size) _
          (process_blocks_lem (suc (rounds d)) d n c size h pos
            (rw h.is_ring (omega (arith, Holds-length h))))
          λ r p. inr (omega arith, p))
]

-- `ProcessMsg` of bytes that fit, in the fixed-size class: with less than a block in the ring it
-- delivers nothing and keeps the bytes; otherwise it delivers every whole block in order, keeps the
-- rest, and leaves the mutex of the ring taken.
pub process_msg_blocks :
    (d : Demarcar) (n : ℕ) (c : List ℕ) (size : ℕ) (src : List ℕ) (m : ℕ)
    → Holds d (fixed_size n) c size
    → 0 < n
    → m ≤ size - length c
    → m ≤ length src
    → m < 65536
    → Returns (process_msg true d src m) (λ r.
      ((length (c ++ take m src) < n)
        × (r.0 ≡ [])
        × Holds r.1 (fixed_size n) (c ++ take m src) size)
      ⊎ ((n ≤ length (c ++ take m src)) × DeliversBlocks n (c ++ take m src) size r))
unfolding process_msg process_client_msg
process_msg_blocks d n c size src m h pos fits g w =
    Returns-bind (Stored (fixed_size n) c size src m) (BlocksOrNone n (c ++ take m src) size)
      (write_all (suc m) d src m) _
      (write_all_lem (suc m) d (fixed_size n) c size src m h (omega arith) g w)
      λ r s.
        let held = subst (λ j. Holds r.1 (fixed_size n) (c ++ take j src) size) (omega arith) s.1 in
        rw (s.0, leb-true m (size - length c) fits)
          (subst (λ k. Returns (process_by k true r.1) (BlocksOrNone n (c ++ take m src) size))
            (sym held.of_kind) (process_by_lem r.1 n (c ++ take m src) size held pos))

-- After a delivery in the fixed-size class, the next call of `ProcessMsg` with bytes that fit never
-- returns.
pub stuck_blocks :
    (d : Demarcar) (c : List ℕ) (size : ℕ) (src : List ℕ) (m : ℕ)
    → IsStuck d c size
    → 0 < m
    → m ≤ size - length c
    → process_msg true d src m ≡ blocked
unfolding process_msg write_all available_size
stuck_blocks d c size src m (b, e, v, bytes, size_b) pos fits = rw (
  e,
  avail,
  eq_false m 0 (omega arith),
  eq_false (size - length c) 0 (omega arith),
  if-eq-min m (size - length c),
  write_locked b src (min m (size - length c)) v (omega (arith, v, len)),
)
  where
    len : b.current_size ≡ length c
    len = omega (arith, length-contents b, ap length bytes)

    avail : (b.buffer_size + 65536 - b.current_size) % 65536 ≡ size - length c
    avail = omega (arith, v, len)
