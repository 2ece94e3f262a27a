-- ===== src/Demarcar/Frames.antt =====
-- The variable-size demarcator delivers the frames of the bytes that it holds, and keeps the rest.
use linux_tcp_server.Base.{
  length-take, ℕ, zero, suc, ◌+◌, ◌≤◌, ◌<◌, ◌≡◌, refl, sym, ◌∙◌, ap, ap₂, Bool, true, false, List,
  map, arith, length, set, take, drop, ltb, leb, inl, inr, Returns, Returns-bind, leb_le, leb_gt,
  Bool-cases, ltb_lt, ltb_ge, leb-false, length-set, length-drop, take-set, ltb-true,
}
use linux_tcp_server.Stream.{Fit, ntohs, ntohs-take, Cut, Cut-next}
use linux_tcp_server.Bcb.Valid.{contents}
use linux_tcp_server.Bcb.Contract.{read_held, length-contents}
use linux_tcp_server.Demarcar.{
  two_bytes, Demarcar, Kind, Delivery, payload, deliver, is_frame_ready, next_frame, process_frames,
}
use linux_tcp_server.Demarcar.Holds.{Holds-length-le, Holds, with_ring}

-- The ring holds the same bytes after the look at the length.
abbrev Looked : Kind → List ℕ → ℕ → Bool × Demarcar → Type 0
Looked k c size r = (r.0 ≡ leb (2 + ntohs c) (length c)) × Holds r.1 k c size

-- The payload of the first frame was delivered, and its bytes are gone.
abbrev Took : Kind → List ℕ → ℕ → Delivery × Demarcar → Type 0
Took k c size r =
    (payload r.0 ≡ take (ntohs c) (drop 2 c)) × Holds r.1 k (drop (ntohs c) (drop 2 c)) size

-- The messages delivered are those of the bytes `c`, and the partial frame behind them is kept.
abbrev pub Delivers : Kind → List ℕ → ℕ → List Delivery × Demarcar → Type 0
Delivers k c size r =
    (rest : List ℕ) × Cut c (map payload r.0) rest
    × Holds r.1 k rest size
    × Fit size (map payload r.0)

is_frame_ready_lem :
    (d : Demarcar) (k : Kind) (c : List ℕ) (size : ℕ)
    → Holds d k c size
    → Returns (is_frame_ready d) (Looked k c size)
unfolding is_frame_ready
is_frame_ready_lem d k c size h = rw (h.is_ring) (elim (Bool-cases (ltb h.ring.current_size 2)) [
  | inl e ↦ rw e (
    sym (leb-false (2 + ntohs c) (length c) (omega (arith, len, ltb_lt h.ring.current_size 2 e))),
    with_ring h h.ring h.valid h.bytes h.capacity,
  )
  | inr e ↦ rw e (
      let (out, b, run, same, _, v, bytes, cap_b) =
        read_held two_bytes 2 false h.valid
          (omega (arith, length-contents h.ring, ltb_ge h.ring.current_size 2 e)) (omega arith) in
      rw run (
        ap₂ (λ x y. leb (2 + x) y)
            (sym (ntohs-take 2 out (omega arith))
              ∙ ap ntohs same
              ∙ ntohs-take 2 (contents h.ring) (omega arith)
              ∙ ap ntohs h.bytes)
            (sym (length-contents b) ∙ ap length (bytes ∙ h.bytes)),
        with_ring h b v (bytes ∙ h.bytes) (cap_b ∙ h.capacity),
      ))
])
  where
    len : length c ≡ h.ring.current_size
    len = ap length (sym h.bytes) ∙ length-contents h.ring

next_frame_lem :
    (d : Demarcar) (k : Kind) (c : List ℕ) (size : ℕ)
    → Holds d k c size
    → 2 + ntohs c ≤ length c
    → Returns (next_frame true d) (Took k c size)
unfolding next_frame deliver
next_frame_lem d k c size h whole =
    let (hdr, b, run, same, _, v, bytes, cap_b) =
      read_held two_bytes 2 true h.valid (omega (arith, ap length h.bytes)) (omega arith) in
    let len : ntohs hdr ≡ ntohs c =
      sym (ntohs-take 2 hdr (omega arith))
      ∙ ap ntohs same
      ∙ ntohs-take 2 (contents h.ring) (omega arith)
      ∙ ap ntohs h.bytes in
    let held : contents b ≡ drop 2 c = bytes ∙ ap (drop 2) h.bytes in
    let within : ntohs c < length h.array =
      omega (arith, ap length h.bytes, length-contents h.ring, h.valid, h.capacity, h.roomy) in
    let (out, b', run', same', len', v', bytes', cap_b') =
      read_held h.array (ntohs c) true v (omega (arith, ap length held, length-drop 2 c))
        (omega arith) in
    rw (h.is_ring, run, h.is_array, len, run', ltb-true (ntohs c) (length out) (omega arith))
      (
        take-set (ntohs c) out (ntohs c) 0 (omega arith) ∙ same' ∙ ap (take (ntohs c)) held,
        record {
          ring = b';
          array = set out (ntohs c) 0;
          of_kind = h.of_kind;
          is_ring = refl;
          is_array = refl;
          valid = v';
          bytes = bytes' ∙ ap (drop (ntohs c)) held;
          capacity = cap_b' ∙ cap_b ∙ h.capacity;
          roomy = omega (arith, length-set out (ntohs c) 0, h.roomy);
        },
      )

pub process_frames_lem :
    (fuel : ℕ) (d : Demarcar) (k : Kind) (c : List ℕ) (size : ℕ)
    → Holds d k c size
    → length c < fuel
    → Returns (process_frames fuel true d) (Delivers k c size)
unfolding process_frames
process_frames_lem zero d k c size h f = absurd (omega arith)
process_frames_lem (suc fuel) d k c size h f =
    Returns-bind (Looked k c size) (Delivers k c size) (is_frame_ready d) _
      (is_frame_ready_lem d k c size h)
      λ r p. elim (Bool-cases (leb (2 + ntohs c) (length c))) [
        | inl whole ↦
            rw (p.0, whole)
              (Returns-bind (Took k c size) (Delivers k c size) (next_frame true r.1) _
                (next_frame_lem r.1 k c size p.1 (leb_le _ _ whole))
                λ s q.
                  Returns-bind (Delivers k (drop (ntohs c) (drop 2 c)) size) (Delivers k c size)
                    (process_frames fuel true s.1) _
                    (process_frames_lem fuel s.1 k (drop (ntohs c) (drop 2 c)) size q.1 (
                      omega (
                        arith,
                        length-drop 2 c,
                        length-drop (ntohs c) (drop 2 c),
                        leb_le (2 + ntohs c) (length c) whole,
                      )))
                    λ t u. (
                      u.0,
                      Cut-next c _ _ u.0 (leb_le _ _ whole) q.0 u.1,
                      u.2,
                      (
                        omega (
                          arith,
                          ap length q.0,
                          length-take (ntohs c) (drop 2 c),
                          leb_le (2 + ntohs c) (length c) whole,
                          Holds-length-le h,
                        ),
                        u.3,
                      ),
                    ))
        | inr part ↦ rw (p.0, part) (c, (refl, leb_gt _ _ part), p.1, tt)
      ]
