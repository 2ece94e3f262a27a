-- ===== src/Demarcar/Oversized.antt =====
-- A frame that is larger than the ring is never complete: the connection that sends it stalls.
use linux_tcp_server.Base.{
  ℕ, ◌+◌, ◌-◌, ◌≤◌, ◌<◌, ◌≡◌, refl, ap, true, List, [], ◌∷◌, ◌++◌, arith, length, take, Returns,
  Returns-mono, length-append, length-take, dec_le,
}
use linux_tcp_server.Stream.{ntohs, frame_whole}
use linux_tcp_server.Demarcar.{Demarcar, variable_size, Delivery, payload, process_msg}
use linux_tcp_server.Demarcar.Holds.{Holds, Holds-length-le}
use linux_tcp_server.Demarcar.Frames.{Delivers}
use linux_tcp_server.Demarcar.Feed.{process_msg_frames, process_msg_overflow}

-- The header of a frame has arrived that with its payload is larger than the ring of `size` bytes.
abbrev pub IsStalled : Demarcar → ℕ → Type 0
IsStalled d size =
    (c : List ℕ) × Holds d variable_size c size × (2 ≤ length c) × (size < 2 + ntohs c)

-- The header stands in the first two bytes.
ntohs-append : (c x : List ℕ) → 2 ≤ length c → ntohs (c ++ x) ≡ ntohs c
ntohs-append [] x h = absurd (omega arith)
ntohs-append (a ∷ []) x h = absurd (omega arith)
ntohs-append (a ∷ b ∷ c) x h = refl

-- Nothing was delivered, and the demarcator is as before.
abbrev pub StillStalled : ℕ → List Delivery × Demarcar → Type 0
StillStalled size r = (r.0 ≡ []) × IsStalled r.1 size

pub no_frame :
    (size : ℕ) (c : List ℕ) (ds : List Delivery) (d : Demarcar)
    → 2 ≤ length c
    → size < 2 + ntohs c
    → length c ≤ size
    → Delivers variable_size c size (ds, d)
    → StillStalled size (ds, d)
no_frame size c [] d two big fits (rest, cut, h, fit) =
    (refl, (rest, h, omega (arith, ap length cut.0), omega (arith, ap ntohs cut.0)))
no_frame size c (m ∷ ms) d two big fits (rest, cut, h, fit) =
    let (x, l, tail, e, k, _) = cut in
    absurd (omega (arith, frame_whole x l (payload m) tail k, ap length e, ap ntohs e))

-- Once a header that announces a frame larger than the ring stands at the front of the stream, no
-- call of `ProcessMsg` with the callback set delivers a message, whatever bytes (fewer than 2^16,
-- all in the source) it is given, and the header stays there.
oversized_frame_stalls :
    (d : Demarcar) (size : ℕ) (src : List ℕ) (n : ℕ)
    → IsStalled d size
    → n ≤ length src
    → n < 65536
    → Returns (process_msg true d src n) (λ r. (r.0 ≡ []) × IsStalled r.1 size)
oversized_frame_stalls d size src n (c, h, two, big) g w = elim (dec_le n (size - length c)) [
  | yes fits ↦
      Returns-mono (Delivers variable_size (c ++ take n src) size) (StillStalled size) _
        (process_msg_frames d c size src n h fits g w)
        λ r p.
          no_frame size (c ++ take n src) r.0 r.1 (omega (arith, length-append c (take n src)))
            (omega (arith, ntohs-append c (take n src) two))
            (omega (arith, length-append c (take n src), length-take n src, within)) p
  | no over ↦
      Returns-mono _ (StillStalled size) _
        (process_msg_overflow d variable_size c size src n h (omega arith) g w)
        λ r p. (
          p.0,
          (
            c ++ take (size - length c) src,
            p.1,
            omega (arith, length-append c (take (size - length c) src)),
            omega (arith, ntohs-append c (take (size - length c) src) two),
          ),
        )
]
  where
    within : length c ≤ size
    within = Holds-length-le h
