-- ===== src/Demarcar/Stuck.antt =====
-- Two messages for the fixed-size class of TcpMsgFixedSizeDemarcar.cpp: the first one that completes a
-- block is delivered, and the second one hangs in ProcessMsg of TcpMsgDemarcar.cpp.
use linux_tcp_server.Base.{
  ℕ, ◌+◌, ◌-◌, ◌<◌, ◌≤◌, ◌≡◌, inl, inr, true, List, [], ◌∷◌, ◌++◌, take, length, map, arith,
  blocked, Returns, Returns-mono,
}
use linux_tcp_server.Demarcar.{payload, fixed_size, Demarcar, process_msg}
use linux_tcp_server.Demarcar.Holds.{Holds}
use linux_tcp_server.Demarcar.Blocks.{Chop, process_msg_blocks, stuck_blocks}

rest_short : (n : ℕ) (c : List ℕ) (ms : List (List ℕ)) (r : List ℕ) → Chop n c ms r → length r < n
rest_short n c [] r (e, few) = few
rest_short n c (m ∷ ms) r (rest, e, l, k) = rest_short n rest ms r k

-- In the fixed-size class, with the ring in order: a `ProcessMsg` of bytes that fit, after which the
-- ring has at least one block, returns and delivers all whole blocks in order, and any next
-- `ProcessMsg` on what it leaves, of at least one byte and of no more than fit beside an incomplete
-- block, waits forever for the mutex of the ring.
pub second_message_blocks :
    (d : Demarcar) (n : ℕ) (c : List ℕ) (size : ℕ) (src src' : List ℕ) (m m' : ℕ)
    → Holds d (fixed_size n) c size
    → 0 < n
    → m ≤ size - length c
    → m ≤ length src
    → m < 65536
    → n ≤ length (c ++ take m src)
    → 0 < m'
    → m' + n ≤ size + 1
    → Returns (process_msg true d src m) (λ r.
      ((rest : List ℕ) × Chop n (c ++ take m src) (map payload r.0) rest)
      × (process_msg true r.1 src' m' ≡ blocked))
second_message_blocks d n c size src src' m m' h pos fits g w enough some_bytes room =
    Returns-mono _ _ (process_msg true d src m) (process_msg_blocks d n c size src m h pos fits g w)
      (λ r k. elim k [
        | inl (few, none_out, kept) ↦ absurd (omega arith)
        | inr (whole, (rest, chop, stuck)) ↦ (
          (rest, chop),
          stuck_blocks r.1 rest size src' m' stuck some_bytes
              (omega (arith, rest_short n (c ++ take m src) (map payload r.0) rest chop)),
        )
      ])
