-- ===== src/Receive/Segments.antt =====
-- How the bytes of a connection are split into segments makes no difference to what
-- TcpClientServiceManager.cpp delivers.
use linux_tcp_server.Base.{ℕ, ◌≤◌, ◌≡◌, subst, true, List, ◌++◌, map, done, Returns}
use linux_tcp_server.Stream.{Cut, IsPartial, Cut-unique}
use linux_tcp_server.Demarcar.{Demarcar, variable_size, payload}
use linux_tcp_server.Demarcar.Holds.{Holds}
use linux_tcp_server.Receive.{Recv, Drained, drain}
use linux_tcp_server.Receive.Stream.{IsBounded, Serves, drain-Serves}

module _ {V W : Type 0} (recv : ℕ → ℕ → V → Recv × V) (recv' : ℕ → ℕ → W → Recv × W)
    (bounded : (fd space : ℕ) (v : V) → IsBounded space (recv fd space v).0)
    (bounded' : (fd space : ℕ) (w : W) → IsBounded space (recv' fd space w).0) where
  -- How a stream is split into segments makes no difference: if two runs of the loop, from the same
  -- demarcator for variable sizes in order with a ring of at most 8192 bytes and no complete frame in
  -- it, receive the same bytes, in whatever pieces, they deliver the same messages and keep the same
  -- bytes.
  pub segments_agree :
      (rounds rounds' fd fd' : ℕ) (d : Demarcar) (v : V) (w : W) (c : List ℕ) (size : ℕ)
      (r : Drained V) (r' : Drained W)
      → Holds d variable_size c size
      → IsPartial c
      → size ≤ 8192
      → drain recv rounds true fd d v ≡ done r
      → drain recv' rounds' true fd' d w ≡ done r'
      → r.received ≡ r'.received
      → (map payload r.deliveries ≡ map payload r'.deliveries)
        × ((kept : List ℕ) × Holds r.msgd variable_size kept size
            × Holds r'.msgd variable_size kept size)
  segments_agree rounds rounds' fd fd' d v w c size r r' h p small e e' same =
      let (rest, cut, held, _, _) : Serves c size r =
        subst (λ m. Returns m (Serves c size)) e
          (drain-Serves recv bounded rounds fd d v c size h p small) in
      let (rest', cut', held', _, _) : Serves c size r' =
        subst (λ m. Returns m (Serves c size)) e'
          (drain-Serves recv' bounded' rounds' fd' d w c size h p small) in
      let (messages, left) =
        Cut-unique (c ++ r'.received) (map payload r.deliveries) (map payload r'.deliveries) rest
          rest' (subst (λ x. Cut (c ++ x) (map payload r.deliveries) rest) same cut) cut' in
      (messages, (rest', subst (λ x. Holds r.msgd variable_size x size) left held, held'))
