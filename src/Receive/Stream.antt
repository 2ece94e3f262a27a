-- ===== src/Receive/Stream.antt =====
-- However the bytes of a connection are split into calls of `recv`, the application gets the messages
-- of the whole stream.
use linux_tcp_server.Base.{
  ℕ, zero, suc, ◌-◌, ◌%◌, ◌≤◌, ◌≡◌, sym, subst, true, some, List, [], ◌++◌, map, arith, length,
  take, Outcome, done, Returns, Returns-bind, append-nil, append_assoc, take_all, eq_false,
  ltb-false, ℕ_discrete,
}
use mathlib.Core.List.{map-append}
use linux_tcp_server.Stream.{
  Fit, Fit-append, Cut, IsPartial, Cut-IsPartial, Cut-append, Cut-unique, Cut-encode_all,
  encode_all,
}
use linux_tcp_server.Bcb.{available_size}
use linux_tcp_server.Bcb.Contract.{available_size-add-current}
use linux_tcp_server.Demarcar.{Demarcar, variable_size, Delivery, payload, process_msg}
use linux_tcp_server.Demarcar.Holds.{Holds, with_ring, Holds-length, Holds-length-le}
use linux_tcp_server.Demarcar.Frames.{Delivers}
use linux_tcp_server.Demarcar.Feed.{process_msg_frames}
use linux_tcp_server.Receive.{
  Recv, bytes, would_block, failed, Ending, full, closed, idle, error, running, Drained, ends,
  extend, on_recv, drain,
}

-- A result of `recv` holds no more bytes than were asked for.
abbrev pub IsBounded : ℕ → Recv → Type 0
IsBounded space (bytes bs) = length bs ≤ space
IsBounded space would_block = Unit
IsBounded space failed = Unit

-- The payloads delivered are those of the frames in the bytes held before and the bytes received, the
-- ring keeps the partial frame behind them, and it is full if the loop ends with a full ring. No message is
-- larger than the ring.
abbrev pub Serves : {W : Type 0} → List ℕ → ℕ → Drained W → Type 0
Serves c size r =
    (rest : List ℕ) × Cut (c ++ r.received) (map payload r.deliveries) rest
    × Holds r.msgd variable_size rest size
    × (r.ending ≡ full → length rest ≡ size)
    × Fit size (map payload r.deliveries)

ends-Serves :
    {W : Type 0} (d : Demarcar) (w : W) (e : Ending) (c : List ℕ) (size : ℕ)
    → Holds d variable_size c size
    → IsPartial c
    → (e ≡ full → length c ≡ size)
    → Serves c size (ends d w e)
ends-Serves d w e c size h p f = (c, (append-nil c, p), h, f, tt)

extend-Serves :
    {W : Type 0} (ms : List Delivery) (bs : List ℕ) (r : Drained W) (c rest : List ℕ) (size : ℕ)
    → Cut (c ++ bs) (map payload ms) rest
    → Fit size (map payload ms)
    → Serves rest size r
    → Serves c size (extend ms bs r)
extend-Serves ms bs r c rest size cut fit (last, cut', h, f, fit') = (
  last,
  subst (λ x. Cut x (map payload (ms ++ r.deliveries)) last) (append_assoc c bs r.received)
      (subst (λ x. Cut ((c ++ bs) ++ r.received) x last) (sym (map-append payload ms r.deliveries))
        (Cut-append (c ++ bs) r.received (map payload ms) (map payload r.deliveries) rest last cut
          cut')),
  h,
  f,
  subst (Fit size) (sym (map-append payload ms r.deliveries))
      (Fit-append size (map payload ms) (map payload r.deliveries) fit fit'),
)

on_recv_lem :
    {W : Type 0} (loop : Demarcar → W → Outcome (Drained W)) (d : Demarcar) (w : W) (c : List ℕ)
    (size : ℕ) (r : Recv)
    → Holds d variable_size c size
    → IsPartial c
    → size ≤ 8192
    → IsBounded (size - length c) r
    → ((e : Demarcar) (v : W) (rest : List ℕ)
        → Holds e variable_size rest size
        → IsPartial rest
        → Returns (loop e v) (Serves rest size))
    → Returns (on_recv true d loop r w) (Serves c size)
unfolding on_recv
on_recv_lem loop d w c size would_block h p small bounded next =
    ends-Serves d w idle c size h p (λ e. cc)
on_recv_lem loop d w c size failed h p small bounded next =
    ends-Serves d w error c size h p (λ e. cc)
on_recv_lem loop d w c size (bytes bs) h p small bounded next = elim (ℕ_discrete (length bs) 0) [
  | yes empty ↦ rw empty (ends-Serves d w closed c size h p (λ e. cc))
  | no left ↦
      rw (eq_false (length bs) 0 left, ltb-false 8192 (length bs) (omega arith), fits)
        (Returns-bind (Delivers variable_size (c ++ take (length bs) bs) size) (Serves c size)
          (process_msg true d bs (length bs)) _
          (process_msg_frames d c size bs (length bs) h bounded (omega arith) (omega arith))
          λ s u.
            Returns-bind (Serves u.0 size) (Serves c size) (loop s.1 w) _
              (next s.1 w u.0 u.2 (Cut-IsPartial _ _ u.0 u.1))
              λ t v.
                extend-Serves s.0 bs t c u.0 size
                  (subst (λ x. Cut (c ++ x) (map payload s.0) u.0)
                    (take_all (length bs) bs (omega arith)) u.1)
                  u.3 v)
]
  where
    fits : length bs % 65536 ≡ length bs
    fits = omega arith

module _ {W : Type 0} (recv : ℕ → ℕ → W → Recv × W)
    (bounded : (fd space : ℕ) (w : W) → IsBounded space (recv fd space w).0) where
  -- With the callback for messages set, a demarcator for variable sizes in order that holds no
  -- complete frame and has a ring of at most 8192 bytes, and if `recv` gives no more bytes than it
  -- is asked for, the loop over one connection returns after any number of rounds. With the bytes
  -- held before and those received, the messages delivered are exactly the frames of the stream, in
  -- order, and the ring keeps the partial frame behind them; the loop stops for a full ring only if
  -- that partial frame fills it, and no message with its header is larger than the ring.
  pub drain-Serves :
      (rounds fd : ℕ) (d : Demarcar) (w : W) (c : List ℕ) (size : ℕ)
      → Holds d variable_size c size
      → IsPartial c
      → size ≤ 8192
      → Returns (drain recv rounds true fd d w) (Serves c size)
  unfolding drain
  drain-Serves zero fd d w c size h p small = ends-Serves d w running c size h p (λ e. cc)
  drain-Serves (suc rounds) fd d w c size h p small =
      rw (h.is_ring, avail)
        (elim (ℕ_discrete (size - length c) 0) [
          | yes spent ↦
              rw spent
                (ends-Serves whole w full c size kept p (λ e. omega (arith, Holds-length-le h)))
          | no left ↦ rw (eq_false (size - length c) 0 left) (
              on_recv_lem (drain recv rounds true fd) whole _ c size _ kept p small (bounded fd _ w)
                (λ e v rest k q. drain-Serves rounds fd e v rest size k q small))
        ])
    where
      whole : Demarcar
      whole = record d { bcb = some h.ring }

      kept : Holds whole variable_size c size
      kept = with_ring h h.ring h.valid h.bytes h.capacity

      avail : available_size h.ring ≡ size - length c
      avail = omega (arith, available_size-add-current h.valid, Holds-length h, h.capacity)

  -- With the callback for messages set, an empty ring in order of at most 8192 bytes, and if `recv`
  -- gives no more bytes than it is asked for: when the loop has returned and all that it received
  -- is the frames of some messages, the application got just these messages, in order, and the ring
  -- is empty again.
  drain_messages :
      (rounds fd : ℕ) (d : Demarcar) (w : W) (size : ℕ) (ms : List (List ℕ)) (r : Drained W)
      → Holds d variable_size [] size
      → size ≤ 8192
      → drain recv rounds true fd d w ≡ done r
      → r.received ≡ encode_all ms
      → (map payload r.deliveries ≡ ms) × Holds r.msgd variable_size [] size
  drain_messages rounds fd d w size ms r h small e sent =
      let s : Serves [] size r =
        subst (λ m. Returns m (Serves [] size)) e
          (drain-Serves rounds fd d w [] size h (omega arith) small) in
      let (same, none) =
        Cut-unique (encode_all ms) (map payload r.deliveries) ms s.0 []
          (subst (λ x. Cut x (map payload r.deliveries) s.0) sent s.1) (Cut-encode_all ms) in
      (same, subst (λ x. Holds r.msgd variable_size x size) none s.2)
