-- ===== src/Receive/Progress.antt =====
-- The loop over `recv` of TcpClientServiceManager.cpp on a socket that gives what the peer has sent: it
-- ends by itself.
use linux_tcp_server.Base.{
  ℕ, zero, suc, ◌-◌, ◌%◌, ◌≤◌, ◌<◌, ◌≡◌, ◌⊎◌, ◌∙◌, inl, inr, refl, ap, sym, subst, true, some, List,
  [], ◌∷◌, ◌++◌, arith, length, take, Outcome, Returns, Returns-bind, append_assoc, eq_false,
  ltb-false, ℕ_discrete, length-append,
}
use linux_tcp_server.Stream.{IsPartial, Cut-IsPartial}
use linux_tcp_server.Bcb.{available_size}
use linux_tcp_server.Bcb.Contract.{available_size-add-current}
use linux_tcp_server.Demarcar.{Demarcar, variable_size, Delivery, process_msg}
use linux_tcp_server.Demarcar.Holds.{Holds, with_ring, Holds-length}
use linux_tcp_server.Demarcar.Frames.{Delivers}
use linux_tcp_server.Demarcar.Feed.{process_msg_frames}
use linux_tcp_server.Receive.{Recv, bytes, would_block, full, idle, Drained, extend, on_recv, drain}
use linux_tcp_server.Receive.Stream.{IsBounded}

-- `recv` on the non-blocking socket `fd` of a peer that keeps the connection open: while bytes are
-- pending, a call with room for some gives some of them, the oldest first; otherwise it would block.
pub record Socket (W : Type 0) (fd : ℕ) : Type 0 where
  pub recv : ℕ → ℕ → W → Recv × W
  pub pending : W → List ℕ
  pub bounded : (g space : ℕ) (w : W) → IsBounded space (recv g space w).0
  pub gives :
      (space : ℕ) (w : W)
      → 0 < space
      → 0 < length (pending w)
      → (bs : List ℕ) × ((recv fd space w).0 ≡ bytes bs)
        × (0 < length bs)
        × (pending w ≡ bs ++ pending (recv fd space w).1)
  pub dry : (space : ℕ) (w : W) → pending w ≡ [] → (recv fd space w).0 ≡ would_block

-- The loop has received all that was pending and nothing is there any more, or the ring is full.
abbrev pub Ends : {W : Type 0} → List ℕ → Drained W → Type 0
Ends sent r =
    ((r.ending ≡ idle) × (r.received ≡ sent))
    ⊎ ((r.ending ≡ full) × ((more : List ℕ) × (sent ≡ r.received ++ more)))

extend-Ends :
    {W : Type 0} (ms : List Delivery) (bs later : List ℕ) (r : Drained W)
    → Ends later r
    → Ends (bs ++ later) (extend ms bs r)
extend-Ends ms bs later r (inl (e, all)) = inl (e, ap (λ l. bs ++ l) all)
extend-Ends ms bs later r (inr (e, (more, part))) =
    inr (e, (more, ap (λ l. bs ++ l) part ∙ sym (append_assoc bs r.received more)))

nothing_left : (xs : List ℕ) → length xs ≡ 0 → xs ≡ []
nothing_left [] e = refl
nothing_left (x ∷ xs) e = absurd (omega arith)

module _ {W : Type 0} {fd : ℕ} (socket : Socket W fd) where
  open socket use {recv, pending, bounded, gives, dry}

  received_lem :
      (loop : Demarcar → W → Outcome (Drained W)) (d : Demarcar) (w : W) (c : List ℕ) (size : ℕ)
      (bs later : List ℕ)
      → Holds d variable_size c size
      → size ≤ 8192
      → length bs ≤ size - length c
      → 0 < length bs
      → ((e : Demarcar) (rest : List ℕ)
          → Holds e variable_size rest size
          → IsPartial rest
          → Returns (loop e w) (Ends later))
      → Returns (on_recv true d loop (bytes bs) w) (Ends (bs ++ later))
  unfolding on_recv
  received_lem loop d w c size bs later h small room more next =
      rw (eq_false (length bs) 0 (omega arith), ltb-false 8192 (length bs) (omega arith), fits)
        (Returns-bind (Delivers variable_size (c ++ take (length bs) bs) size) (Ends (bs ++ later))
          (process_msg true d bs (length bs)) _
          (process_msg_frames d c size bs (length bs) h room (omega arith) (omega arith))
          λ s u.
            Returns-bind (Ends later) (Ends (bs ++ later)) (loop s.1 w) _
              (next s.1 u.0 u.2 (Cut-IsPartial _ _ u.0 u.1)) λ t v. extend-Ends s.0 bs later t v)
    where
      fits : length bs % 65536 ≡ length bs
      fits = omega arith

  -- With the callback for messages set, a demarcator for variable sizes in order that holds no complete
  -- frame and has a ring of at most 8192 bytes: in more rounds than bytes are pending, the loop over
  -- `recv` ends by itself. It has then received all that was pending and was told that nothing is
  -- there, or it has received the first part of it and the ring is full.
  pub drain-Ends :
      (rounds : ℕ) (d : Demarcar) (w : W) (c : List ℕ) (size : ℕ)
      → Holds d variable_size c size
      → IsPartial c
      → size ≤ 8192
      → length (pending w) < rounds
      → Returns (drain recv rounds true fd d w) (Ends (pending w))
  unfolding drain on_recv
  drain-Ends zero d w c size h p small enough = absurd (omega arith)
  drain-Ends (suc rounds) d w c size h p small enough =
      rw (h.is_ring, avail)
        (elim (ℕ_discrete (size - length c) 0) [
          | yes spent ↦ rw spent (inr (refl, (pending w, refl)))
          | no left ↦
              rw (eq_false (size - length c) 0 left) (elim (ℕ_discrete (length (pending w)) 0) [
                | yes empty ↦
                    let none_left = nothing_left (pending w) empty in
                    rw (dry (size - length c) w none_left) (inl (refl, sym none_left))
                | no some_left ↦
                    let (bs, is_bytes, more, sent) =
                      gives (size - length c) w (omega arith) (omega arith) in
                    rw is_bytes (
                      subst
                        (λ l.
                          Returns
                            (on_recv true whole (drain recv rounds true fd) (bytes bs) (later w c))
                            (Ends l))
                        (sym sent)
                        (received_lem (drain recv rounds true fd) whole (later w c) c size bs
                          (pending (later w c)) kept small
                          (subst (IsBounded (size - length c)) is_bytes
                            (bounded fd (size - length c) w))
                          more
                          (λ e rest k q. drain-Ends rounds e (later w c) rest size k q small (
                            omega
                              (arith, ap length sent, length-append bs (pending (later w c)))))))
              ])
        ])
    where
      whole : Demarcar
      whole = record d { bcb = some h.ring }

      kept : Holds whole variable_size c size
      kept = with_ring h h.ring h.valid h.bytes h.capacity

      -- The world after the call.
      later : W → List ℕ → W
      later v l = (recv fd (size - length l) v).1

      avail : available_size h.ring ≡ size - length c
      avail = omega (arith, available_size-add-current h.valid, Holds-length h, h.capacity)
