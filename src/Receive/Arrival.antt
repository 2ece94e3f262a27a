-- ===== src/Receive/Arrival.antt =====
-- All messages that fit into the ring arrive: the loop over `recv` of TcpClientServiceManager.cpp on a
-- socket that gives what the peer has sent.
use linux_tcp_server.Base.{
  ℕ, ◌+◌, ◌≤◌, ◌<◌, ◌≡◌, ◌∙◌, inl, inr, ap, sym, subst, true, List, [], ◌∷◌, ◌++◌, map, arith,
  length, drop, Returns, Returns-mono, Returns-both, append_assoc, length-append,
}
use linux_tcp_server.Stream.{
  ntohs, Cut, IsPartial, Cut-unique, Cut-encode_all, encode, encode_all, All, append_split,
}
use linux_tcp_server.Demarcar.{Demarcar, variable_size, payload}
use linux_tcp_server.Demarcar.Holds.{Holds}
use linux_tcp_server.Receive.{idle, Drained, drain}
use linux_tcp_server.Receive.Stream.{Serves, drain-Serves}
use linux_tcp_server.Receive.Progress.{Socket, Ends, drain-Ends}

-- Nothing that is in front of the frames of messages that fit can fill the ring.
fits_rest :
    (size : ℕ) (x y : List ℕ) (ms ns : List (List ℕ)) (rest : List ℕ)
    → 0 < size
    → All (λ m. 2 + length m ≤ size) ms
    → x ++ y ≡ encode_all ms
    → Cut x ns rest
    → length rest < size
fits_rest size x y [] [] rest pos fit e (same, p) =
    omega (arith, ap length e, length-append x y, ap length same)
fits_rest size [] y (m ∷ ms) [] rest pos fit e (same, p) = omega (arith, ap length same)
fits_rest size (a ∷ []) y (m ∷ ms) [] rest pos fit e (same, p) =
    omega (arith, ap length same, fit.0)
fits_rest size (a ∷ b ∷ x) y (m ∷ ms) [] rest pos fit e (same, p) =
    omega (arith, ap length same, ap ntohs same, ap ntohs e, fit.0)
fits_rest size x y [] (n ∷ ns) rest pos fit e (h, l, tail, same, k, cut) =
    absurd (omega (arith, ap length e, length-append x y, ap length same))
fits_rest size x y (m ∷ ms) (n ∷ ns) rest pos fit e (h, l, tail, same, k, cut) =
    fits_rest size tail y ms ns rest pos fit.1
      (append_split n m (tail ++ y) (encode_all ms)
        (sym (append_assoc n tail y) ∙ ap (drop 2) whole) (omega (arith, ap ntohs whole))).1
      cut
  where
    whole : h ∷ l ∷ ((n ++ tail) ++ y) ≡ encode m ++ encode_all ms
    whole = ap (λ z. z ++ y) (sym same) ∙ e

-- What became of the messages that the peer has sent.
abbrev pub Arrived : {W : Type 0} → List (List ℕ) → List ℕ → ℕ → Drained W → Type 0
Arrived ms sent size r =
    (map payload r.deliveries ≡ ms)
    × (r.received ≡ sent)
    × (r.ending ≡ idle)
    × Holds r.msgd variable_size [] size

module _ {W : Type 0} {fd : ℕ} (socket : Socket W fd) where
  open socket use {recv, pending, bounded}

  -- With the callback for messages set, a demarcator for variable sizes in order that holds no complete
  -- frame and has a ring of at most 8192 bytes: if the bytes held and the pending bytes are the frames
  -- of some messages, each of which fits into the ring, then in more rounds than bytes are pending the
  -- loop over `recv` delivers just these messages, in order, and nothing is left in the ring.
  pub messages_arrive :
      (rounds : ℕ) (d : Demarcar) (w : W) (c : List ℕ) (size : ℕ) (ms : List (List ℕ))
      → Holds d variable_size c size
      → IsPartial c
      → size ≤ 8192
      → length (pending w) < rounds
      → c ++ pending w ≡ encode_all ms
      → All (λ m. 2 + length m ≤ size) ms
      → Returns (drain recv rounds true fd d w) (Arrived ms (pending w) size)
  messages_arrive rounds d w c size ms h p small enough sent fit =
      Returns-mono (λ r. Serves c size r × Ends (pending w) r) (Arrived ms (pending w) size)
        (drain recv rounds true fd d w)
        (Returns-both (Serves c size) (Ends (pending w)) (drain recv rounds true fd d w)
          (drain-Serves recv bounded rounds fd d w c size h p small)
          (drain-Ends socket rounds d w c size h p small enough))
        arrived
    where
      arrived :
          (r : Drained W) → Serves c size r × Ends (pending w) r → Arrived ms (pending w) size r
      arrived r ((rest, cut, held, full_ring, _), inl (e, all)) =
          let (same, none_left) =
            Cut-unique (encode_all ms) (map payload r.deliveries) ms rest []
              (subst (λ x. Cut x (map payload r.deliveries) rest) (ap (λ l. c ++ l) all ∙ sent) cut)
              (Cut-encode_all ms) in
          (same, all, e, subst (λ x. Holds r.msgd variable_size x size) none_left held)
      arrived r ((rest, cut, held, full_ring, _), inr (e, (more, part))) = absurd (
          omega (
            arith,
            full_ring e,
            fits_rest size (c ++ r.received) more ms (map payload r.deliveries) rest
                (omega (arith, h.capacity, h.valid.positive)) fit
                (append_assoc c r.received more ∙ ap (λ l. c ++ l) (sym part) ∙ sent) cut,
          ))
