-- ===== src/Senders/Framing.antt =====
-- The framing of tcp_client_fix_sizestr_sender.cpp is the one that the variable-size demarcator cuts.
use linux_tcp_server.Base.{
  ℕ, zero, suc, ◌+◌, ◌%◌, ◌≤◌, ◌<◌, ◌≡◌, ◌⊎◌, inl, inr, dec_lt, refl, ap, true, List, [], ◌∷◌, ◌++◌,
  arith, length, store, replicate, done, fault, length-replicate, take_all, store-nil,
}
use linux_tcp_server.Bcb.Copy.{memcpy_lem, memcpy_fault}
use linux_tcp_server.Stream.{Cut, encode, encode_all, Cut-encode_all}
use linux_tcp_server.Demarcar.Blocks.{Chop}
use linux_tcp_server.Senders.{send_msg, htons_bytes, framed_rounds, string_rounds, msg, msg1, msg2}

store_zeros : (p : List ℕ) → store (replicate (length p) 0) 0 p ≡ p
store_zeros [] = refl
store_zeros (x ∷ p) = ap (λ l. x ∷ l) (store_zeros p)

-- `send_msg` of a payload of at most 65533 bytes sends its length in network order and the payload.
send_msg-encode :
    (payload : List ℕ)
    → length payload ≤ 65533
    → send_msg true payload (length payload) ≡ done (encode payload)
unfolding send_msg
send_msg-encode payload h = rw (
  block,
  memcpy_lem (replicate (suc (suc (length payload))) 0) 0 (htons_bytes (length payload)) 2
      (omega arith) (omega arith),
  store-nil {A = ℕ} (replicate (length payload) 0),
  memcpy_lem (htons_bytes (length payload) ++ replicate (length payload) 0) 2 payload
      (length payload) (omega (arith, length-replicate {A = ℕ} (length payload) 0)) (omega arith),
  take_all (length payload) payload (omega arith),
  store_zeros payload,
)
  where
    block : (2 + length payload) % 65536 ≡ suc (suc (length payload))
    block = omega arith

-- With 65534 or 65535 bytes the total length wraps, and the copy leaves the block.
send_msg_overflow :
    (payload : List ℕ) (n : ℕ)
    → n ≡ length payload
    → 65533 < n
    → n < 65536
    → send_msg true payload n ≡ fault
unfolding send_msg
send_msg_overflow payload n e h w = rw (
    memcpy_fault (replicate ((2 + n) % 65536) 0) 0 (htons_bytes n) 2
      (omega (arith, length-replicate {A = ℕ} ((2 + n) % 65536) 0)))

-- `send_msg` of a payload whose length is a `uint16_t`: up to 65533 bytes it sends the length in network
-- order and then the payload; for 65534 and 65535 bytes the total length wraps, and it writes outside its
-- block.
pub send_msg_lem :
    (payload : List ℕ)
    → length payload < 65536
    → (length payload ≤ 65533 × (send_msg true payload (length payload) ≡ done (encode payload)))
      ⊎ (65533 < length payload × (send_msg true payload (length payload) ≡ fault))
send_msg_lem payload small = elim (dec_lt 65533 (length payload)) [
  | yes long ↦ inr (long, send_msg_overflow payload (length payload) refl long small)
  | no short ↦ inl (omega arith, send_msg-encode payload (omega arith))
]

pub framed_rounds_lem : (n : ℕ) → framed_rounds n ≡ done (encode_all (replicate n msg))
unfolding framed_rounds
framed_rounds_lem zero = refl
framed_rounds_lem (suc n) = rw (send_msg-encode msg (omega arith), framed_rounds_lem n)

-- All that tcp_client_fix_sizestr_sender.cpp sends in `n` rounds is cut into `n` times its text, with
-- nothing left over.
framed_rounds-Cut :
    (n : ℕ) → (sent : List ℕ) × (framed_rounds n ≡ done sent) × Cut sent (replicate n msg) []
framed_rounds-Cut n =
    (encode_all (replicate n msg), framed_rounds_lem n, Cut-encode_all (replicate n msg))

-- What tcp_client_string_sender.cpp sends falls into the blocks of 27 bytes of a fixed-size server,
-- each the two texts of a round.
string_rounds-Chop : (n : ℕ) → Chop 27 (string_rounds n) (replicate n (msg1 ++ msg2)) []
unfolding string_rounds
string_rounds-Chop zero = (refl, omega arith)
string_rounds-Chop (suc n) = (string_rounds n, refl, refl, string_rounds-Chop n)
