-- ===== src/NetworkUtils/RoundTrip.antt =====
-- An address survives its conversion to text and back.
use linux_tcp_server.Base.{
  ℕ, zero, suc, ◌^◌, ◌<◌, ◌≡◌, ◌≢◌, ◌∙◌, ap, refl, Option, some, List, [], ◌∷◌, ◌++◌, arith,
  replicate, set, eq_false,
}
use linux_tcp_server.Senders.{le_bytes}
use linux_tcp_server.NetworkUtils.{
  htonl, le_value, overlay, c_string, network_convert_ip_n_to_p, network_convert_ip_p_to_n,
}

-- A text of at most `k` characters, none of them zero.
abbrev pub IsText : ℕ → List ℕ → Type 0
IsText k [] = Unit
IsText zero (c ∷ s) = ⊥
IsText (suc k) (c ∷ s) = (c ≢ 0) × IsText k s

pub buffer_text :
    (k : ℕ) (s : List ℕ)
    → IsText k s
    → c_string (set (overlay (s ++ 0 ∷ []) (replicate (suc k) 0)) k 0) ≡ s
buffer_text zero [] t = refl
buffer_text (suc k) [] t = refl
buffer_text zero (c ∷ s) t = absurd t
buffer_text (suc k) (c ∷ s) (nonzero, t) =
    rw (eq_false c 0 nonzero) (ap (λ x. c ∷ x) (buffer_text k s t))

bytes_back : (n : ℕ) → n < 4294967296 → le_value (le_bytes 4 n) ≡ n
bytes_back n h = omega arith

swap_lt : (n : ℕ) → htonl n < 4294967296
swap_lt n = omega arith

swap_back : (n : ℕ) → n < 4294967296 → htonl (htonl n) ≡ n
swap_back n h = omega arith

-- If `inet_ntop` gives a text of at most 15 characters that `inet_pton` reads back, then a 32-bit
-- address that is written to a buffer and read from it is the same address.
pub network_convert_round_trip :
    (inet_ntop : List ℕ → List ℕ) (inet_pton : List ℕ → Option (List ℕ))
    → ((bytes : List ℕ) → IsText 15 (inet_ntop bytes))
    → ((n : ℕ) → inet_pton (inet_ntop (le_bytes 4 n)) ≡ some (le_bytes 4 n))
    → (ip_addr : ℕ) → ip_addr < 2 ^ 32
    → network_convert_ip_p_to_n inet_pton (c_string (network_convert_ip_n_to_p inet_ntop ip_addr))
      ≡ ip_addr
unfolding network_convert_ip_p_to_n network_convert_ip_n_to_p
network_convert_round_trip inet_ntop inet_pton text back ip_addr small =
    rw
      (
        buffer_text 15 (inet_ntop (le_bytes 4 (htonl ip_addr))) (text (le_bytes 4 (htonl ip_addr))),
        back (htonl ip_addr),
      )
      (ap htonl (bytes_back (htonl ip_addr) (swap_lt ip_addr)) ∙ swap_back ip_addr small)
