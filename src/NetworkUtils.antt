-- ===== src/NetworkUtils.antt =====
-- network_utils.cpp: addresses as numbers and as dotted text. `inet_ntop` and `inet_pton` are the
-- system's; they are parameters, on the four bytes of an address in network order.
pub mod RoundTrip
use linux_tcp_server.Base.{
  ℕ, zero, suc, ◌+◌, ◌*◌, ◌/◌, ◌%◌, ◌^◌, Option, none, some, List, [], ◌∷◌, ◌++◌, replicate, set,
  ◌==◌, if◌then◌else◌,
}
use linux_tcp_server.Senders.{le_bytes}

-- The bytes of a 32-bit number in the other order.
abbrev pub htonl : ℕ → ℕ
htonl n = n % 256 * 2 ^ 24 + n / 256 % 256 * 2 ^ 16 + n / 2 ^ 16 % 256 * 256 + n / 2 ^ 24 % 256

-- The number that bytes in memory are on a little-endian host.
abbrev pub le_value : List ℕ → ℕ
le_value [] = 0
le_value (b ∷ bs) = b + 256 * le_value bs

-- Bytes written to the start of a buffer.
abbrev pub overlay : List ℕ → List ℕ → List ℕ
overlay [] b = b
overlay (c ∷ s) [] = []
overlay (c ∷ s) (d ∷ b) = c ∷ overlay s b

-- The text up to the first zero.
abbrev pub c_string : List ℕ → List ℕ
c_string [] = []
c_string (c ∷ s) = let rest = c_string s in if c == 0 then [] else c ∷ rest

-- The bytes of the output buffer.
unfoldable pub network_convert_ip_n_to_p : (List ℕ → List ℕ) → ℕ → List ℕ
network_convert_ip_n_to_p inet_ntop ip_addr =
    set (overlay (inet_ntop (le_bytes 4 (htonl ip_addr)) ++ 0 ∷ []) (replicate 16 0)) 15 0

-- `binary_prefix` is zero unless `inet_pton` writes it.
abbrev binary_prefix : Option (List ℕ) → ℕ
binary_prefix none = 0
binary_prefix (some bytes) = le_value bytes

unfoldable pub network_convert_ip_p_to_n : (List ℕ → Option (List ℕ)) → List ℕ → ℕ
network_convert_ip_p_to_n inet_pton ip_addr = htonl (binary_prefix (inet_pton ip_addr))
