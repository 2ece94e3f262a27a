-- ===== src/App/Endpoints.antt =====
-- Which addresses and ports are printed rightly: network_utils.cpp with the notices of testapp.cpp and the
-- lines of TcpClient.cpp and TcpServerController.cpp.
use linux_tcp_server.Base.{
  ℕ, ◌+◌, ◌*◌, ◌/◌, ◌%◌, ◌<◌, ◌≡◌, ◌↔◌, ◌∙◌, ap, refl, Option, some, List, [], ◌∷◌, arith, Returns,
  zero, suc, ◌≢◌, length, take, set, eq_false, ltb-true, take-set, true,
}
use linux_tcp_server.Senders.{le_bytes}
use linux_tcp_server.NetworkUtils.{
  htonl, le_value, c_string, network_convert_ip_n_to_p, network_convert_ip_p_to_n,
}
use linux_tcp_server.NetworkUtils.RoundTrip.{IsText, buffer_text}
use linux_tcp_server.TcpClient
use linux_tcp_server.TcpClient.{TcpClient, Shown, set_state}
use linux_tcp_server.Acceptor
use linux_tcp_server.Stream.{All}
use linux_tcp_server.Demarcar.{deliver, payload}
use linux_tcp_server.ClientDb.{Host}
use linux_tcp_server.Controller
use linux_tcp_server.Controller.{TcpServerController, ServerShown, set_bit}
use linux_tcp_server.Controller.Accept.{Allocations, new_client}
use linux_tcp_server.App.Notices.{
  htons, message, dotted, print_client, print_server, client_line, server_line,
  appln_client_msg_recvd,
}

-- The four bytes of an address, as `accept` leaves them in memory.
abbrev AreBytes : List ℕ → Type 0
AreBytes [] = Unit
AreBytes (b ∷ bs) = (b < 256) × AreBytes bs

swapped_bytes :
    (a b c d : ℕ)
    → AreBytes (a ∷ b ∷ c ∷ d ∷ [])
    → le_bytes 4 (htonl (le_value (a ∷ b ∷ c ∷ d ∷ []))) ≡ d ∷ c ∷ b ∷ a ∷ []
swapped_bytes a b c d small = ground arith

swap_twice :
    (a b c d : ℕ)
    → AreBytes (a ∷ b ∷ c ∷ d ∷ [])
    → htonl (htonl (le_value (a ∷ b ∷ c ∷ d ∷ []))) ≡ le_value (a ∷ b ∷ c ∷ d ∷ [])
swap_twice a b c d small = omega arith

bytes_again :
    (a b c d : ℕ)
    → AreBytes (a ∷ b ∷ c ∷ d ∷ [])
    → le_bytes 4 (le_value (a ∷ b ∷ c ∷ d ∷ [])) ≡ a ∷ b ∷ c ∷ d ∷ []
bytes_again a b c d small = ground arith

htons-fixed : (n : ℕ) → n < 65536 → (htons n ≡ n) ↔ (n / 256 ≡ n % 256)
htons-fixed n small = ((λ e. omega arith), (λ e. omega arith))

module _ (inet_ntop : List ℕ → List ℕ) (text : (bytes : List ℕ) → IsText 15 (inet_ntop bytes)) where
  dotted_lem : (n : ℕ) → dotted inet_ntop n ≡ inet_ntop (le_bytes 4 (htonl n))
  unfolding dotted network_convert_ip_n_to_p
  dotted_lem n = buffer_text 15 (inet_ntop (le_bytes 4 (htonl n))) (text (le_bytes 4 (htonl n)))

  -- If `inet_ntop` gives texts of at most 15 characters: for a client accepted from the address a.b.c.d
  -- and the port hi * 256 + lo, the application's notices print the address a.b.c.d, while
  -- `TcpClient::Display` prints d.c.b.a; both print the port with its two bytes exchanged.
  pub client_endpoints :
      (a b c d hi lo comm_sock_fd : ℕ) (alloc : Allocations) (server : TcpServerController)
      → AreBytes (a ∷ b ∷ c ∷ d ∷ [])
      → AreBytes (hi ∷ lo ∷ [])
      → let client =
          new_client alloc
            (record {
              comm_sock_fd = comm_sock_fd;
              s_addr = le_value (a ∷ b ∷ c ∷ d ∷ []);
              sin_port = le_value (hi ∷ lo ∷ []);
            })
            server in
        (print_client inet_ntop client
          ≡ record { address = inet_ntop (a ∷ b ∷ c ∷ d ∷ []); port = lo * 256 + hi })
        × Returns (TcpClient.display client) (λ s.
          (client_line inet_ntop s).0
          ≡ record { address = inet_ntop (d ∷ c ∷ b ∷ a ∷ []); port = lo * 256 + hi })
  unfolding print_client client_line TcpClient.display new_client TcpClient.construct set_state
  client_endpoints a b c d hi lo comm_sock_fd alloc server small port_small = (
    (λ i. record {
      address =
          (dotted_lem (htonl (le_value (a ∷ b ∷ c ∷ d ∷ [])))
              ∙ ap (λ n. inet_ntop (le_bytes 4 n)) (swap_twice a b c d small)
              ∙ ap inet_ntop (bytes_again a b c d small))
            i;
      port = port_lem i;
    }),
    (λ i. record {
      address =
          (dotted_lem (le_value (a ∷ b ∷ c ∷ d ∷ [])) ∙ ap inet_ntop (swapped_bytes a b c d small))
            i;
      port = port_lem i;
    }),
  )
    where
      port_lem : le_value (hi ∷ lo ∷ []) ≡ lo * 256 + hi
      port_lem = omega arith

  -- If `inet_ntop` gives texts of at most 15 characters and `inet_pton` reads a text as the address
  -- a.b.c.d: a server constructed with this text and a port displays both rightly; the application's
  -- notices print the address rightly and the port with its two bytes exchanged, which is right only if
  -- these are equal.
  pub server_endpoints :
      (inet_pton : List ℕ → Option (List ℕ)) (address name : List ℕ) (a b c d port fd : ℕ)
      (h : Host)
      → inet_pton address ≡ some (a ∷ b ∷ c ∷ d ∷ [])
      → AreBytes (a ∷ b ∷ c ∷ d ∷ [])
      → port < 65536
      → Returns
          (Controller.construct (some fd) (network_convert_ip_p_to_n inet_pton address) port name)
          (λ server.
            Returns (Controller.display h server) (λ s.
              server_line inet_ntop s
              ≡ record { address = inet_ntop (a ∷ b ∷ c ∷ d ∷ []); port = port })
            × (print_server inet_ntop server
                ≡ record { address = inet_ntop (a ∷ b ∷ c ∷ d ∷ []); port = htons port })
            × (((print_server inet_ntop server).port ≡ port) ↔ (port / 256 ≡ port % 256)))
  unfolding Controller.construct Controller.display Controller.is_bit_set print_server server_line
      set_bit Acceptor.construct network_convert_ip_p_to_n
  server_endpoints inet_pton address name a b c d port fd h reads small port_small = (
    (λ i. record { address = shown i; port = port }),
    (λ i. record { address = shown i; port = htons port }),
    htons-fixed port port_small,
  )
    where
      shown :
          dotted inet_ntop (network_convert_ip_p_to_n inet_pton address)
          ≡ inet_ntop (a ∷ b ∷ c ∷ d ∷ [])
      shown =
          dotted_lem (network_convert_ip_p_to_n inet_pton address)
          ∙ rw reads (
              ap (λ n. inet_ntop (le_bytes 4 n)) (swap_twice a b c d small)
              ∙ ap inet_ntop (bytes_again a b c d small))

-- A text is printed whole if it has no zero.
c_string-set :
    (n : ℕ) (buf : List ℕ)
    → n < length buf
    → All (λ x. x ≢ 0) (take n buf)
    → c_string (set buf n 0) ≡ take n buf
c_string-set n [] within nonzero = absurd (omega arith)
c_string-set zero (x ∷ buf) within nonzero = refl
c_string-set (suc n) (x ∷ buf) within (nonzero, later) =
    rw (eq_false x 0 nonzero) (ap (λ l. x ∷ l) (c_string-set n buf (omega arith) later))

-- The application prints each message that is delivered to it whole, with its size, if it has no zero
-- byte; what the buffer held before behind the message is not printed.
delivered_text :
    (buf : List ℕ) (n : ℕ)
    → n < length buf
    → All (λ x. x ≢ 0) (take n buf)
    → Returns (deliver true buf n) (λ m.
      (appln_client_msg_recvd m.msg m.msg_size ≡ message n (take n buf)) × (payload m ≡ take n buf))
unfolding deliver appln_client_msg_recvd
delivered_text buf n within nonzero =
    rw (ltb-true n (length buf) within)
      (ap (message n) (c_string-set n buf within nonzero), take-set n buf n 0 (omega arith))
