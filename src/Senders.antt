-- ===== src/Senders.antt =====
-- The three client programs: what they hand to `send`. tcp_client_fix_sizestr_sender.cpp frames its
-- messages, tcp_client_string_sender.cpp sends bare strings, tcp_client.cpp packed structs.
pub mod Framing
pub mod Structs
use linux_tcp_server.Base.{
  ℕ, codes, Option, exited, zero, suc, ◌+◌, ◌/◌, ◌%◌, ◌&&◌, Bool, true, false, List, [], ◌∷◌, ◌++◌,
  replicate, ◌==◌, length, if◌then◌else◌, Outcome, done, fault, ◌>>=◌, ◌>>◌,
}
use linux_tcp_server.Bcb.{memcpy, u16}

-- The bytes in memory of a `uint16_t` in network order.
abbrev pub htons_bytes : ℕ → List ℕ
htons_bytes n = n / 256 ∷ n % 256 ∷ []

-- The block that `malloc` returns, whose bytes are overwritten before they are read.
malloc : Bool → ℕ → Outcome (List ℕ)
malloc false n = fault
malloc true n = done (replicate n 0)

-- `send_msg`: the bytes given to `send`. The total length is a `uint16_t`, and a failed `malloc` is
-- not tested for.
unfoldable pub send_msg : Bool → List ℕ → ℕ → Outcome (List ℕ)
unfolding malloc
send_msg allocated payload payload_len = do
  send_buf ← malloc allocated (u16 (2 + payload_len))
  headed ← memcpy send_buf 0 (htons_bytes payload_len) 2
  memcpy headed 2 payload payload_len

abbrev pub msg : List ℕ
msg = codes "This is fixed size demarcation"

abbrev pub msg1 : List ℕ
msg1 = codes "Hello Abhishek, "

abbrev pub msg2 : List ℕ
msg2 = codes "how are you"

-- The first rounds of the endless loop of tcp_client_fix_sizestr_sender.cpp, all they send.
unfoldable pub framed_rounds : ℕ → Outcome (List ℕ)
framed_rounds zero = done []
framed_rounds (suc n) = do
  sent ← send_msg true msg (length msg)
  rest ← framed_rounds n
  done (sent ++ rest)

-- The first rounds of the endless loop of tcp_client_string_sender.cpp.
unfoldable pub string_rounds : ℕ → List ℕ
string_rounds zero = []
string_rounds (suc n) = msg1 ++ (msg2 ++ string_rounds n)

-- `setup_tcp_communication` of the three programs up to the data: the host is looked up, and a
-- connection that fails ends the process.
unfoldable pub connect : Bool → Bool → Outcome (Unit {0})
connect false connected = fault
connect true false = exited
connect true true = done tt

-- tcp_client_fix_sizestr_sender.cpp: what it sends in its first rounds.
unfoldable pub fix_sizestr_session : Bool → Bool → ℕ → Outcome (List ℕ)
unfolding connect framed_rounds
fix_sizestr_session resolved connected n = do connect resolved connected; framed_rounds n

-- tcp_client_string_sender.cpp: what it sends in its first rounds.
unfoldable string_session : Bool → Bool → ℕ → Outcome (List ℕ)
unfolding connect string_rounds
string_session resolved connected n = do connect resolved connected; done (string_rounds n)

-- An unsigned number in the little-endian order of the host.
abbrev pub le_bytes : ℕ → ℕ → List ℕ
le_bytes zero n = []
le_bytes (suc k) n = n % 256 ∷ le_bytes k (n / 256)

-- `test_struct_t` of tcp_client.cpp, packed into 10 bytes.
pub record TestStruct : Type 0 where
  pub msg_size : ℕ
  pub a : ℕ
  pub b : ℕ

abbrev pub struct_bytes : TestStruct → List ℕ
struct_bytes t = le_bytes 2 t.msg_size ++ (le_bytes 4 t.a ++ le_bytes 4 t.b)

-- One round of tcp_client.cpp on the four numbers that the user enters: the bytes sent, or none if
-- the program closes the socket and exits.
unfoldable pub prompt_user : ℕ → ℕ → ℕ → ℕ → List ℕ
prompt_user a1 b1 a2 b2 =
    if a1 == 0 && b1 == 0
    then []
    else struct_bytes (record { msg_size = 10; a = a1; b = b1 })
      ++ struct_bytes (record { msg_size = 10; a = a2; b = b2 })

-- The rounds of tcp_client.cpp for what the user enters: `a1` and `b1` zero end the process.
unfoldable prompt_rounds : List (ℕ × ℕ × ℕ × ℕ) → List ℕ
unfolding prompt_user
prompt_rounds [] = []
prompt_rounds ((a1, b1, a2, b2) ∷ more) =
    let rest = prompt_rounds more in
    if a1 == 0 && b1 == 0 then [] else prompt_user a1 b1 a2 b2 ++ rest

unfoldable struct_session : Bool → Bool → List (ℕ × ℕ × ℕ × ℕ) → Outcome (List ℕ)
unfolding connect prompt_rounds
struct_session resolved connected entered = do
  connect resolved connected
  done (prompt_rounds entered)
