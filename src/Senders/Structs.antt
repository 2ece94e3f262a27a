-- ===== src/Senders/Structs.antt =====
-- The structs of tcp_client.cpp against the variable-size demarcator of the server.
use linux_tcp_server.Base.{
  ℕ, ◌≤◌, ◌<◌, ◌≡◌, ◌≢◌, true, List, [], ◌++◌, arith, take, Returns, Returns-mono, ◌⊎◌,
}
use linux_tcp_server.Demarcar.{Demarcar, variable_size, process_msg}
use linux_tcp_server.Demarcar.Holds.{Holds}
use linux_tcp_server.Demarcar.Frames.{Delivers}
use linux_tcp_server.Demarcar.Feed.{process_msg_frames}
use linux_tcp_server.Demarcar.Oversized.{IsStalled, StillStalled, no_frame}
use linux_tcp_server.Senders.{struct_bytes, prompt_user}

-- The 20 bytes of a round, unless it ends the program.
two_structs : ℕ → ℕ → ℕ → ℕ → List ℕ
two_structs a1 b1 a2 b2 =
    struct_bytes (record { msg_size = 10; a = a1; b = b1 })
    ++ struct_bytes (record { msg_size = 10; a = a2; b = b2 })

prompt_user_lem :
    (a1 b1 a2 b2 : ℕ) → (a1 ≢ 0) ⊎ (b1 ≢ 0) → prompt_user a1 b1 a2 b2 ≡ two_structs a1 b1 a2 b2
unfolding prompt_user two_structs
prompt_user_lem a1 b1 a2 b2 h = ground arith

-- The little-endian size at the front of a struct reads as a length of 2560 in network order, which
-- no ring of up to 2561 bytes holds: given the structs of one round, of which the first is not all
-- zero, an empty demarcator for variable sizes in order with a ring of 20 to 2561 bytes delivers
-- nothing to the application, and the header stays at the front.
pub prompt_user_stalls :
    (a1 b1 a2 b2 : ℕ) (d : Demarcar) (size : ℕ)
    → (a1 ≢ 0) ⊎ (b1 ≢ 0)
    → Holds d variable_size [] size
    → 20 ≤ size
    → size < 2562
    → Returns
        (process_msg true d (prompt_user a1 b1 a2 b2) 20)
        (λ r. (r.0 ≡ []) × IsStalled r.1 size)
unfolding two_structs
prompt_user_stalls a1 b1 a2 b2 d size ne h fits small = rw (prompt_user_lem a1 b1 a2 b2 ne) (
    Returns-mono (Delivers variable_size (take 20 (two_structs a1 b1 a2 b2)) size)
      (StillStalled size) _
      (process_msg_frames d [] size (two_structs a1 b1 a2 b2) 20 h (omega arith) (omega arith)
        (omega arith))
      λ r p.
        no_frame size (two_structs a1 b1 a2 b2) r.0 r.1 (omega arith) (omega arith) (omega arith) p)
