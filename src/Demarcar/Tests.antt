-- ===== src/Demarcar/Tests.antt =====
-- Runs of the demarcators on small inputs.
use linux_tcp_server.Base.{◌≡◌, refl, true, false, some, [], ◌∷◌, done, ◌>>=◌, map, replicate}
use linux_tcp_server.Bcb.{Bcb, available_size, write, read}
use linux_tcp_server.Demarcar.{
  Kind, fixed_size, variable_size, Demarcar, payload, process_msg, write_all, process_client_msg,
  process_frames, is_frame_ready, next_frame, deliver, is_block_ready, process_blocks,
}

abbrev small_ring : Bcb
small_ring = record {
  buffer = replicate 8 0;
  buffer_size = 8;
  front = 0;
  rear = 0;
  current_size = 0;
  locked = false;
}

abbrev small : Kind → Demarcar
small k = record { kind = k; bcb = some small_ring; buffer = some (replicate 9 0) }

-- What a run of `process_msg` computes with.
abbrev running : Unit {0}
unfolding write_all process_client_msg process_frames is_frame_ready next_frame deliver
    is_block_ready process_blocks available_size write read
running = tt

frames_run :
    (process_msg true (small variable_size) (0 ∷ 2 ∷ 65 ∷ 66 ∷ 0 ∷ 1 ∷ 67 ∷ []) 7 >>= λ r.
    done (map payload r.0))
    ≡ done ((65 ∷ 66 ∷ []) ∷ (67 ∷ []) ∷ [])
unfolding process_msg running
frames_run = refl

blocks_run :
    (process_msg true (small (fixed_size 3)) (1 ∷ 2 ∷ 3 ∷ 4 ∷ 5 ∷ 6 ∷ 7 ∷ []) 7 >>= λ r.
    done (map payload r.0))
    ≡ done ((1 ∷ 2 ∷ 3 ∷ []) ∷ (4 ∷ 5 ∷ 6 ∷ []) ∷ [])
unfolding process_msg running
blocks_run = refl
