-- ===== src/Tests/Demarcators.antt =====
-- Instances for the demarcators and for the loop over `recv`.
use linux_tcp_server.Base.{
  ℕ, ◌≤◌, ◌≡◌, ◌⊎◌, ◌<◌, refl, true, some, List, [], ◌∷◌, ◌++◌, map, arith, length, take, done,
  blocked, Returns,
}
use linux_tcp_server.Bcb.{available_size, write, read}
use linux_tcp_server.Demarcar.{
  fixed_size, variable_size, payload, process_msg, write_all, process_client_msg, process_frames,
  is_frame_ready, next_frame, deliver,
}
use linux_tcp_server.Demarcar.Holds.{Holds}
use linux_tcp_server.Demarcar.Frames.{Delivers}
use linux_tcp_server.Demarcar.Feed.{process_msg_frames, process_msg_overflow}
use linux_tcp_server.Demarcar.{payload}
use linux_tcp_server.Demarcar.Blocks.{Chop, DeliversBlocks, process_msg_blocks}
use linux_tcp_server.Demarcar.Stuck.{second_message_blocks}
use linux_tcp_server.Receive.{Drained, drain, idle, on_recv}
use linux_tcp_server.Receive.Stream.{Serves, drain-Serves}
use linux_tcp_server.Receive.Progress.{Ends, drain-Ends}
use linux_tcp_server.Receive.Segments.{segments_agree}
use linux_tcp_server.Tests.Samples.{
  ring, demarcar, demarcar-Holds, pending, pending-IsBounded, pending_socket, one_by_one,
  one_by_one-IsBounded,
}

abbrev frames : List ℕ
frames = 0 ∷ 2 ∷ 65 ∷ 66 ∷ 0 ∷ 1 ∷ 67 ∷ []

process_msg_frames_example :
    Returns (process_msg true (demarcar variable_size) frames 7) (Delivers variable_size frames 8)
process_msg_frames_example =
    process_msg_frames (demarcar variable_size) [] 8 frames 7 (demarcar-Holds variable_size)
      (omega arith) (omega arith) (omega arith)

process_msg_overflow_example :
    Returns
      (process_msg true (demarcar variable_size) (frames ++ frames) 14)
      (λ r. (r.0 ≡ []) × Holds r.1 variable_size (take 8 (frames ++ frames)) 8)
process_msg_overflow_example =
    process_msg_overflow (demarcar variable_size) variable_size [] 8 (frames ++ frames) 14
      (demarcar-Holds variable_size) (omega arith) (omega arith) (omega arith)

process_msg_blocks_example : Returns (process_msg true (demarcar (fixed_size 3)) frames 7) (λ r.
    ((length frames < 3) × (r.0 ≡ []) × Holds r.1 (fixed_size 3) frames 8)
    ⊎ ((3 ≤ length frames) × DeliversBlocks 3 frames 8 r))
process_msg_blocks_example =
    process_msg_blocks (demarcar (fixed_size 3)) 3 [] 8 frames 7 (demarcar-Holds (fixed_size 3))
      (omega arith) (omega arith) (omega arith) (omega arith)

second_message_blocks_example : Returns (process_msg true (demarcar (fixed_size 3)) frames 7) (λ r.
    ((rest : List ℕ) × Chop 3 frames (map payload r.0) rest)
    × (process_msg true r.1 frames 5 ≡ blocked))
second_message_blocks_example =
    second_message_blocks (demarcar (fixed_size 3)) 3 [] 8 frames frames 7 5
      (demarcar-Holds (fixed_size 3)) (omega arith) (omega arith) (omega arith) (omega arith)
      (omega arith) (omega arith) (omega arith)

drain-Serves_example :
    Returns (drain pending 5 true 7 (demarcar variable_size) (frames ++ frames)) (Serves [] 8)
drain-Serves_example =
    drain-Serves pending pending-IsBounded 5 7 (demarcar variable_size) (frames ++ frames) [] 8
      (demarcar-Holds variable_size) (omega arith) (omega arith)

-- What the loop ends with when the peer has sent two messages.
abbrev drained : Drained (List ℕ)
drained = record {
  deliveries =
      record { msg = 65 ∷ 66 ∷ 0 ∷ 0 ∷ 0 ∷ 0 ∷ 0 ∷ 0 ∷ 0 ∷ []; msg_size = 2 }
      ∷ record { msg = 67 ∷ 0 ∷ 0 ∷ 0 ∷ 0 ∷ 0 ∷ 0 ∷ 0 ∷ 0 ∷ []; msg_size = 1 }
      ∷ [];
  received = frames;
  msgd = record {
    kind = variable_size;
    bcb = some (record ring {
      buffer = 65 ∷ 66 ∷ 0 ∷ 1 ∷ 67 ∷ 0 ∷ 0 ∷ 2 ∷ [];
      front = 5;
      rear = 5;
      current_size = 0;
    });
    buffer = some (67 ∷ 0 ∷ 0 ∷ 0 ∷ 0 ∷ 0 ∷ 0 ∷ 0 ∷ 0 ∷ []);
  };
  world = [];
  ending = idle;
}

drained_run : drain pending 5 true 7 (demarcar variable_size) frames ≡ done drained
unfolding drain on_recv process_msg write_all process_client_msg process_frames is_frame_ready
    next_frame deliver available_size write read
drained_run = refl

one_by_one_run : drain one_by_one 8 true 9 (demarcar variable_size) frames ≡ done drained
unfolding drain on_recv process_msg write_all process_client_msg process_frames is_frame_ready
    next_frame deliver available_size write read
one_by_one_run = refl

segments_agree_example :
    (map payload drained.deliveries ≡ map payload drained.deliveries)
    × ((kept : List ℕ) × Holds drained.msgd variable_size kept 8
        × Holds drained.msgd variable_size kept 8)
segments_agree_example =
    segments_agree pending one_by_one pending-IsBounded one_by_one-IsBounded 5 8 7 9
      (demarcar variable_size) frames frames [] 8 drained drained (demarcar-Holds variable_size)
      (omega arith) (omega arith) drained_run one_by_one_run refl

drain-Ends_example :
    Returns
      (drain pending 15 true 7 (demarcar variable_size) (frames ++ frames))
      (Ends (frames ++ frames))
drain-Ends_example =
    drain-Ends (pending_socket 7) 15 (demarcar variable_size) (frames ++ frames) [] 8
      (demarcar-Holds variable_size) (omega arith) (omega arith) (omega arith)
