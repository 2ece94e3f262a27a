-- ===== src/Demarcar/Fresh.antt =====
-- A demarcator just constructed.
use linux_tcp_server.Base.{ℕ, ◌<◌, refl, true, [], arith, replicate, length-replicate}
use linux_tcp_server.Bcb.Contract.{create_new-IsValid}
use linux_tcp_server.Demarcar.{Kind, construct, calloc_buffer}
use linux_tcp_server.Demarcar.Holds.{Holds}

-- It is in order and holds nothing, if the allocations succeed.
pub construct-Holds :
    (k : Kind) (len : ℕ) → 0 < len → len < 8192 → Holds (construct k true true true len) k [] len
unfolding construct calloc_buffer
construct-Holds k len pos small =
    let (b, is_new, valid, empty, space, size) = create_new-IsValid len pos (omega arith) in
    record {
      ring = b;
      array = replicate 8192 0;
      of_kind = refl;
      is_ring = is_new;
      is_array = refl;
      valid = valid;
      bytes = empty;
      capacity = size;
      roomy = omega (arith, length-replicate {A = ℕ} 8192 0);
    }
