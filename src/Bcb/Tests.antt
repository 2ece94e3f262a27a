-- ===== src/Bcb/Tests.antt =====
-- Runs of the ring on small inputs, and instances of its theorems.
use linux_tcp_server.Base.{◌≡◌, refl, true, false, some, [], ◌∷◌, done}
use linux_tcp_server.Bcb.{Bcb, write, read}

abbrev wrapped : Bcb
wrapped = record {
  buffer = 9 ∷ 0 ∷ 7 ∷ 8 ∷ [];
  buffer_size = 4;
  front = 1;
  rear = 2;
  current_size = 3;
  locked = false;
}

read-wrapped :
    read (some wrapped) (some (0 ∷ 0 ∷ 0 ∷ [])) 3 true
    ≡ done (3, some (7 ∷ 8 ∷ 9 ∷ []), some (record wrapped { rear = 1; current_size = 0 }))
unfolding read
read-wrapped = refl

write-wrapped :
    write (some (record wrapped { front = 3; rear = 3; current_size = 0 })) (some (5 ∷ 6 ∷ [])) 2
    ≡ done (
      2,
      some (record wrapped { buffer = 6 ∷ 0 ∷ 7 ∷ 5 ∷ []; front = 1; rear = 3; current_size = 2 }),
    )
unfolding write
write-wrapped = refl
