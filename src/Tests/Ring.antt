-- ===== src/Tests/Ring.antt =====
-- Instances for the ring.
use mathlib.Core.Equiv.{IsEquiv}
use linux_tcp_server.Base.{
  ℕ, refl, ◌≤◌, ◌≡◌, Bool, true, false, if◌then◌else◌, some, List, [], ◌∷◌, ◌++◌, arith, length,
  take, drop, done, blocked,
}
use linux_tcp_server.Bcb.{Bcb, available_size, write, read, is_full}
use linux_tcp_server.Bcb.Valid.{IsValid, contents}
use linux_tcp_server.Bcb.Contract.{
  available_size-add-current, write_fits, read_held, read_short_locks,
}
use linux_tcp_server.Bcb.Fifo
use linux_tcp_server.Bcb.Fifo.{
  Call, write_call, read_call, available_call, full_call, number, truth, waits,
}
use linux_tcp_server.Bcb.Abstract.{shown, rings_are_bytes}
use linux_tcp_server.Bcb.History
use linux_tcp_server.Bcb.History.{view, run_refines}
use linux_tcp_server.Tests.Samples.{ring, ring-IsValid}

write_fits_example :
    (b' : Bcb) × (write (some ring) (some (1 ∷ 2 ∷ 3 ∷ 4 ∷ [])) 4 ≡ done (4, some b'))
    × IsValid b'
    × (contents b' ≡ contents ring ++ take 4 (1 ∷ 2 ∷ 3 ∷ 4 ∷ []))
    × (b'.buffer_size ≡ 8)
write_fits_example =
    write_fits (1 ∷ 2 ∷ 3 ∷ 4 ∷ []) 4 ring-IsValid
      (omega (arith, available_size-add-current ring-IsValid)) (omega arith)

read_held_example :
    (out : List ℕ) × (b' : Bcb) × (read (some ring) (some (0 ∷ 0 ∷ [])) 2 true
      ≡ done (2, some out, some b'))
    × (take 2 out ≡ take 2 (contents ring))
    × (length out ≡ 2)
    × IsValid b'
    × (contents b' ≡ (if true then drop 2 (contents ring) else contents ring))
    × (b'.buffer_size ≡ 8)
read_held_example = read_held (0 ∷ 0 ∷ []) 2 true ring-IsValid (omega arith) (omega arith)

read_short_locks_example :
    (b' : Bcb) × (read (some ring) (some []) 4 false ≡ done (0, some [], some b'))
    × ((out : List ℕ) (m : ℕ) (again : Bool) → read (some b') (some out) m again ≡ blocked)
    × ((src : List ℕ) (m : ℕ) → m ≤ available_size b' → write (some b') (some src) m ≡ blocked)
read_short_locks_example = read_short_locks [] 4 false ring-IsValid (omega arith)

-- A write, a read, a read of too many bytes, and a write that waits.
abbrev calls : List Call
calls =
    write_call (1 ∷ 2 ∷ 3 ∷ [])
    ∷ read_call 4 true
    ∷ available_call
    ∷ full_call
    ∷ read_call 9 false
    ∷ write_call (4 ∷ [])
    ∷ []

run_refines_example : History.run calls (some ring) ≡ Fifo.run calls (view ring)
run_refines_example = run_refines calls ring ring-IsValid

replies :
    History.run calls (some ring)
    ≡ number 3 []
      ∷ number 4 (65 ∷ 66 ∷ 67 ∷ 1 ∷ [])
      ∷ number 6 []
      ∷ truth false
      ∷ number 0 []
      ∷ waits
      ∷ []
unfolding History.run write read available_size is_full
replies = refl

rings_are_bytes_example : IsEquiv (shown 8)
rings_are_bytes_example = rings_are_bytes 8 (omega arith) (omega arith)
