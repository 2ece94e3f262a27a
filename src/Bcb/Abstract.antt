-- ===== src/Bcb/Abstract.antt =====
-- The rings of one capacity, taken up to what the calls of ByteCircularBuffer.cpp can tell of them.
use mathlib.Core.Equiv.{IsEquiv, Iso, iso_to_equiv}
use mathlib.Core.HLevel.{Σ_prop_path, Σ_set, prop→set}
use mathlib.Core.Quot
use mathlib.Core.Quot.{Quot, Quot-set}
use native.Mathlib.Bridge.{le_prop}
use native.Mathlib.Nat.{ℕ_set}
use mathlib.Core.List
use linux_tcp_server.Base.{
  ℕ, ◌-◌, ◌≤◌, ◌<◌, ◌≡◌, sym, ◌∙◌, ap, false, some, List, [], ◌∷◌, arith, length, take_all,
  ltb-false,
}
use linux_tcp_server.Bcb.{Bcb}
use linux_tcp_server.Bcb.Valid.{IsValid, contents}
use linux_tcp_server.Bcb.Contract.{length-contents, create_new-IsValid, write_fits}
use linux_tcp_server.Bcb.Fifo
use linux_tcp_server.Bcb.Fifo.{Call, available_call, read_call, Reply, number}
use linux_tcp_server.Bcb.History.{run, view, view-eq, IsValid-IsSound, run_refines}

-- A ring that nobody has locked, of the given capacity.
abbrev Sized : ℕ → Type 0
Sized size = (b : Bcb) × IsValid b × (b.buffer_size ≡ size)

-- No sequence of calls tells the two rings apart.
abbrev Alike : (size : ℕ) → Sized size → Sized size → Type 0
Alike size x y = (calls : List Call) → run calls (some x.0) ≡ run calls (some y.0)

abbrev pub Ring : ℕ → Type 0
Ring size = Quot (Alike size)

abbrev pub Bytes : ℕ → Type 0
Bytes size = (l : List ℕ) × (length l ≤ size)

Bytes-ext : (size : ℕ) (x y : Bytes size) → x.0 ≡ y.0 → x ≡ y
Bytes-ext size x y e = Σ_prop_path (λ l. le_prop) e

-- What the first reply gives.
abbrev number_of : List Reply → ℕ
number_of (number n out ∷ l) = n
number_of l = 0

abbrev bytes_of : List Reply → List ℕ
bytes_of (number n out ∷ l) = out
bytes_of l = []

contents-small : (size : ℕ) (x : Sized size) → length (contents x.0) ≤ size
contents-small size (b, v, e) = omega (arith, length-contents b, v)

-- The two readings of the replies, for the queue of a ring that is free.
available_reply :
    (size : ℕ) (x : Sized size)
    → number_of (run (available_call ∷ []) (some x.0)) ≡ size - length (contents x.0)
unfolding Fifo.run
available_reply size (b, v, e) =
    ap number_of (run_refines (available_call ∷ []) b (IsValid-IsSound b v))
    ∙ ap (λ n. n - length (contents b)) e

read_reply :
    (size : ℕ) (x : Sized size)
    → bytes_of (run (read_call (length (contents x.0)) false ∷ []) (some x.0)) ≡ contents x.0
unfolding Fifo.run
read_reply size (b, v, e) =
    ap bytes_of (run_refines (read_call (length (contents b)) false ∷ []) b (IsValid-IsSound b v))
    ∙ rw (v.unlocked, ltb-false (length (contents b)) (length (contents b)) (omega arith))
        (take_all _ (contents b) (omega arith))

module _ (size : ℕ) (x y : Sized size) where
  -- `BCBAvailableSize` shows how many bytes there are.
  length-Alike : Alike size x y → length (contents x.0) ≡ length (contents y.0)
  length-Alike same = omega (
    arith,
    available_reply size x,
    available_reply size y,
    ap number_of (same (available_call ∷ [])),
    contents-small size x,
    contents-small size y,
  )

  -- Then a read shows which.
  contents-Alike : Alike size x y → contents x.0 ≡ contents y.0
  contents-Alike same =
      sym (read_reply size x)
      ∙ ap bytes_of (same (read_call (length (contents x.0)) false ∷ []))
      ∙ ap (λ n. bytes_of (run (read_call n false ∷ []) (some y.0))) (length-Alike same)
      ∙ read_reply size y

  view-contents : contents x.0 ≡ contents y.0 → view x.0 ≡ view y.0
  view-contents same = view-eq x.0 _ _ _ (x.2 ∙ sym y.2) same (x.1.unlocked ∙ sym y.1.unlocked)

  Alike-contents : contents x.0 ≡ contents y.0 → Alike size x y
  Alike-contents same calls =
      run_refines calls x.0 (IsValid-IsSound x.0 x.1)
      ∙ ap (Fifo.run calls) (view-contents same)
      ∙ sym (run_refines calls y.0 (IsValid-IsSound y.0 y.1))

bytes_set : (size : ℕ) → IsSet (Bytes size)
bytes_set size = Σ_set (List.is_set ℕ_set) (λ l. prop→set le_prop)

-- The bytes of a ring, the oldest first.
pub shown : (size : ℕ) → Ring size → Bytes size
shown size =
    Quot.lift (bytes_set size) (λ x. (contents x.0, contents-small size x))
      (λ x y same. Bytes-ext size _ _ (contents-Alike size x y same))

-- A new ring that the bytes were written to.
filled :
    (size : ℕ) (l : Bytes size) → 0 < size → size < 65536 → (x : Sized size) × (contents x.0 ≡ l.0)
filled size (l, small) pos bound =
    let (b, made, v, empty, room, cap) = create_new-IsValid size pos bound in
    let (b', ran, v', same, cap') = write_fits l (length l) v (omega arith) (omega arith) in
    ((b', v', cap' ∙ cap), same ∙ rw empty (take_all (length l) l (omega arith)))

abbrev of_bytes : (size : ℕ) → 0 < size → size < 65536 → Bytes size → Ring size
of_bytes size pos bound l = Quot.mk (filled size l pos bound).0

-- For a positive capacity that fits a `uint16_t`, the valid rings of that capacity, taken up to what
-- sequences of calls can tell of them, are the sequences of at most that many bytes: the map from a ring
-- to its bytes, the oldest first, is an equivalence.
pub rings_are_bytes : (size : ℕ) → 0 < size → size < 65536 → IsEquiv (shown size)
unfolding shown
rings_are_bytes size pos bound = (iso_to_equiv iso).1
  where
    of_ring : Sized size → Bytes size
    of_ring x = (contents x.0, contents-small size x)

    iso : Iso (Ring size) (Bytes size)
    iso = record {
      fun = shown size;
      inv = of_bytes size pos bound;
      rinv = λ l.
          Bytes-ext size (shown size (of_bytes size pos bound l)) l (filled size l pos bound).1;
      linv =
          Quot.ind (λ r. Quot-set _ _)
            (λ x. Quot.sound (
              Alike-contents size (filled size (of_ring x) pos bound).0 x
                (filled size (of_ring x) pos bound).1));
    }
