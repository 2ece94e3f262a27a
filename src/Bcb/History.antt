-- ===== src/Bcb/History.antt =====
-- A ring against its contract, the queue of Bcb/Fifo, over any sequence of calls.
use linux_tcp_server.Base.{
  ℕ, ◌+◌, ◌-◌, ◌≤◌, ◌<◌, ◌≡◌, refl, sym, ◌∙◌, ap, ap₂, Bool, true, false, Option, none, some, List,
  [], ◌∷◌, ◌++◌, arith, length, take, replicate, if◌then◌else◌, Outcome, done, blocked, fault,
  exited, exhausted, ltb-true, ltb-false, ltb_lt, ltb_ge, ltb, ◌==◌, take_all, length-replicate,
}
use linux_tcp_server.Bcb.{Bcb, available_size, write, write_some, read, mutex_lock, is_full, reset}
use linux_tcp_server.Bcb.Valid.{IsValid, contents}
use linux_tcp_server.Bcb.Contract.{
  length-contents, available_size-add-current, write_fits, read_held, read_short, reset-IsValid,
}
use linux_tcp_server.Bcb.Fifo
use linux_tcp_server.Bcb.Fifo.{
  Call, write_call, read_call, available_call, full_call, reset_call, Reply, number, truth, nothing,
  waits, undefined, Fifo,
}

-- The text of a read that was given: the bytes that the returned number tells of.
abbrev shown : ℕ → Option (List ℕ) → Reply
shown n none = undefined
shown n (some out) = number n (take n out)

-- A run stops at a call that does not return.
abbrev seen {ℓ} : {A : Type ℓ} → Outcome A → (A → List Reply) → List Reply
seen (done a) k = k a
seen blocked k = waits ∷ []
seen fault k = undefined ∷ []
seen exited k = undefined ∷ []
seen exhausted k = undefined ∷ []

-- The functions that read the struct without a test of the pointer.
abbrev at : Option Bcb → (Bcb → List Reply) → List Reply
at none k = undefined ∷ []
at (some b) k = k b

-- The replies of the code to a sequence of calls.
unfoldable pub run : List Call → Option Bcb → List Reply
run [] b = []
run (write_call src ∷ calls) b =
    seen (write b (some src) (length src)) λ r. number r.0 [] ∷ run calls r.1
run (read_call n remove ∷ calls) b =
    seen (read b (some (replicate n 0)) n remove) λ r. shown r.0 r.1 ∷ run calls r.2
run (available_call ∷ calls) b = at b λ r. number (available_size r) [] ∷ run calls b
run (full_call ∷ calls) b = at b λ r. truth (is_full r) ∷ run calls b
run (reset_call ∷ calls) b = at b λ r. nothing ∷ run calls (some (reset r))

abbrev pub view : Bcb → Fifo
view b = record { capacity = b.buffer_size; bytes = contents b; taken = b.locked }

-- A valid ring, or one whose lock was taken.
abbrev pub IsSound : Bcb → Type 0
IsSound b = IsValid (record b { locked = false })

IsSound-IsValid : (b : Bcb) → IsSound b → b.locked ≡ false → IsValid b
IsSound-IsValid b v free = record {
  storage = v.storage;
  positive = v.positive;
  small = v.small;
  rear_in = v.rear_in;
  size_in = v.size_in;
  front_at = v.front_at;
  unlocked = free;
}

pub IsValid-IsSound : (b : Bcb) → IsValid b → IsSound b
IsValid-IsSound b v = record {
  storage = v.storage;
  positive = v.positive;
  small = v.small;
  rear_in = v.rear_in;
  size_in = v.size_in;
  front_at = v.front_at;
  unlocked = refl;
}

-- The queue that a ring shows, by its parts.
pub view-eq :
    (b : Bcb) (k : ℕ) (c : List ℕ) (t : Bool)
    → b.buffer_size ≡ k
    → contents b ≡ c
    → b.locked ≡ t
    → view b ≡ record { capacity = k; bytes = c; taken = t }
view-eq b k c t cap same lock = λ i. record { capacity = cap i; bytes = same i; taken = lock i }

chosen : (t : Bool) (x y : List Reply) → t ≡ true → x ≡ (if t then x else y)
chosen true x y e = refl
chosen false x y e = cc

otherwise : (t : Bool) (x y : List Reply) → t ≡ false → y ≡ (if t then x else y)
otherwise true x y e = cc
otherwise false x y e = refl

write_refused :
    (b : Bcb) (src : List ℕ)
    → b.buffer_size < length src + b.current_size
    → write (some b) (some src) (length src) ≡ done (0, some b)
unfolding write write_some
write_refused b src h = rw (ltb-true b.buffer_size (length src + b.current_size) h)

write_waits :
    (b : Bcb) (src : List ℕ)
    → length src + b.current_size ≤ b.buffer_size
    → b.locked ≡ true
    → write (some b) (some src) (length src) ≡ blocked
unfolding write write_some mutex_lock
write_waits b src h taken = rw (ltb-false b.buffer_size (length src + b.current_size) h, taken)

read_waits :
    (b : Bcb) (dst : List ℕ) (n : ℕ) (remove : Bool)
    → b.locked ≡ true
    → read (some b) (some dst) n remove ≡ blocked
unfolding read mutex_lock
read_waits b dst n remove taken = rw taken

-- Each call gives the reply of the queue and leaves a ring that shows the queue's next state.
module _ (calls : List Call)
    (later : (b : Bcb) → IsSound b → run calls (some b) ≡ Fifo.run calls (view b)) where
  after : (b : Bcb) (q : Fifo) → IsSound b → view b ≡ q → run calls (some b) ≡ Fifo.run calls q
  after b q v e = later b v ∙ ap (Fifo.run calls) e

  write_step :
      (b : Bcb) (src : List ℕ) (over taken : Bool)
      → ltb b.buffer_size (length src + length (contents b)) ≡ over
      → b.locked ≡ taken
      → IsSound b
      → run (write_call src ∷ calls) (some b) ≡ Fifo.run (write_call src ∷ calls) (view b)
  unfolding run Fifo.run
  write_step b src true taken e lock v =
      rw (e, write_refused b src (omega (arith, length-contents b, ltb_lt b.buffer_size _ e)))
        (ap (λ l. number 0 [] ∷ l) (later b v))
  write_step b src false true e lock v =
      rw (write_waits b src (omega (arith, length-contents b, ltb_ge b.buffer_size _ e)) lock, e)
        (chosen b.locked _ _ lock)
  write_step b src false false e lock v =
      let w = IsSound-IsValid b v lock in
      let (b', ran, v', same, cap) =
        write_fits src (length src) w
          (omega (arith, length-contents b, available_size-add-current w, ltb_ge b.buffer_size _ e))
          (omega arith) in
      rw (ran, e)
        (ap (λ l. number (length src) [] ∷ l)
            (after b' _ (IsValid-IsSound b' v') (
              view-eq b' _ _ _ cap (same ∙ ap (λ l. contents b ++ l) (take_all _ src (omega arith)))
                (v'.unlocked ∙ sym lock)))
          ∙ otherwise b.locked _ _ lock)

  read_step :
      (b : Bcb) (n : ℕ) (remove short taken : Bool)
      → ltb (length (contents b)) n ≡ short
      → b.locked ≡ taken
      → IsSound b
      → run (read_call n remove ∷ calls) (some b) ≡ Fifo.run (read_call n remove ∷ calls) (view b)
  unfolding run Fifo.run
  read_step b n remove short true e lock v =
      rw (read_waits b (replicate n 0) n remove lock) (chosen b.locked _ _ lock)
  read_step b n remove true false e lock v =
      let w = IsSound-IsValid b v lock in
      rw
        (
          read_short (replicate n 0) n remove w
              (omega (arith, length-contents b, ltb_lt (length (contents b)) n e)),
          e,
        )
        (ap (λ l. number 0 [] ∷ l) (later (record b { locked = true }) v)
          ∙ otherwise b.locked _ _ lock)
  read_step b n remove false false e lock v =
      let w = IsSound-IsValid b v lock in
      let (out, b', ran, same, len, v', held, cap) =
        read_held (replicate n 0) n remove w (omega (arith, ltb_ge (length (contents b)) n e))
          (omega (arith, length-replicate {A = ℕ} n 0)) in
      rw (ran, e)
        (ap₂ (λ x l. number n x ∷ l) same
            (after b' _ (IsValid-IsSound b' v')
              (view-eq b' _ _ _ cap held (v'.unlocked ∙ sym lock)))
          ∙ otherwise b.locked _ _ lock)

available-eq : (b : Bcb) → IsSound b → available_size b ≡ b.buffer_size - length (contents b)
unfolding available_size
available-eq b v = omega (arith, length-contents b, v)

full-eq : (b : Bcb) → is_full b ≡ (length (contents b) == b.buffer_size)
unfolding is_full
full-eq b = ap (λ n. n == b.buffer_size) (sym (length-contents b))

-- No sequence of calls tells a valid ring from the bounded queue of its contents: the numbers
-- returned and the bytes read are the same, and so is the call that waits for a lock that an earlier
-- read of too many bytes kept. No call is undefined.
pub run_refines :
    (calls : List Call) (b : Bcb) → IsSound b → run calls (some b) ≡ Fifo.run calls (view b)
unfolding run Fifo.run reset
run_refines [] b v = refl
run_refines (write_call src ∷ calls) b v =
    write_step calls (run_refines calls) b src _ _ refl refl v
run_refines (read_call n remove ∷ calls) b v =
    read_step calls (run_refines calls) b n remove _ _ refl refl v
run_refines (available_call ∷ calls) b v =
    ap₂ (λ n l. number n [] ∷ l) (available-eq b v) (run_refines calls b v)
run_refines (full_call ∷ calls) b v = ap₂ (λ x l. truth x ∷ l) (full-eq b) (run_refines calls b v)
run_refines (reset_call ∷ calls) b v =
    ap (λ l. nothing ∷ l) (run_refines calls (reset b) (reset-IsValid v).0)
