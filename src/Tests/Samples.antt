-- ===== src/Tests/Samples.antt =====
-- The concrete values that the instances share.
use linux_tcp_server.Base.{
  Outcome, done, blocked, fault, exited, exhausted, Returns, Bool, true, ◌==◌, if◌then◌else◌, ℕ,
  zero, suc, refl, false, some, List, [], ◌∷◌, arith, take, drop, replicate, length-take,
  take-append-drop, length, ◌<◌, ◌≡◌, ◌++◌, sym, ap,
}
use linux_tcp_server.Bcb.{Bcb}
use linux_tcp_server.Bcb.Valid.{IsValid}
use linux_tcp_server.Demarcar.{Kind, Demarcar}
use linux_tcp_server.Demarcar.Holds.{Holds}
use linux_tcp_server.ClientDb.{Platform}
use linux_tcp_server.Receive.{Recv, bytes, would_block}
use linux_tcp_server.Receive.Stream.{IsBounded}
use linux_tcp_server.Receive.Progress.{Socket}
use linux_tcp_server.ClientDb.{Call, close, epoll_add, epoll_del}
use linux_tcp_server.Service.Interest.{Epoll}

-- A ring of 8 bytes whose 3 bytes lie over its end.
abbrev pub ring : Bcb
ring = record {
  buffer = 67 ∷ 0 ∷ 0 ∷ 0 ∷ 0 ∷ 0 ∷ 65 ∷ 66 ∷ [];
  buffer_size = 8;
  front = 1;
  rear = 6;
  current_size = 3;
  locked = false;
}

pub ring-IsValid : IsValid ring
ring-IsValid = record {
  storage = refl;
  positive = omega arith;
  small = omega arith;
  rear_in = omega arith;
  size_in = omega arith;
  front_at = refl;
  unlocked = refl;
}

abbrev empty_ring : Bcb
empty_ring = record ring { front = 6; current_size = 0 }

empty_ring-IsValid : IsValid empty_ring
empty_ring-IsValid = record {
  storage = refl;
  positive = omega arith;
  small = omega arith;
  rear_in = omega arith;
  size_in = omega arith;
  front_at = refl;
  unlocked = refl;
}

abbrev pub demarcar : Kind → Demarcar
demarcar k = record { kind = k; bcb = some empty_ring; buffer = some (replicate 9 0) }

pub demarcar-Holds : (k : Kind) → Holds (demarcar k) k [] 8
demarcar-Holds k = record {
  ring = empty_ring;
  array = replicate 9 0;
  of_kind = refl;
  is_ring = refl;
  is_array = refl;
  valid = empty_ring-IsValid;
  bytes = refl;
  capacity = refl;
  roomy = omega arith;
}

-- A connection whose peer has sent some bytes and keeps it open: `recv` gives what is asked for.
abbrev pub pending : ℕ → ℕ → List ℕ → Recv × List ℕ
pending fd space [] = (would_block, [])
pending fd space (b ∷ bs) = (bytes (take space (b ∷ bs)), drop space (b ∷ bs))

pub pending-IsBounded : (fd space : ℕ) (w : List ℕ) → IsBounded space (pending fd space w).0
pending-IsBounded fd space [] = tt
pending-IsBounded fd space (b ∷ bs) = omega (arith, length-take space (b ∷ bs))

pub pending-gives :
    (fd space : ℕ) (w : List ℕ)
    → 0 < space
    → 0 < length w
    → (bs : List ℕ) × ((pending fd space w).0 ≡ bytes bs)
      × (0 < length bs)
      × (w ≡ bs ++ (pending fd space w).1)
pending-gives fd space [] room more = absurd (omega arith)
pending-gives fd space (b ∷ bs) room more = (
  take space (b ∷ bs),
  refl,
  omega (arith, length-take space (b ∷ bs)),
  sym (take-append-drop space (b ∷ bs)),
)

pub pending-dry : (fd space : ℕ) (w : List ℕ) → w ≡ [] → (pending fd space w).0 ≡ would_block
pending-dry fd space [] e = refl
pending-dry fd space (b ∷ bs) e = absurd (omega (arith, ap length e))

-- The socket of that connection, whatever its descriptor.
abbrev pub pending_socket : (fd : ℕ) → Socket (List ℕ) fd
pending_socket fd = record {
  recv = pending;
  pending = λ w. w;
  bounded = pending-IsBounded;
  gives = λ space w. pending-gives fd space w;
  dry = λ space w. pending-dry fd space w;
}

-- The same bytes, one at a time.
abbrev pub one_by_one : ℕ → ℕ → List ℕ → Recv × List ℕ
one_by_one fd zero w = (would_block, w)
one_by_one fd (suc space) [] = (would_block, [])
one_by_one fd (suc space) (b ∷ bs) = (bytes (b ∷ []), bs)

pub one_by_one-IsBounded : (fd space : ℕ) (w : List ℕ) → IsBounded space (one_by_one fd space w).0
one_by_one-IsBounded fd zero w = tt
one_by_one-IsBounded fd (suc space) [] = tt
one_by_one-IsBounded fd (suc space) (b ∷ bs) = omega arith

-- The result of a call that returns.
abbrev pub value_of : {A : Type 0} → Outcome A → A → A
value_of (done x) default = x
value_of _ default = default

pub returns_value :
    {A : Type 0} (P : A → Type 0) (m : Outcome A) (default : A)
    → Returns m P
    → m ≡ done (value_of m default)
returns_value P (done x) default r = refl
returns_value P blocked default r = absurd r
returns_value P fault default r = absurd r
returns_value P exited default r = absurd r
returns_value P exhausted default r = absurd r

-- An interest list that does what the calls say.
abbrev pub replayed : ℕ → List Call → Bool → Bool
replayed fd [] b = b
replayed fd (epoll_add g ∷ l) b = replayed fd l (if g == fd then true else b)
replayed fd (epoll_del g ∷ l) b = replayed fd l (if g == fd then false else b)
replayed fd (close g ∷ l) b = replayed fd l (if g == fd then false else b)

pub replayed-append :
    (fd : ℕ) (l m : List Call) (b : Bool) → replayed fd (l ++ m) b ≡ replayed fd m (replayed fd l b)
replayed-append fd [] m b = refl
replayed-append fd (epoll_add g ∷ l) m b = replayed-append fd l m _
replayed-append fd (epoll_del g ∷ l) m b = replayed-append fd l m _
replayed-append fd (close g ∷ l) m b = replayed-append fd l m _

instance abbrev pub replay : Epoll
replay = record {
  interest = λ fd l. replayed fd l false;
  created = λ fd. refl;
  added = λ fd g l. replayed-append fd l (epoll_add g ∷ []) false;
  deleted = λ fd g l. replayed-append fd l (epoll_del g ∷ []) false;
  closed = λ fd g l. replayed-append fd l (close g ∷ []) false;
}

-- A platform that lets undefined calls pass.
abbrev pub lenient : Platform
lenient = record { passes_rwlock = true; passes_end = true }
