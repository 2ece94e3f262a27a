-- ===== src/Demarcar.antt =====
-- TcpMsgDemarcar.cpp, TcpMsgVariabSizeDemarcar.cpp and TcpMsgFixedSizeDemarcar.cpp: the classes that
-- cut a client's byte stream into messages. A class is a `Kind`; the base class's fields and methods
-- are those of `Demarcar`.
pub mod Holds
pub mod Fresh
pub mod Frames
pub mod Feed
pub mod Oversized
pub mod Blocks
pub mod Stuck
mod Tests
use linux_tcp_server.Base.{
  ℕ, zero, suc, ◌+◌, ◌-◌, ◌*◌, ◌/◌, Bool, true, false, Option, none, some, List, [], ◌∷◌, length,
  get_or, set, take, drop, replicate, ltb, leb, ◌==◌, if◌then◌else◌, Outcome, done, blocked, fault,
  exhausted, ◌>>=◌,
}
use linux_tcp_server.Stream.{ntohs}
use linux_tcp_server.Bcb.{Bcb, u16, create_new, available_size, write, read}

pub data Kind : Type 0 where
  fixed_size : ℕ → Kind
  variable_size : Kind

pub record Demarcar : Type 0 where
  pub kind : Kind
  pub bcb : Option Bcb
  pub buffer : Option (List ℕ)

-- One call of `client_msg_recvd`: the bytes behind the pointer, and the size.
pub record Delivery : Type 0 where
  pub msg : List ℕ
  pub msg_size : ℕ

abbrev pub payload : Delivery → List ℕ
payload m = take m.msg_size m.msg

abbrev pub default_cbc_size : ℕ
default_cbc_size = 256

abbrev pub max_client_buffer_size : ℕ
max_client_buffer_size = 8192

abbrev hdr_msg_size : ℕ
hdr_msg_size = 2

-- A read through a pointer.
abbrev pub deref {ℓ} : {A : Type ℓ} → Option A → Outcome A
deref none = fault
deref (some a) = done a

unfoldable calloc_buffer : Bool → Option (List ℕ)
calloc_buffer false = none
calloc_buffer true = some (replicate max_client_buffer_size 0)

-- The constructor of the base class for a ring of `len` bytes. The flags say which of the calls of
-- `calloc` succeed.
unfoldable pub construct : Kind → Bool → Bool → Bool → ℕ → Demarcar
unfolding calloc_buffer
construct kind hdr ring buf len = record {
  kind = kind;
  bcb = create_new hdr ring len;
  buffer = calloc_buffer buf;
}

-- `Destroy` frees both, and the destructor asserts that this was done.
unfoldable pub destroy : Demarcar → Demarcar
destroy d = record d { bcb = none; buffer = none }

unfoldable pub destructor : Demarcar → Outcome (Unit {0})
destructor d = elim d.bcb [
  | some b ↦ fault
  | none ↦ elim d.buffer [ some b ↦ fault | none ↦ done tt ]
]

unfoldable can_accept_more_data : Demarcar → Outcome Bool
can_accept_more_data d = do b ← deref d.bcb; done (ltb 0 (available_size b))

-- The memory of `msg_len_net`.
abbrev pub two_bytes : List ℕ
two_bytes = 0 ∷ 0 ∷ []

-- `this->buffer[bytes_read] = 0`, and the callback, which faults if the application has set none.
unfoldable pub deliver : Bool → List ℕ → ℕ → Outcome Delivery
deliver registered buf n =
    if ltb n (length buf)
    then (if registered then done (record { msg = set buf n 0; msg_size = n }) else fault)
    else fault

-- `TcpMsgVariabSizeDemarcar::IsBufferReadyToFlush`. A length over the limit is only reported.
unfoldable pub is_frame_ready : Demarcar → Outcome (Bool × Demarcar)
is_frame_ready d = do
  b ← deref d.bcb
  if ltb b.current_size hdr_msg_size then done (false, d) else (do
    (n, hdr, bcb) ← read d.bcb (some two_bytes) 2 false
    msg_len_net ← deref hdr
    after ← deref bcb
    done (leb (2 + ntohs msg_len_net) after.current_size, record d { bcb = bcb }))

-- One round of the loop of `TcpMsgVariabSizeDemarcar::ProcessClientMsg`.
unfoldable pub next_frame : Bool → Demarcar → Outcome (Delivery × Demarcar)
next_frame registered d = do
  (n, hdr, bcb) ← read d.bcb (some two_bytes) hdr_msg_size true
  msg_len_net ← deref hdr
  (bytes_read, buffer, bcb') ← read bcb d.buffer (ntohs msg_len_net) true
  buf ← deref buffer
  m ← deliver registered buf bytes_read
  done (m, record d { bcb = bcb'; buffer = some m.msg })

unfoldable pub process_frames : ℕ → Bool → Demarcar → Outcome (List Delivery × Demarcar)
process_frames zero registered d = exhausted
process_frames (suc fuel) registered d = do
  (ready, d') ← is_frame_ready d
  elim ready [
    | false ↦ done ([], d')
    | true ↦ (do
      (m, e) ← next_frame registered d'
      (ms, e') ← process_frames fuel registered e
      done (m ∷ ms, e'))
  ]

-- `TcpMsgFixedSizeDemarcar::IsBufferReadyToFlush`
unfoldable pub is_block_ready : ℕ → Demarcar → Outcome Bool
is_block_ready msg_fixed_size d = do
  b ← deref d.bcb
  if msg_fixed_size == 0 then fault else done (ltb 0 (b.current_size / msg_fixed_size))

-- The loop of `TcpMsgFixedSizeDemarcar::ProcessClientMsg`
unfoldable pub process_blocks : ℕ → Bool → ℕ → Demarcar → Outcome (List Delivery × Demarcar)
process_blocks zero registered msg_fixed_size d = exhausted
process_blocks (suc fuel) registered msg_fixed_size d = do
  (bytes_read, buffer, bcb) ← read d.bcb d.buffer msg_fixed_size true
  let next = (do
    buf ← deref buffer
    m ← deliver registered buf bytes_read
    (ms, e) ←
        process_blocks fuel registered msg_fixed_size (record d { bcb = bcb; buffer = some m.msg })
    done (m ∷ ms, e))
  if bytes_read == 0 then done ([], record d { bcb = bcb; buffer = buffer }) else next

-- Both loops take at least one byte out of the ring in each round.
abbrev pub rounds : Demarcar → ℕ
rounds d = elim d.bcb [ none ↦ 1 | some b ↦ suc b.current_size ]

-- The overrides of `ProcessClientMsg`
unfoldable pub process_by : Kind → Bool → Demarcar → Outcome (List Delivery × Demarcar)
process_by variable_size registered d = process_frames (rounds d) registered d
process_by (fixed_size n) registered d = do
  ready ← is_block_ready n d
  elim ready [ false ↦ done ([], d) | true ↦ process_blocks (suc (rounds d)) registered n d ]

-- The virtual `ProcessClientMsg`
unfoldable pub process_client_msg : Bool → Demarcar → Outcome (List Delivery × Demarcar)
unfolding process_by
process_client_msg registered d = process_by d.kind registered d

-- The loop of `ProcessMsg`. The result tells whether all bytes were written; if the ring is full the
-- rest is dropped.
unfoldable pub write_all : ℕ → Demarcar → List ℕ → ℕ → Outcome (Bool × Demarcar)
write_all zero d ptr remaining = exhausted
write_all (suc fuel) d ptr remaining =
    let more = (do
      b ← deref d.bcb
      let space = available_size b
      let next = (do
        (written, bcb) ← write d.bcb (some ptr) (if ltb remaining space then remaining else space)
        write_all fuel (record d { bcb = bcb }) (drop written ptr)
            (u16 (remaining + 65536 - written)))
      if space == 0 then done (false, d) else next) in
    if remaining == 0 then done (true, d) else more

-- `ProcessMsg`. Bytes that filled the ring are not looked at until the next call.
unfoldable pub process_msg : Bool → Demarcar → List ℕ → ℕ → Outcome (List Delivery × Demarcar)
process_msg registered d msg_recvd msg_size = do
  (all, d') ← write_all (suc msg_size) d msg_recvd msg_size
  elim all [ false ↦ done ([], d') | true ↦ process_client_msg registered d' ]
