-- ===== src/ClientDb/Purge.antt =====
-- What `Purge` does to the clients, and what `DisplayClientDb` needs.
use linux_tcp_server.Base.{
  Bool-cases, Returns-done, fault_carried, fault, Bool, inl, inr, ◌⊎◌, ◌>>◌, ℕ, zero, suc, ◌≡◌,
  refl, sym, ◌≢◌, true, false, ◌&&◌, not, Option, none, some, List, [], ◌∷◌, ◌++◌, arith, length,
  find, erase, find-erase, ◌==◌, ◌||◌, if◌then◌else◌, done, Returns, Returns-bind, eq_false,
  append-nil, append_assoc, ap, ap₂, ◌∙◌, ◌<◌, Returns-mono, ℕ_discrete,
}
use mathlib.Core.Bool.{false≢true}
use linux_tcp_server.Demarcar.{Demarcar, destroy, destructor}
use linux_tcp_server.TcpClient.{TcpClient, holds, unset, abort, drop_msgd}
use linux_tcp_server.ClientDb.{
  Host, Call, close, still_valid, abort_fd, mem, remove, TcpClientDbManager, abort_client,
  purge_loop, purge, Platform, pass, read_at,
}

-- A live client whose fields that `Abort` reads are set.
pub record IsOwned (p : ℕ) (h : Host) : Type 0 where
  pub client : TcpClient
  pub fd : ℕ
  pub demarcar : Option Demarcar
  pub is_client : find p h.clients ≡ some client
  pub is_fd : client.comm_fd ≡ holds fd
  pub is_msgd : client.msgd ≡ holds demarcar

-- No two pointers of the list are equal.
abbrev pub Distinct : List ℕ → Type 0
Distinct [] = Unit
Distinct (p ∷ l) = (mem p l ≡ false) × Distinct l

-- The heap of `h'` is that of `h` without the clients of `l`.
abbrev pub Lacks : List ℕ → Host → Host → Type 0
Lacks l h h' = (q : ℕ) → find q h'.clients ≡ (if mem q l then none else find q h.clients)

-- The call of `close` that `Abort` makes for a client.
abbrev pub closing_client : Option TcpClient → List Call
closing_client none = []
closing_client (some c) = elim c.comm_fd [
  | unset ↦ []
  | holds fd ↦ if fd == 0 then [] else close fd ∷ []
]

-- These calls for a list of pointers.
abbrev pub closings : Host → List ℕ → List Call
closings h [] = []
closings h (p ∷ l) = closing_client (find p h.clients) ++ closings h l

pub remove-absent : (p : ℕ) (l : List ℕ) → mem p l ≡ false → remove p l ≡ l
remove-absent p [] e = refl
remove-absent p (q ∷ l) e = ground (arith, remove-absent p l)

pub mem-remove : (p q : ℕ) (l : List ℕ) → mem q (remove p l) ≡ (not (p == q) && mem q l)
mem-remove p q [] = ground arith
mem-remove p q (r ∷ l) = ground (arith, mem-remove p q l)

drop_msgd-done : (d : Option Demarcar) → drop_msgd d ≡ done tt
unfolding drop_msgd destructor destroy
drop_msgd-done none = refl
drop_msgd-done (some d) = refl

-- A client that owns its fields is aborted: it is off the heap, and its descriptor is closed.
pub abort_client_lem :
    (p : ℕ) (h : Host)
    → IsOwned p h
    → Returns (abort_client p h) (λ h'.
      (h'.clients ≡ erase p h.clients) × (h'.calls ≡ h.calls ++ closing_client (find p h.clients)))
unfolding abort_client abort abort_fd
abort_client_lem p h o =
    rw (o.is_client, o.is_fd, o.is_msgd, drop_msgd-done o.demarcar)
      (elim (ℕ_discrete o.fd 0) [
        | yes zero_fd ↦ rw (zero_fd, o.is_client) (refl, sym (append-nil h.calls))
        | no some_fd ↦ rw (eq_false o.fd 0 some_fd, o.is_client) (refl, refl)
      ])

closings_cong :
    (h h' : Host) (l : List ℕ)
    → ((q : ℕ) → mem q l ≡ true → find q h'.clients ≡ find q h.clients)
    → closings h' l ≡ closings h l
closings_cong h h' [] same = refl
closings_cong h h' (p ∷ l) same =
    ap₂ (λ x y. closing_client x ++ y) (same p (ground arith))
      (closings_cong h h' l (λ q e. same q (ground arith)))

pub other : (p q : ℕ) (l : List ℕ) → mem p l ≡ false → mem q l ≡ true → p ≢ q
other p q l absent there e = false≢true (sym absent ∙ ap (λ x. mem x l) e ∙ there)

pub next_valid : (p : ℕ) (l : List ℕ) → mem p l ≡ false → still_valid p l ≡ done tt
unfolding still_valid
next_valid p [] e = refl
next_valid p (q ∷ l) e = ground arith

-- An owned client stays so when another one is erased.
pub IsOwned-erase :
    (p q : ℕ) (h h' : Host) → h'.clients ≡ erase p h.clients → p ≢ q → IsOwned q h → IsOwned q h'
IsOwned-erase p q h h' e differ o = record {
  client = o.client;
  fd = o.fd;
  demarcar = o.demarcar;
  is_client =
      ap (find q) e
      ∙ find-erase p q h.clients
      ∙ ap (λ b. if b then none else find q h.clients) (eq_false p q differ)
      ∙ o.is_client;
  is_fd = o.is_fd;
  is_msgd = o.is_msgd;
}

-- What a purge of the list leaves: no list, no client of it on the heap, and closed descriptors.
abbrev Purges : List ℕ → Host → TcpClientDbManager × Host → Type 0
Purges l h (m, h') = (m.tcp_client_db ≡ []) × Lacks l h h' × (h'.calls ≡ h.calls ++ closings h l)

purge_next :
    (p : ℕ) (l : List ℕ) (h h' : Host) (r : TcpClientDbManager × Host)
    → mem p l ≡ false
    → h'.clients ≡ erase p h.clients
    → h'.calls ≡ h.calls ++ closing_client (find p h.clients)
    → Purges l h' r
    → Purges (p ∷ l) h r
purge_next p l h h' r absent less closed (none_left, lacks, calls) = (
  none_left,
  (λ q.
      lacks q
      ∙ ap (λ x. if mem q l then none else x) (ap (find q) less ∙ find-erase p q h.clients)
      ∙ both q),
  calls
      ∙ ap₂ (λ x y. x ++ y) closed (closings_cong h h' l kept)
      ∙ append_assoc h.calls (closing_client (find p h.clients)) (closings h l),
)
  where
    both :
        (q : ℕ)
        → (if mem q l then none else (if p == q then none else find q h.clients))
          ≡ (if (p == q) || mem q l then none else find q h.clients)
    both q = ground arith

    kept : (q : ℕ) → mem q l ≡ true → find q h'.clients ≡ find q h.clients
    kept q there =
        ap (find q) less
        ∙ find-erase p q h.clients
        ∙ ap (λ b. if b then none else find q h.clients) (eq_false p q (other p q l absent there))

pub same_head : (p : ℕ) (l : List ℕ) → remove p (p ∷ l) ≡ remove p l
same_head p l = ground arith

-- A read that passes, and what is always read.
pub read_at-passes : (u : Platform) (l : List ℕ) → u.passes_end ≡ true → read_at u l ≡ done tt
unfolding read_at
read_at-passes u [] e = ap pass e
read_at-passes u (p ∷ l) e = refl

pub read_at_node : (u : Platform) (p : ℕ) (l : List ℕ) → read_at u (l ++ p ∷ []) ≡ done tt
unfolding read_at
read_at_node u p [] = refl
read_at_node u p (q ∷ l) = refl

module _ (u : Platform) where
  purge_loop_lem :
      (fuel : ℕ) (l : List ℕ) (m : TcpClientDbManager) (h : Host)
      → u.passes_end ≡ true
      → length l < fuel
      → m.tcp_client_db ≡ l
      → Distinct l
      → ((p : ℕ) → mem p l ≡ true → IsOwned p h)
      → Returns (purge_loop u fuel l m h) (Purges l h)
  unfolding purge_loop
  purge_loop_lem zero l m h pass enough e apart owned = omega arith
  purge_loop_lem (suc fuel) [] m h pass enough e apart owned =
      (e, λ q. refl, sym (append-nil h.calls))
  purge_loop_lem (suc fuel) (p ∷ l) m h pass enough e (absent, apart) owned =
      rw (read_at-passes u l pass) (
        Returns-bind
          (λ h'.
            (h'.clients ≡ erase p h.clients)
            × (h'.calls ≡ h.calls ++ closing_client (find p h.clients)))
          (Purges (p ∷ l) h) (abort_client p h) _ (abort_client_lem p h (owned p (ground arith)))
          λ h' k.
            rw (next_valid p l absent, remove-absent p l absent)
              (Returns-mono (Purges l h') (Purges (p ∷ l) h) _
                (purge_loop_lem fuel l (record m { tcp_client_db = remove p m.tcp_client_db }) h'
                  pass (omega arith) (ap (remove p) e ∙ same_head p l ∙ remove-absent p l absent)
                  apart
                  (λ q there.
                    IsOwned-erase p q h h' k.0 (other p q l absent there) (owned q (ground arith))))
                (λ r. purge_next p l h h' r absent k.0 k.1)))

  -- The read after the last client is undefined.
  purge_loop_at_end :
      (fuel : ℕ) (p : ℕ) (l : List ℕ) (m : TcpClientDbManager) (h : Host)
      → u.passes_end ≡ false
      → length l < fuel
      → Distinct (p ∷ l)
      → ((q : ℕ) → mem q (p ∷ l) ≡ true → IsOwned q h)
      → purge_loop u (suc fuel) (p ∷ l) m h ≡ fault
  unfolding purge_loop read_at
  purge_loop_at_end fuel p [] m h stuck enough apart owned = rw stuck refl
  purge_loop_at_end zero p (q ∷ l) m h stuck enough apart owned =
      let none_fits : ⊥ = omega arith in absurd none_fits
  purge_loop_at_end (suc fuel) p (q ∷ l) m h stuck enough (absent, apart) owned =
      let (h', aborts, (erased, closed)) =
        Returns-done
          (λ x.
            (x.clients ≡ erase p h.clients)
            × (x.calls ≡ h.calls ++ closing_client (find p h.clients)))
          (abort_client p h) (abort_client_lem p h (owned p (ground arith))) in
      rw (aborts, next_valid p (q ∷ l) absent, remove-absent p (q ∷ l) absent)
        (purge_loop_at_end fuel q l _ h' stuck (omega arith) apart (λ r there.
          IsOwned-erase p r h h' erased (other p r (q ∷ l) absent there) (owned r (ground arith))))

  purge_at_end :
      (l : List ℕ) (m : TcpClientDbManager) (h : Host)
      → m.tcp_client_db ≡ l
      → u.passes_end ≡ false
      → Distinct l
      → ((p : ℕ) → mem p l ≡ true → IsOwned p h)
      → (do read_at u l; purge_loop u (suc (length l)) l m h) ≡ fault
  unfolding read_at
  purge_at_end [] m h e stuck apart owned = rw stuck refl
  purge_at_end (p ∷ l) m h e stuck apart owned =
      purge_loop_at_end (suc (length l)) p l m h stuck (omega arith) apart owned

-- The platform lets both pass.
abbrev pub passes_all : Platform → Bool
passes_all u = u.passes_rwlock && u.passes_end

-- `Purge` locks an rwlock that was never initialised and reads through the end of the list, both
-- undefined. On a list of different pointers to live clients whose descriptor and demarcator are set, it
-- returns if the platform lets both pass, and is undefined otherwise. Where it returns, the list is
-- empty, the listed clients are off the heap, the other clients are as before, and each listed client's
-- descriptor was closed once, in the order of the list, unless it is zero.
pub purge_lem :
    (u : Platform) (m : TcpClientDbManager) (h : Host)
    → Distinct m.tcp_client_db
    → ((p : ℕ) → mem p m.tcp_client_db ≡ true → IsOwned p h)
    → ((passes_all u ≡ true)
        × Returns (purge u m h) (λ (m', h').
          (m'.tcp_client_db ≡ [])
          × Lacks m.tcp_client_db h h'
          × (h'.calls ≡ h.calls ++ closings h m.tcp_client_db)))
      ⊎ ((passes_all u ≡ false) × (purge u m h ≡ fault))
unfolding purge
purge_lem u m h apart owned = elim (Bool-cases u.passes_rwlock) [
  | inr stuck ↦ inr (rw stuck refl, rw stuck refl)
  | inl free ↦ elim (Bool-cases u.passes_end) [
    | inl ends ↦ inl (
      rw (free, ends) refl,
      rw (free, read_at-passes u m.tcp_client_db ends)
          (Returns-bind (Purges m.tcp_client_db h) (Purges m.tcp_client_db h)
            (purge_loop u (suc (length m.tcp_client_db)) m.tcp_client_db m h) _
            (purge_loop_lem u (suc (length m.tcp_client_db)) m.tcp_client_db m h ends (omega arith)
              refl apart owned)
            (λ r k. k)),
    )
    | inr stuck ↦ inr (
      rw (free, stuck) refl,
      rw free (
          fault_carried (read_at u m.tcp_client_db) _ _
            (purge_at_end u m.tcp_client_db m h refl stuck apart owned)),
    )
  ]
]
