-- ===== src/Service/Lookup.antt =====
-- The searches over the list of clients: `GetMaxFd`, `GetClientByFd` and `CopyClientFDtoFDSet`.
use linux_tcp_server.Base.{
  some_inj, ℕ, ◌≤◌, ◌≡◌, ◌⊎◌, ◌∙◌, inl, inr, refl, sym, true, ◌||◌, Option, none, some, List, [],
  ◌∷◌, arith, find, ltb, if◌then◌else◌, Returns, Returns-mono, ℕ_discrete, eq_false, eq_refl,
  ltb-true, dec_lt, ltb-false, ap, subst,
}
use mathlib.Core.Bool.{false≢true}
use linux_tcp_server.TcpClient.{holds_inj, TcpClient, holds}
use linux_tcp_server.ClientDb.{Host, mem}
use linux_tcp_server.Service.{
  TcpClientServiceManager, get_max_fd, max_fd_from, find_fd, get_client_by_fd,
}

-- The client behind the pointer is live, and this is its descriptor.
abbrev pub HasFd : Host → ℕ → ℕ → Type 0
HasFd h p fd = (c : TcpClient) × (find p h.clients ≡ some c) × (c.comm_fd ≡ holds fd)

-- All clients of a list are live and have a descriptor.
abbrev pub HaveFds : Host → List ℕ → Type 0
HaveFds h l = (p : ℕ) → mem p l ≡ true → (fd : ℕ) × HasFd h p fd

-- A number that is at least the descriptors of the list, and one of them or the start value.
abbrev pub IsMaxFd : Host → List ℕ → ℕ → ℕ → Type 0
IsMaxFd h l start n =
    (start ≤ n)
    × ((p fd : ℕ) → mem p l ≡ true → HasFd h p fd → fd ≤ n)
    × ((n ≡ start) ⊎ ((p : ℕ) × (mem p l ≡ true) × HasFd h p n))

abbrev pub IsFound : Host → ℕ → List ℕ → Option ℕ → Type 0
IsFound h fd l none = (p : ℕ) → mem p l ≡ true → ¬ HasFd h p fd
IsFound h fd l (some p) = (mem p l ≡ true) × HasFd h p fd

-- A client has one descriptor.
pub HasFd-unique : (h : Host) (p a b : ℕ) → HasFd h p a → HasFd h p b → a ≡ b
HasFd-unique h p a b (c, find_c, fd_c) (d, find_d, fd_d) =
    holds_inj (sym fd_c ∙ ap (λ x. x.comm_fd) (some_inj (sym find_c ∙ find_d)) ∙ fd_d)

pub head_mem : (p : ℕ) (l : List ℕ) → mem p (p ∷ l) ≡ true
head_mem p l = ground arith

pub mem_cases : (q p : ℕ) (l : List ℕ) → mem q (p ∷ l) ≡ true → (p ≡ q) ⊎ (mem q l ≡ true)
mem_cases q p l there = elim (ℕ_discrete p q) [
  | yes same ↦ inl same
  | no differ ↦ inr (subst (λ b. (b || mem q l) ≡ true) (eq_false p q differ) there)
]

pub tail_mem : (q p : ℕ) (l : List ℕ) → mem q l ≡ true → mem q (p ∷ l) ≡ true
tail_mem q p l there = ground arith

-- A client in front that has another descriptor changes nothing.
IsFound-behind :
    (h : Host) (fd p : ℕ) (l : List ℕ)
    → ¬ HasFd h p fd
    → (r : Option ℕ) → IsFound h fd l r
    → IsFound h fd (p ∷ l) r
IsFound-behind h fd p l differs none found = λ q there k. elim (mem_cases q p l there) [
  | inl same ↦ differs (subst (λ x. HasFd h x fd) (sym same) k)
  | inr behind ↦ found q behind k
]
IsFound-behind h fd p l differs (some q) (there, k) = (tail_mem q p l there, k)

find_fd_lem :
    (h : Host) (fd : ℕ) (l : List ℕ) → HaveFds h l → Returns (find_fd h fd l) (IsFound h fd l)
unfolding find_fd
find_fd_lem h fd [] have = λ p there k. false≢true there
find_fd_lem h fd (p ∷ l) have =
    let (here, (c, find_c, fd_c)) = have p (head_mem p l) in
    rw (find_c, fd_c)
      (elim (ℕ_discrete here fd) [
        | yes same ↦ rw (same, eq_refl fd) (head_mem p l, (c, find_c, fd_c ∙ ap holds same))
        | no differ ↦ rw (eq_false here fd differ) (
            Returns-mono (IsFound h fd l) (IsFound h fd (p ∷ l)) _
              (find_fd_lem h fd l (λ q there. have q (tail_mem q p l there)))
              (IsFound-behind h fd p l
                (λ k. differ (HasFd-unique h p here fd (c, find_c, fd_c) k))))
      ])

-- If the listed clients are live and have their descriptors, `GetClientByFd` returns a client of
-- the list with the descriptor, and null if there is none.
pub get_client_by_fd_lem :
    (h : Host) (fd : ℕ) (m : TcpClientServiceManager)
    → HaveFds h m.tcp_client_db
    → Returns (get_client_by_fd h fd m) (IsFound h fd m.tcp_client_db)
unfolding get_client_by_fd
get_client_by_fd_lem h fd m have = find_fd_lem h fd m.tcp_client_db have

IsMaxFd-step :
    (h : Host) (p here start top : ℕ) (l : List ℕ) (n : ℕ)
    → HasFd h p here
    → start ≤ top
    → here ≤ top
    → (top ≡ start) ⊎ (top ≡ here)
    → IsMaxFd h l top n
    → IsMaxFd h (p ∷ l) start n
IsMaxFd-step h p here start top l n k above_start above_here one (above, all, attained) = (
  omega arith,
  every,
  elim attained [
    | inr (q, there, kq) ↦ inr (q, tail_mem q p l there, kq)
    | inl top_n ↦ elim one [
      | inl e ↦ inl (top_n ∙ e)
      | inr e ↦ inr (p, head_mem p l, subst (HasFd h p) (sym (top_n ∙ e)) k)
    ]
  ],
)
  where
    every : (q fd : ℕ) → mem q (p ∷ l) ≡ true → HasFd h q fd → fd ≤ n
    every q fd there kq = elim (mem_cases q p l there) [
      | inr behind ↦ all q fd behind kq
      | inl same ↦
          let e = HasFd-unique h q here fd (subst (λ x. HasFd h x here) same k) kq in omega arith
    ]

larger :
    (start here : ℕ)
    → (start ≤ (if ltb start here then here else start))
      × (here ≤ (if ltb start here then here else start))
      × (((if ltb start here then here else start) ≡ start)
          ⊎ ((if ltb start here then here else start) ≡ here))
larger start here = elim (dec_lt start here) [
  | yes less ↦ rw (ltb-true start here less) (omega arith, omega arith, inr refl)
  | no more ↦ rw (ltb-false start here (omega arith)) (omega arith, omega arith, inl refl)
]

max_fd_from_lem :
    (h : Host) (start : ℕ) (l : List ℕ)
    → HaveFds h l
    → Returns (max_fd_from h start l) (IsMaxFd h l start)
unfolding max_fd_from
max_fd_from_lem h start [] have =
    (omega arith, (λ p fd there k. absurd (false≢true there)), inl refl)
max_fd_from_lem h start (p ∷ l) have =
    let (here, (c, find_c, fd_c)) = have p (head_mem p l) in
    rw (find_c, fd_c)
      (Returns-mono (IsMaxFd h l (if ltb start here then here else start)) (IsMaxFd h (p ∷ l) start)
        _
        (max_fd_from_lem h (if ltb start here then here else start) l
          (λ q there. have q (tail_mem q p l there)))
        (λ n.
          let (a, b, one) = larger start here in
          IsMaxFd-step h p here start _ l n (c, find_c, fd_c) a b one))

-- If the listed clients are live and have their descriptors, `GetMaxFd` returns the largest of
-- those, or 0 if the list is empty.
pub get_max_fd_lem :
    (h : Host) (m : TcpClientServiceManager)
    → HaveFds h m.tcp_client_db
    → Returns (get_max_fd h m) (IsMaxFd h m.tcp_client_db 0)
unfolding get_max_fd
get_max_fd_lem h m have = max_fd_from_lem h 0 m.tcp_client_db have
