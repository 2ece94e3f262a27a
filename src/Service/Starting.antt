-- ===== src/Service/Starting.antt =====
-- What the service thread of TcpClientServiceManager.cpp sets up for the clients that are listed: the
-- largest descriptor, the descriptors told to epoll, and the set of descriptors for select.
use linux_tcp_server.Base.{
  ℕ, ◌≤◌, ◌<◌, ◌≡◌, ◌⊎◌, ◌∙◌, ap, inl, inr, refl, sym, subst, true, ◌||◌, List, [], ◌∷◌, ◌++◌, map,
  find, done, fault, Returns, Returns-done, Returns-mono, append-nil, append_assoc, ltb-true,
  ltb-false, dec_lt, arith,
}
use linux_tcp_server.TcpClient.{holds}
use linux_tcp_server.ClientDb.{Host, call, epoll_add, mem}
use linux_tcp_server.Service.{
  TcpClientServiceManager, watch_all, get_max_fd, start_internal, fd_set, copy_fds,
  copy_client_fd_to_fd_set,
}
use linux_tcp_server.Service.Lookup.{HasFd, HaveFds, IsMaxFd, get_max_fd_lem, mem_cases}
use mathlib.Core.Bool.{false≢true}
use linux_tcp_server.Stream.{All}

-- The descriptors of a list of live clients, in its order.
abbrev AreFds : Host → List ℕ → List ℕ → Type 0
AreFds h [] [] = Unit
AreFds h [] (fd ∷ fds) = ⊥
AreFds h (p ∷ l) [] = ⊥
AreFds h (p ∷ l) (fd ∷ fds) = HasFd h p fd × AreFds h l fds

AreFds-HaveFds : (h : Host) (l fds : List ℕ) → AreFds h l fds → HaveFds h l
AreFds-HaveFds h [] fds are p there = absurd (false≢true there)
AreFds-HaveFds h (q ∷ l) [] are p there = absurd are
AreFds-HaveFds h (q ∷ l) (fd ∷ fds) (has, are) p there = elim (mem_cases p q l there) [
  | inl here ↦ (fd, subst (λ x. HasFd h x fd) here has)
  | inr behind ↦ AreFds-HaveFds h l fds are p behind
]

watch_all_lem :
    (h h' : Host) (l fds : List ℕ)
    → h'.clients ≡ h.clients
    → AreFds h l fds
    → watch_all l h' ≡ done (record h' { calls = h'.calls ++ map epoll_add fds })
unfolding watch_all
watch_all_lem h h' [] [] same are = ap done (λ i. record h' { calls = sym (append-nil h'.calls) i })
watch_all_lem h h' [] (fd ∷ fds) same are = absurd are
watch_all_lem h h' (p ∷ l) [] same are = absurd are
watch_all_lem h h' (p ∷ l) (fd ∷ fds) same ((c, is_client, is_fd), are) =
    rw (ap (find p) same ∙ is_client, is_fd)
      (watch_all_lem h (call (epoll_add fd) h') l fds same are
        ∙ ap done (λ i. record h' {
          calls = append_assoc h'.calls (epoll_add fd ∷ []) (map epoll_add fds) i;
        }))

-- If the listed clients are live and have their descriptors, the set-up of the service thread returns:
-- the service is ready and has its epoll descriptor and the largest descriptor of the list, epoll is
-- told each of the descriptors once, in the order of the list, and nothing else has changed.
pub start_internal_lem :
    (epfd : ℕ) (m : TcpClientServiceManager) (h : Host) (fds : List ℕ)
    → AreFds h m.tcp_client_db fds
    → (top : ℕ) × IsMaxFd h m.tcp_client_db 0 top
      × (start_internal epfd m h
          ≡ done (
            record m { epfd = holds epfd; is_ready = true; max_fd = top },
            record h { calls = h.calls ++ map epoll_add fds },
          ))
unfolding start_internal
start_internal_lem epfd m h fds are =
    let ready : TcpClientServiceManager = record m { epfd = holds epfd; is_ready = true } in
    let (top, found, is_max) =
      Returns-done (IsMaxFd h m.tcp_client_db 0) (get_max_fd h ready)
        (get_max_fd_lem h ready (AreFds-HaveFds h m.tcp_client_db fds are)) in
    (top, is_max, rw (found, watch_all_lem h h m.tcp_client_db fds refl are) refl)

mem_first :
    (g fd : ℕ) (fds s : List ℕ) → (mem g fds || mem g (fd ∷ s)) ≡ (mem g (fd ∷ fds) || mem g s)
mem_first g fd fds s = ground arith

copy_fds_lem :
    (h : Host) (s l fds : List ℕ)
    → AreFds h l fds
    → All (λ fd. fd < 1024) fds
    → Returns (copy_fds h s l) (λ s'. (g : ℕ) → mem g s' ≡ (mem g fds || mem g s))
unfolding copy_fds fd_set
copy_fds_lem h s [] [] are small = λ g. refl
copy_fds_lem h s [] (fd ∷ fds) are small = absurd are
copy_fds_lem h s (p ∷ l) [] are small = absurd are
copy_fds_lem h s (p ∷ l) (fd ∷ fds) ((c, is_client, is_fd), are) (fits, small) =
    rw (is_client, is_fd, ltb-true fd 1024 fits)
      (Returns-mono _ _ (copy_fds h (fd ∷ s) l) (copy_fds_lem h (fd ∷ s) l fds are small)
        (λ s' k g. k g ∙ mem_first g fd fds s))

copy_fds_fault :
    (h : Host) (s l fds : List ℕ) (g : ℕ)
    → AreFds h l fds
    → mem g fds ≡ true
    → 1024 ≤ g
    → copy_fds h s l ≡ fault
unfolding copy_fds fd_set
copy_fds_fault h s [] [] g are there large = absurd (false≢true there)
copy_fds_fault h s [] (fd ∷ fds) g are there large = absurd are
copy_fds_fault h s (p ∷ l) [] g are there large = absurd are
copy_fds_fault h s (p ∷ l) (fd ∷ fds) g ((c, is_client, is_fd), are) there large =
    elim (dec_lt fd 1024) [
      | yes fits ↦
          rw (is_client, is_fd, ltb-true fd 1024 fits)
            (copy_fds_fault h (fd ∷ s) l fds g are (elsewhere (mem_cases g fd fds there) fits)
              large)
      | no over ↦ rw (is_client, is_fd, ltb-false fd 1024 (omega arith)) refl
    ]
  where
    elsewhere : (fd ≡ g) ⊎ (mem g fds ≡ true) → fd < 1024 → mem g fds ≡ true
    elsewhere (inl here) fits = absurd (omega arith)
    elsewhere (inr behind) fits = behind

-- `CopyClientFDtoFDSet` over live clients that have their descriptors: if all of these are below 1024,
-- it returns the set with just these descriptors added; if one of them is not, it writes outside the
-- set.
copy_client_fd_to_fd_set_lem :
    (h : Host) (m : TcpClientServiceManager) (s fds : List ℕ)
    → AreFds h m.tcp_client_db fds
    → (All (λ fd. fd < 1024) fds
        → Returns
            (copy_client_fd_to_fd_set h m s)
            (λ s'. (g : ℕ) → mem g s' ≡ (mem g fds || mem g s)))
      × ((g : ℕ) → mem g fds ≡ true → 1024 ≤ g → copy_client_fd_to_fd_set h m s ≡ fault)
unfolding copy_client_fd_to_fd_set
copy_client_fd_to_fd_set_lem h m s fds are = (
  copy_fds_lem h s m.tcp_client_db fds are,
  (λ g there large. copy_fds_fault h s m.tcp_client_db fds g are there large),
)
