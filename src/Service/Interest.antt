-- ===== src/Service/Interest.antt =====
-- What epoll watches, by the calls that TcpClientServiceManager.cpp made: its interest list is the
-- kernel's, of which this file states what epoll_ctl(2), close(2) and epoll(7) document.
use linux_tcp_server.Base.{
  ℕ, ◌≡◌, ◌∙◌, ap, refl, Bool, true, false, List, [], ◌∷◌, ◌++◌, ◌==◌, if◌then◌else◌, eq_refl,
}
use linux_tcp_server.ClientDb.{Call, close, epoll_add, epoll_del}

-- Whether a descriptor is in the interest list after some calls. It is empty at first, an addition and a
-- deletion change it for their descriptor, and closing a descriptor deletes it.
pub record Epoll : Type 0 where
  pub interest : ℕ → List Call → Bool
  pub created : (fd : ℕ) → interest fd [] ≡ false
  pub added :
      (fd g : ℕ) (l : List Call)
      → interest fd (l ++ epoll_add g ∷ []) ≡ (if g == fd then true else interest fd l)
  pub deleted :
      (fd g : ℕ) (l : List Call)
      → interest fd (l ++ epoll_del g ∷ []) ≡ (if g == fd then false else interest fd l)
  pub closed :
      (fd g : ℕ) (l : List Call)
      → interest fd (l ++ close g ∷ []) ≡ (if g == fd then false else interest fd l)

off : (d b : Bool) → b ≡ false → (if d then false else b) ≡ false
off true b e = refl
off false b e = e

twice : (d b : Bool) → (if d then false else (if d then false else b)) ≡ (if d then false else b)
twice true b = refl
twice false b = refl

module _ ⦃kernel : Epoll⦄ where
  abbrev pub watched : ℕ → List Call → Bool
  watched = kernel.interest

  -- What is left of a connection that was given up.
  pub watched_hung_up :
      (fd g : ℕ) (l : List Call)
      → watched fd ((l ++ close g ∷ []) ++ epoll_del g ∷ [])
        ≡ (if g == fd then false else watched fd l)
  watched_hung_up fd g l =
      kernel.deleted fd g (l ++ close g ∷ [])
      ∙ ap (λ b. if g == fd then false else b) (kernel.closed fd g l)
      ∙ twice (g == fd) (watched fd l)

  -- A descriptor that is not watched is not watched after another is closed or deleted.
  pub watched-close :
      (g : ℕ) (l : List Call) (fd : ℕ)
      → watched fd l ≡ false
      → watched fd (l ++ close g ∷ []) ≡ false
  watched-close g l fd e = kernel.closed fd g l ∙ off (g == fd) _ e

  pub watched-del :
      (g : ℕ) (l : List Call) (fd : ℕ)
      → watched fd l ≡ false
      → watched fd (l ++ epoll_del g ∷ []) ≡ false
  watched-del g l fd e = kernel.deleted fd g l ∙ off (g == fd) _ e

  pub watched-close_same : (fd : ℕ) (l : List Call) → watched fd (l ++ close fd ∷ []) ≡ false
  watched-close_same fd l =
      kernel.closed fd fd l ∙ ap (λ b. if b then false else watched fd l) (eq_refl fd)

  pub watched-del_same : (fd : ℕ) (l : List Call) → watched fd (l ++ epoll_del fd ∷ []) ≡ false
  watched-del_same fd l =
      kernel.deleted fd fd l ∙ ap (λ b. if b then false else watched fd l) (eq_refl fd)
