-- ===== src/Controller/Joining.antt =====
-- The service's list of clients, with a new one at its end: `AddClientToDB` of
-- TcpClientServiceManager.cpp.
use linux_tcp_server.Base.{
  ap, eq_refl, ℕ, ◌≡◌, ◌≢◌, ◌∙◌, refl, Bool, true, false, ◌||◌, List, [], ◌∷◌, ◌++◌, arith, ◌==◌,
  eq_false,
}
use linux_tcp_server.ClientDb.{mem}
use linux_tcp_server.Service
use linux_tcp_server.Service.{TcpClientServiceManager, add_client_to_epoll}

pub mem-last : (q p : ℕ) (l : List ℕ) → mem q (l ++ p ∷ []) ≡ (mem q l || (p == q))
mem-last q p [] = ground arith
mem-last q p (r ∷ l) = ground (arith, mem-last q p l)

pub mem-last_other : (q p : ℕ) (l : List ℕ) → p ≢ q → mem q (l ++ p ∷ []) ≡ true → mem q l ≡ true
mem-last_other q p l differ there = ground (arith, mem-last q p l, eq_false p q differ)

pub or_true : (b : Bool) → (b || true) ≡ true
or_true b = ground arith

or_false : (b : Bool) → (b || false) ≡ b
or_false true = refl
or_false false = refl

pub joined :
    (p : ℕ) (m : TcpClientServiceManager)
    → mem p (Service.add_client_to_db p m).tcp_client_db ≡ true
unfolding Service.add_client_to_db
joined p m =
    mem-last p p m.tcp_client_db
    ∙ ap (λ b. mem p m.tcp_client_db || b) (eq_refl p)
    ∙ or_true (mem p m.tcp_client_db)

pub listed_others :
    (p : ℕ) (m : TcpClientServiceManager) (q : ℕ)
    → p ≢ q
    → mem q (Service.add_client_to_db p m).tcp_client_db ≡ mem q m.tcp_client_db
unfolding Service.add_client_to_db
listed_others p m q differ =
    mem-last q p m.tcp_client_db
    ∙ ap (λ b. mem q m.tcp_client_db || b) (eq_false p q differ)
    ∙ or_false (mem q m.tcp_client_db)

pub still_listed :
    (p q : ℕ) (m : TcpClientServiceManager)
    → mem q m.tcp_client_db ≡ true
    → mem q (Service.add_client_to_db p m).tcp_client_db ≡ true
unfolding Service.add_client_to_db
still_listed p q m there = mem-last q p m.tcp_client_db ∙ ap (λ b. b || (p == q)) there

pub others_listed :
    (p q : ℕ) (m : TcpClientServiceManager)
    → p ≢ q
    → mem q (Service.add_client_to_db p m).tcp_client_db ≡ true
    → mem q m.tcp_client_db ≡ true
unfolding Service.add_client_to_db
others_listed p q m differ there = mem-last_other q p m.tcp_client_db differ there
