-- ===== src/ClientDb/Dangling.antt =====
-- `Purge` of TcpClientDBManager.cpp over a list with a pointer to a client that was deleted.
use linux_tcp_server.Base.{
  false, Bool, Bool-cases, inl, inr, fault, done, ◌>>=◌, ◌<◌, ◌≤◌, ReturnsOrFaults,
  ReturnsOrFaults-bind, bind_fault, ℕ, zero, suc, ◌≡◌, ◌≢◌, ◌∙◌, ap, refl, sym, true, not, ◌&&◌,
  Option, none, some, List, [], ◌∷◌, length, find, find-erase_other, eq_false, arith, ◌==◌,
  ℕ_discrete,
}
use mathlib.Core.Bool.{false≢true}
use linux_tcp_server.Demarcar.{Demarcar, deref, destroy, destructor}
use linux_tcp_server.TcpClient.{TcpClient, Slot, unset, holds, get, abort, drop_msgd}
use linux_tcp_server.ClientDb.{
  Host, TcpClientDbManager, mem, remove, load, abort_client, abort_fd, still_valid, purge_loop,
  purge, Platform, pass, read_at,
}
use linux_tcp_server.ClientDb.Purge.{mem-remove}

abort_fd-clients : (fd : Option ℕ) (h : Host) → (abort_fd fd h).clients ≡ h.clients
unfolding abort_fd
abort_fd-clients none h = refl
abort_fd-clients (some fd) h = refl

pub deref_ends : {A : Type 0} (a : Option A) → ReturnsOrFaults (deref a) (λ x. Unit {0})
deref_ends none = tt
deref_ends (some a) = tt

get_ends : {A : Type 0} (a : Slot A) → ReturnsOrFaults (get a) (λ x. Unit {0})
get_ends unset = tt
get_ends (holds a) = tt

pub pass_ends : (b : Bool) → ReturnsOrFaults (pass b) (λ x. Unit {0})
pass_ends true = tt
pass_ends false = tt

pub read_at_ends : (u : Platform) (l : List ℕ) → ReturnsOrFaults (read_at u l) (λ x. Unit {0})
unfolding read_at
read_at_ends u [] = pass_ends u.passes_end
read_at_ends u (p ∷ l) = tt

pub still_valid_ends : (p : ℕ) (l : List ℕ) → ReturnsOrFaults (still_valid p l) (λ x. Unit {0})
unfolding still_valid
still_valid_ends p [] = tt
still_valid_ends p (q ∷ l) = elim (Bool-cases (q == p)) [ inl e ↦ rw e tt | inr e ↦ rw e tt ]

drop_msgd_ends : (d : Option Demarcar) → ReturnsOrFaults (drop_msgd d) (λ x. Unit {0})
unfolding drop_msgd destructor destroy
drop_msgd_ends none = tt
drop_msgd_ends (some d) = tt

abort_ends : (c : TcpClient) → ReturnsOrFaults (abort c) (λ x. Unit {0})
unfolding abort
abort_ends c =
    ReturnsOrFaults-bind (λ x. Unit {0}) (λ x. Unit {0}) (get c.comm_fd) _ (get_ends c.comm_fd)
      (λ fd a.
        ReturnsOrFaults-bind (λ x. Unit {0}) (λ x. Unit {0}) (get c.msgd) _ (get_ends c.msgd)
          (λ d b.
            ReturnsOrFaults-bind (λ x. Unit {0}) (λ x. Unit {0}) (drop_msgd d) _ (drop_msgd_ends d)
              (λ x k. tt)))

-- `Abort` of another client does not bring a deleted one back.
abort_client-gone :
    (p q : ℕ) (h : Host)
    → p ≢ q
    → find p h.clients ≡ none
    → ReturnsOrFaults (abort_client q h) (λ h'. find p h'.clients ≡ none)
unfolding abort_client
abort_client-gone p q h differ gone =
    ReturnsOrFaults-bind (λ x. Unit {0}) (λ h'. find p h'.clients ≡ none) (load q h) _
      (deref_ends (find q h.clients))
      (λ c a.
        ReturnsOrFaults-bind (λ x. Unit {0}) (λ h'. find p h'.clients ≡ none) (abort c) _
          (abort_ends c)
          (λ fd b.
            ReturnsOrFaults-bind (λ x. Unit {0}) (λ h'. find p h'.clients ≡ none)
              (load q (abort_fd fd h)) _ (deref_ends (find q (abort_fd fd h).clients))
              (λ d k.
                find-erase_other q p (abort_fd fd h).clients (λ e. differ (sym e))
                ∙ ap (find p) (abort_fd-clients fd h)
                ∙ gone)))

abort_dangling : (p : ℕ) (h : Host) → find p h.clients ≡ none → abort_client p h ≡ fault
unfolding abort_client
abort_dangling p h gone = rw gone refl

pub length-remove : (p : ℕ) (l : List ℕ) → length (remove p l) ≤ length l
length-remove p [] = omega arith
length-remove p (q ∷ l) = ground (arith, length-remove p l)

purge_loop_dangling :
    (u : Platform) (fuel : ℕ) (l : List ℕ) (p : ℕ) (m : TcpClientDbManager) (h : Host)
    → length l < fuel
    → mem p l ≡ true
    → find p h.clients ≡ none
    → purge_loop u fuel l m h ≡ fault
unfolding purge_loop
purge_loop_dangling u zero l p m h enough there gone =
    let none_fits : ⊥ = omega arith in absurd none_fits
purge_loop_dangling u (suc fuel) [] p m h enough there gone = absurd (false≢true there)
purge_loop_dangling u (suc fuel) (q ∷ l) p m h enough there gone =
    bind_fault (λ x. Unit {0}) (read_at u l) _ (read_at_ends u l)
      (λ x k. elim (ℕ_discrete p q) [
        | yes same ↦ rw (abort_dangling q h (ap (λ y. find y h.clients) (sym same) ∙ gone)) refl
        | no differ ↦
            bind_fault (λ h'. find p h'.clients ≡ none) (abort_client q h) _
              (abort_client-gone p q h differ gone)
              (λ h' gone'.
                bind_fault (λ x. Unit {0}) (still_valid q l) _ (still_valid_ends q l)
                  (λ y j.
                    purge_loop_dangling u fuel (remove q l) p
                      (record m { tcp_client_db = remove q m.tcp_client_db }) h'
                      (omega (arith, length-remove q l))
                      (mem-remove q p l ∙ still_there p q l differ there) gone'))
      ])
  where
    still_there :
        (p q : ℕ) (l : List ℕ) → p ≢ q → mem p (q ∷ l) ≡ true → (not (q == p) && mem p l) ≡ true
    still_there p q l differ there = ground (arith, eq_false q p (λ e. differ (sym e)), there)

-- A purge of a list that has a pointer to a deleted client is undefined on any platform.
pub purge_dangling :
    (u : Platform) (p : ℕ) (m : TcpClientDbManager) (h : Host)
    → mem p m.tcp_client_db ≡ true
    → find p h.clients ≡ none
    → purge u m h ≡ fault
unfolding purge
purge_dangling u p m h there gone =
    bind_fault (λ x. Unit {0}) (pass u.passes_rwlock) _ (pass_ends u.passes_rwlock)
      (λ x a.
        bind_fault (λ x. Unit {0}) (read_at u m.tcp_client_db) _ (read_at_ends u m.tcp_client_db)
          (λ y b.
            ap (λ z. z >>= λ r. pass u.passes_rwlock >>= λ w. done r)
              (purge_loop_dangling u (suc (length m.tcp_client_db)) m.tcp_client_db p m h
                (omega arith) there gone)))
