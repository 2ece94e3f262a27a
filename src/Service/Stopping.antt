-- ===== src/Service/Stopping.antt =====
-- The end of the service: `Stop` joins its thread and empties the list.
use linux_tcp_server.Base.{
  true, ReturnsOrFaults, ReturnsOrFaults-bind, ℕ, zero, suc, ◌<◌, ◌≡◌, ◌∙◌, ap, refl, none, some,
  List, [], ◌∷◌, arith, length, done,
}
use linux_tcp_server.ClientDb.{remove, still_valid, Platform, read_at}
use linux_tcp_server.Demarcar.{deref}
use linux_tcp_server.ClientDb.Dangling.{deref_ends, read_at_ends, still_valid_ends, length-remove}
use linux_tcp_server.ClientDb.Purge.{Distinct, remove-absent, next_valid, same_head, read_at-passes}
use linux_tcp_server.Service.{
  Thread, TcpClientServiceManager, allocated, started, stop, stop_loop, stop_thread, join,
}

join_ends : (t : Thread) → ReturnsOrFaults (join t) (λ x. Unit {0})
unfolding join
join_ends allocated = tt
join_ends started = tt

stop_thread_ends : (m : TcpClientServiceManager) → ReturnsOrFaults (stop_thread m) (λ x. Unit {0})
unfolding stop_thread
stop_thread_ends m =
    ReturnsOrFaults-bind (λ x. Unit {0}) (λ x. Unit {0}) (deref m.client_svc_mgr_thread) _
      (deref_ends m.client_svc_mgr_thread)
      (λ t a.
        ReturnsOrFaults-bind (λ x. Unit {0}) (λ x. Unit {0}) (join t) _ (join_ends t) (λ x b. tt))

module _ (u : Platform) where
  stop_loop_lem :
      (fuel : ℕ) (l : List ℕ) (m : TcpClientServiceManager)
      → u.passes_end ≡ true
      → length l < fuel
      → m.tcp_client_db ≡ l
      → Distinct l
      → stop_loop u fuel l m ≡ done (record m { tcp_client_db = [] })
  unfolding stop_loop
  stop_loop_lem zero l m pass enough e apart = let none_fits : ⊥ = omega arith in absurd none_fits
  stop_loop_lem (suc fuel) [] m pass enough e apart =
      ap (λ x. done (record m { tcp_client_db = x })) e
  stop_loop_lem (suc fuel) (p ∷ l) m pass enough e (absent, apart) =
      rw (read_at-passes u l pass, next_valid p l absent, remove-absent p l absent)
        (stop_loop_lem fuel l (record m { tcp_client_db = remove p m.tcp_client_db }) pass
          (omega arith) (ap (remove p) e ∙ same_head p l ∙ remove-absent p l absent) apart)

  -- `Stop` of a service whose thread runs, with different pointers in its list, on a platform where a read
  -- through the end of a list passes: the thread is gone and the list is empty.
  pub stop_lem :
      (m : TcpClientServiceManager)
      → u.passes_end ≡ true
      → Distinct m.tcp_client_db
      → stop u (record m { client_svc_mgr_thread = some started })
        ≡ done (record m { client_svc_mgr_thread = none; tcp_client_db = [] })
  unfolding stop stop_thread join
  stop_lem m pass apart = rw (read_at-passes u m.tcp_client_db pass) (
      stop_loop_lem (suc (length m.tcp_client_db)) m.tcp_client_db
        (record m { client_svc_mgr_thread = none }) pass (omega arith) refl apart)

  stop_loop_ends :
      (fuel : ℕ) (l : List ℕ) (m : TcpClientServiceManager)
      → length l < fuel
      → ReturnsOrFaults (stop_loop u fuel l m) (λ x. Unit {0})
  unfolding stop_loop
  stop_loop_ends zero l m enough = let none_fits : ⊥ = omega arith in absurd none_fits
  stop_loop_ends (suc fuel) [] m enough = tt
  stop_loop_ends (suc fuel) (p ∷ l) m enough =
      ReturnsOrFaults-bind (λ x. Unit {0}) (λ x. Unit {0}) (read_at u l) _ (read_at_ends u l)
        (λ x a.
          ReturnsOrFaults-bind (λ x. Unit {0}) (λ x. Unit {0}) (still_valid p l) _
            (still_valid_ends p l)
            (λ y b. stop_loop_ends fuel (remove p l) _ (omega (arith, length-remove p l))))

  -- `Stop` returns or is undefined: its fuel is enough.
  pub stop_ends : (m : TcpClientServiceManager) → ReturnsOrFaults (stop u m) (λ x. Unit {0})
  unfolding stop
  stop_ends m =
      ReturnsOrFaults-bind (λ x. Unit {0}) (λ x. Unit {0}) (stop_thread m) _ (stop_thread_ends m)
        (λ m' a.
          ReturnsOrFaults-bind (λ x. Unit {0}) (λ x. Unit {0}) (read_at u m'.tcp_client_db) _
            (read_at_ends u m'.tcp_client_db)
            (λ x b.
              stop_loop_ends (suc (length m'.tcp_client_db)) m'.tcp_client_db m' (omega arith)))
