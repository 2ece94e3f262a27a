-- ===== src/Controller/Active.antt =====
-- The client that `CreateActiveAClient` of TcpServerController.cpp adds, and the end of such a server.
use linux_tcp_server.Base.{
  bind_fault, ℕ, zero, suc, ◌<◌, ◌≡◌, ◌≢◌, ◌∙◌, ap, ap₂, refl, sym, Bool, true, false, ◌||◌, some,
  List, [], ◌∷◌, ◌++◌, arith, length, find, erase, find-put_same, find-put_other, length-append,
  find-erase_other, ◌==◌, fault, Returns, Returns-done, eq_false, eq_refl,
}
use mathlib.Core.Bool.{false≢true}
use linux_tcp_server.TcpClient
use linux_tcp_server.TcpClient.{TcpClient, unset, get, set_state}
use linux_tcp_server.ClientDb
use linux_tcp_server.ClientDb.{
  Host, store_client, mem, remove, TcpClientDbManager, abort_client, purge_loop, purge, Platform,
  pass, read_at,
}
use linux_tcp_server.ClientDb.Purge.{
  Distinct, IsOwned, abort_client_lem, IsOwned-erase, closing_client, next_valid, remove-absent,
  other, read_at_node,
}
use linux_tcp_server.ClientDb.Dangling.{pass_ends, read_at_ends}
use linux_tcp_server.Controller.{TcpServerController, create_active_a_client}
use linux_tcp_server.Controller.Joining.{mem-last}

-- A live client without a descriptor.
abbrev IsUnset : ℕ → Host → Type 0
IsUnset p h = (c : TcpClient) × (find p h.clients ≡ some c) × (c.comm_fd ≡ unset)

abort_unset : (p : ℕ) (h : Host) → IsUnset p h → abort_client p h ≡ fault
unfolding abort_client TcpClient.abort
abort_unset p h (c, live, no_fd) = rw (live, no_fd) refl

both_false : (a b : Bool) → (a || b) ≡ false → (a ≡ false) × (b ≡ false)
both_false a b e = ground arith

IsUnset-erase :
    (p q : ℕ) (h h' : Host) → h'.clients ≡ erase q h.clients → q ≢ p → IsUnset p h → IsUnset p h'
IsUnset-erase p q h h' e differ (c, live, no_fd) =
    (c, ap (find p) e ∙ find-erase_other q p h.clients differ ∙ live, no_fd)

purge_loop_unset :
    (u : Platform) (fuel : ℕ) (l : List ℕ) (p : ℕ) (m : TcpClientDbManager) (h : Host)
    → length l < fuel
    → Distinct l
    → mem p l ≡ false
    → ((q : ℕ) → mem q l ≡ true → IsOwned q h)
    → IsUnset p h
    → purge_loop u fuel (l ++ p ∷ []) m h ≡ fault
unfolding purge_loop
purge_loop_unset u zero l p m h enough apart absent owned k =
    let none_fits : ⊥ = omega arith in absurd none_fits
purge_loop_unset u (suc fuel) [] p m h enough apart absent owned k =
    bind_fault (λ x. Unit {0}) (read_at u []) _ (read_at_ends u [])
      (λ x a. rw (abort_unset p h k) refl)
purge_loop_unset u (suc fuel) (q ∷ l) p m h enough (alone, apart) absent owned k =
    let (h', aborts, (erased, closed)) =
      Returns-done
        (λ x.
          (x.clients ≡ erase q h.clients)
          × (x.calls ≡ h.calls ++ closing_client (find q h.clients)))
        (abort_client q h) (abort_client_lem q h (owned q (ground arith))) in
    rw
      (
        read_at_node u p l,
        aborts,
        next_valid q (l ++ p ∷ []) later,
        remove-absent q (l ++ p ∷ []) later,
      )
      (purge_loop_unset u fuel l p _ h' (omega arith) apart both.1
        (λ r there.
          IsOwned-erase q r h h' erased (other q r l alone there) (owned r (ground arith)))
        (IsUnset-erase p q h h' erased differ k))
  where
    both : ((q == p) ≡ false) × (mem p l ≡ false)
    both = both_false (q == p) (mem p l) absent

    differ : q ≢ p
    differ e = false≢true (sym both.0 ∙ ap (λ x. q == x) (sym e) ∙ eq_refl q)

    later : mem q (l ++ p ∷ []) ≡ false
    later = mem-last q p l ∙ ap₂ (λ x y. x || y) alone (eq_false p q (λ e. differ (sym e)))

IsOwned-put :
    (p q : ℕ) (x : TcpClient) (h : Host) → p ≢ q → IsOwned q h → IsOwned q (store_client p x h)
IsOwned-put p q x h differ o = record {
  client = o.client;
  fd = o.fd;
  demarcar = o.demarcar;
  is_client = find-put_other p q x h.clients differ ∙ o.is_client;
  is_fd = o.is_fd;
  is_msgd = o.is_msgd;
}

purge_unset :
    (u : Platform) (p : ℕ) (x : TcpClient) (h : Host) (db : TcpClientDbManager)
    → x.comm_fd ≡ unset
    → Distinct db.tcp_client_db
    → mem p db.tcp_client_db ≡ false
    → ((q : ℕ) → mem q db.tcp_client_db ≡ true → IsOwned q h)
    → purge u (ClientDb.add_client_to_db p db) (store_client p x h) ≡ fault
unfolding purge ClientDb.add_client_to_db
purge_unset u p x h db no_fd apart absent owned =
    bind_fault (λ x. Unit {0}) (pass u.passes_rwlock) _ (pass_ends u.passes_rwlock)
      (λ _ a.
        rw
          (
            read_at_node u p db.tcp_client_db,
            purge_loop_unset u (suc (length (db.tcp_client_db ++ p ∷ []))) db.tcp_client_db p
                (ClientDb.add_client_to_db p db) (store_client p x h)
                (omega (arith, length-append db.tcp_client_db (p ∷ []))) apart absent
                (λ q there.
                  IsOwned-put p q x h (other p q db.tcp_client_db absent there) (owned q there))
                (x, find-put_same p x h.clients, no_fd),
          )
          refl)

-- `CreateActiveAClient` adds a client whose descriptor is never set. If the clients listed before are
-- live and different, and `new` gives an address that is not in the list, then a purge of the list,
-- which `Stop` makes, is undefined on any platform: where its lock passes, it reads the unset
-- descriptor.
pub active_client_unpurgeable :
    (u : Platform) (p server_ip_addr server_port_no : ℕ) (c : TcpServerController) (h : Host)
    (db : TcpClientDbManager)
    → c.tcp_client_db_mgr ≡ some db
    → Distinct db.tcp_client_db
    → mem p db.tcp_client_db ≡ false
    → ((q : ℕ) → mem q db.tcp_client_db ≡ true → IsOwned q h)
    → Returns (create_active_a_client p true server_ip_addr server_port_no c h) (λ (c', h').
      (c'.tcp_client_db_mgr ≡ some (ClientDb.add_client_to_db p db))
      × (purge u (ClientDb.add_client_to_db p db) h' ≡ fault))
unfolding create_active_a_client set_state TcpClient.construct
active_client_unpurgeable u p ip port c h db is_db apart absent owned =
    rw is_db (refl, purge_unset u p _ h db refl apart absent owned)
