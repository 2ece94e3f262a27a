-- ===== src/Service/Dangling.antt =====
-- `RemoveClient` deletes a client that the list of TcpClientDBManager.cpp may still point to.
use linux_tcp_server.Base.{
  ℕ, ◌≡◌, ◌∙◌, ap, refl, true, false, not, ◌&&◌, Option, none, some, List, [], ◌∷◌, find, erase,
  find-erase, if◌then◌else◌, Outcome, done, fault, ◌>>=◌, Returns, inl, inr, eq_refl,
}
use mathlib.Core.Bool.{false≢true}
use linux_tcp_server.Demarcar.{deref}
use linux_tcp_server.ClientDb.Purge.{mem-remove}
use linux_tcp_server.TcpClient.{TcpClient, Slot, unset, holds, get, display, Shown}
use linux_tcp_server.ClientDb.{
  Host, mem, display_all, display_client_db, abort_client, TcpClientDbManager,
}
use linux_tcp_server.Service.{TcpClientServiceManager, remove_client}
use linux_tcp_server.Service.Lookup.{mem_cases}

two_slots :
    {B : Type 0} (a b : Slot ℕ) (f : ℕ → ℕ → Shown)
    → ◌≡◌ {A = Outcome B} ((get a >>= λ x. get b >>= λ y. done (f x y)) >>= λ s. fault) fault
two_slots unset b f = refl
two_slots (holds x) unset f = refl
two_slots (holds x) (holds y) f = refl

-- `Display` of a client, if it is there, and then a fault is a fault.
display_then :
    {B : Type 0} (found : Option TcpClient)
    → ◌≡◌ {A = Outcome B} (deref found >>= λ c. display c >>= λ s. fault) fault
unfolding display
display_then none = refl
display_then (some c) = two_slots c.server_ip_addr c.server_port_no _

pub display_all_dangling :
    (h : Host) (p : ℕ) (l : List ℕ)
    → find p h.clients ≡ none
    → mem p l ≡ true
    → display_all h l ≡ fault
unfolding display_all
display_all_dangling h p [] gone there = absurd (false≢true there)
display_all_dangling h p (q ∷ l) gone there = elim (mem_cases p q l there) [
  | inl same ↦ rw (same, gone) refl
  | inr behind ↦ rw (display_all_dangling h p l gone behind) (display_then (find q h.clients))
]

-- `RemoveClient` takes a live client off the list of the service and deletes it, and that is all: if
-- the list of all clients has it too, then to display that list is a use after free, and so is the
-- client's `Abort` when that list is purged.
remove_client_dangles :
    (p : ℕ) (m : TcpClientServiceManager) (db : TcpClientDbManager) (h : Host) (c : TcpClient)
    → find p h.clients ≡ some c
    → mem p db.tcp_client_db ≡ true
    → Returns (remove_client p m h) (λ (m', h').
      (mem p m'.tcp_client_db ≡ false)
      × (h'.calls ≡ h.calls)
      × (display_client_db h' db ≡ fault)
      × (abort_client p h' ≡ fault))
unfolding remove_client display_client_db abort_client
remove_client_dangles p m db h c live listed = rw live (
  mem-remove p p m.tcp_client_db ∙ ap (λ b. not b && mem p m.tcp_client_db) (eq_refl p),
  refl,
  display_all_dangling (record h { clients = erase p h.clients }) p db.tcp_client_db gone listed,
  rw gone refl,
)
  where
    gone : find p (erase p h.clients) ≡ none
    gone = find-erase p p h.clients ∙ ap (λ b. if b then none else find p h.clients) (eq_refl p)
