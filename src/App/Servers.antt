-- ===== src/App/Servers.antt =====
-- What is left in testapp.cpp of a server that was stopped.
use linux_tcp_server.Base.{
  done_inj, some_inj, ℕ, ◌≡◌, ◌≢◌, ◌∙◌, refl, sym, subst, Bool, true, false, Option, none, some,
  List, [], ◌∷◌, find, erase, find-erase_same, find-erase_other, same_text, if◌then◌else◌, Outcome,
  done, fault, ◌>>=◌, ℕ_discrete, Keeps, Keeps-then, ap₂,
}
use linux_tcp_server.Demarcar.{deref}
use linux_tcp_server.Controller
use linux_tcp_server.Controller.{TcpServerController}
use linux_tcp_server.App.{Application, load_server, Arguments, lookup_in, tcp_server_lookup}
use linux_tcp_server.App.Commands.{Environment, success, config_enable, tcp_server_stop, on_server}

nothing_found : {p : ℕ} → ◌≡◌ {A = Outcome (Option ℕ)} (done none) (done (some p)) → ⊥
nothing_found e = cc

found_else :
    (b : Bool) (p q : ℕ) (r r' : Outcome (Option ℕ))
    → p ≢ q
    → (r ≡ done (some p) → r' ≡ fault)
    → (if b then done (some q) else r) ≡ done (some p)
    → (if b then done (some q) else r') ≡ fault
found_else true p q r r' differ k e = absurd (differ (sym (some_inj (done_inj e))))
found_else false p q r r' differ k e = k e

lookup_else :
    (found : Option TcpServerController) (name : List ℕ) (p q : ℕ) (r r' : Outcome (Option ℕ))
    → p ≢ q
    → (r ≡ done (some p) → r' ≡ fault)
    → (deref found >>= λ c. if same_text c.name name then done (some q) else r) ≡ done (some p)
    → (deref found >>= λ c. if same_text c.name name then done (some q) else r') ≡ fault
lookup_else none name p q r r' differ k e = refl
lookup_else (some c) name p q r r' differ k e =
    found_else (same_text c.name name) p q r r' differ k e

-- After the server that a lookup found is deleted, the same lookup is a use after free.
lookup_in-erase :
    (servers : List (ℕ × TcpServerController)) (name : List ℕ) (l : List ℕ) (p : ℕ)
    → lookup_in servers name l ≡ done (some p)
    → lookup_in (erase p servers) name l ≡ fault
unfolding lookup_in
lookup_in-erase servers name [] p e = absurd (nothing_found e)
lookup_in-erase servers name (q ∷ l) p e = elim (ℕ_discrete p q) [
  | yes same ↦ rw (sym same, find-erase_same p servers) refl
  | no differ ↦
      rw (find-erase_other p q servers differ)
        (lookup_else (find q servers) name p q _ _ differ (lookup_in-erase servers name l p) e)
]

-- The command that stops a server deletes it and leaves its pointer in the list: if the command
-- returns without an error, the next lookup of the name is a use after free.
pub stopped_server_dangles :
    (env : Environment) (a : Arguments) (name : List ℕ) (p : ℕ) (app app' : Application)
    → tcp_server_lookup name app ≡ done (some p)
    → on_server env a tcp_server_stop config_enable p app ≡ done (success, app')
    → (app'.tcp_server_lst ≡ app.tcp_server_lst) × (tcp_server_lookup name app' ≡ fault)
unfolding tcp_server_lookup on_server
stopped_server_dangles env a name p app app' found stopped =
    let kept : Keeps (on_server env a tcp_server_stop config_enable p app)
        (λ r. (r.1.tcp_server_lst ≡ app.tcp_server_lst) × (r.1.servers ≡ erase p app.servers)) =
      Keeps-then _ (load_server p app) _
        (λ c. Keeps-then _ (Controller.stop env.platform c app.host) _ (λ h. (refl, refl))) in
    let (same, less) =
      subst
        (λ m.
          Keeps m
            (λ r. (r.1.tcp_server_lst ≡ app.tcp_server_lst) × (r.1.servers ≡ erase p app.servers)))
        stopped kept in
    (
      same,
      ap₂ (λ s l. lookup_in s name l) less same
          ∙ lookup_in-erase app.servers name app.tcp_server_lst p found,
    )
