-- ===== src/App/Once.antt =====
-- A name of testapp.cpp is given once: no later creation succeeds with the name of a server that was
-- created, as long as no server is stopped.
use linux_tcp_server.Base.{
  ℕ, ◌≡◌, ◌≢◌, ◌∙◌, ap, sym, refl, subst, true, ◌||◌, Option, none, some, List, [], ◌∷◌, find, put,
  find-put_same, find-put_other, some_inj, none_not_some, Outcome, done, ◌>>=◌, Keeps, Keeps-bind,
  Keeps-then, Keeps-self, bind_done, ℕ_discrete, eq_refl, ◌==◌,
}
use linux_tcp_server.ClientDb.{mem}
use linux_tcp_server.Demarcar.{deref}
use linux_tcp_server.NetworkUtils.{network_convert_ip_p_to_n}
use linux_tcp_server.Acceptor
use linux_tcp_server.Controller
use linux_tcp_server.Controller.{TcpServerController}
use linux_tcp_server.Controller.Joining.{mem-last, or_true}
use linux_tcp_server.App.{Application, Arguments, tcp_server_lookup}
use linux_tcp_server.App.Commands.{
  Environment, OpMode, ReturnCode, success, failure, tcp_server_create, create, switch_command,
  config_tcp_server_handler,
}
use linux_tcp_server.App.Lookup.{AllLive}
use linux_tcp_server.App.Changes.{Changes, nothing, updates, creates, switch_command_lem}
use linux_tcp_server.App.Session.{Typed, run_commands, NeverStops, Changes-AllLive}
use linux_tcp_server.App.Distinct.{NamesDiffer, Changes-NamesDiffer, is_loaded}
use linux_tcp_server.App.Names.{GetsFresh, command-Changes, lookup_finds_server}

-- The server at the address is listed and has the name.
abbrev IsListedAs : ℕ → List ℕ → Application → Type 0
IsListedAs p name app =
    (mem p app.tcp_server_lst ≡ true)
    × (c : TcpServerController) × (find p app.servers ≡ some c)
    × (c.name ≡ name)

Changes-IsListedAs :
    (p : ℕ) (name : List ℕ) (address : ℕ) (app app' : Application)
    → Changes address app app'
    → find address app.servers ≡ none
    → IsListedAs p name app
    → IsListedAs p name app'
Changes-IsListedAs p name address app app' (nothing same) unused k =
    subst (IsListedAs p name) (sym same) k
Changes-IsListedAs p name address app app' (updates q c c' is_c named stored listed) unused
      (there, d, is_d, has) =
    elim (ℕ_discrete q p) [
      | yes same ↦ (
        ap (mem p) listed ∙ there,
        c',
        ap (find p) stored
            ∙ ap (λ x. find x (put q c' app.servers)) (sym same)
            ∙ find-put_same q c' app.servers,
        named
            ∙ ap (λ x. x.name)
                (some_inj (
                  sym (is_loaded (find q app.servers) is_c)
                  ∙ ap (λ x. find x app.servers) same
                  ∙ is_d))
            ∙ has,
      )
      | no differ ↦ (
        ap (mem p) listed ∙ there,
        d,
        ap (find p) stored ∙ find-put_other q p c' app.servers differ ∙ is_d,
        has,
      )
    ]
Changes-IsListedAs p name address app app' (creates n c unknown named stored listed) unused
      (there, d, is_d, has) =
    (
      ap (mem p) listed
          ∙ mem-last p address app.tcp_server_lst
          ∙ ap (λ b. b || (address == p)) there,
      d,
      ap (find p) stored ∙ find-put_other address p c app.servers differ ∙ is_d,
      has,
    )
  where
    differ : address ≢ p
    differ same = none_not_some (sym unused ∙ ap (λ x. find x app.servers) same ∙ is_d)

run_commands-IsListedAs :
    (p : ℕ) (name : List ℕ) (ts : List Typed) (app : Application)
    → NeverStops ts
    → GetsFresh ts app
    → IsListedAs p name app
    → Keeps (run_commands ts app) (IsListedAs p name)
unfolding run_commands GetsFresh
run_commands-IsListedAs p name [] app never fresh k = k
run_commands-IsListedAs p name (t ∷ ts) app (goes_on, never) (unused, fresh) k =
    Keeps-bind (λ r. config_tcp_server_handler t.env t.cmd_code t.tlvs t.mode app ≡ done r)
      (IsListedAs p name) _ _
      (Keeps-self (config_tcp_server_handler t.env t.cmd_code t.tlvs t.mode app))
      (λ (code, app') ran. run_commands-IsListedAs p name ts app' never (fresh code app' ran) (
        Changes-IsListedAs p name t.env.address app app'
          (command-Changes t app code app' goes_on ran) unused k))

failed :
    {app app' : Application}
    → ◌≡◌ {A = Outcome (ReturnCode × Application)} (done (failure, app)) (done (success, app'))
    → ⊥
failed e = cc

callbacks_name :
    (c : TcpServerController)
    → (Controller.set_server_notif_callbacks true true true c).name ≡ c.name
unfolding Controller.set_server_notif_callbacks
callbacks_name c = refl

-- The constructor keeps the name.
construct-name :
    (socket : Option ℕ) (ip_addr port_no : ℕ) (name : List ℕ)
    → Keeps (Controller.construct socket ip_addr port_no name) (λ c. c.name ≡ name)
unfolding Controller.construct Controller.set_bit
construct-name socket ip_addr port_no name =
    Keeps-then (λ c. c.name ≡ name) (Acceptor.construct socket) _ (λ acc. refl)

module _ (env : Environment) (a : Arguments) (name : List ℕ) (app app' : Application) where
  create-IsListedAs :
      (found : Option ℕ)
      → create env a name found app ≡ done (success, app')
      → IsListedAs env.address name app'
  unfolding create
  create-IsListedAs (some p) e = absurd (failed e)
  create-IsListedAs none e =
      subst (λ m. Keeps m (λ r. IsListedAs env.address name r.1)) e
        (Keeps-bind (λ c. c.name ≡ name) (λ r. IsListedAs env.address name r.1) _ _
          (construct-name env.socket (network_convert_ip_p_to_n env.inet_pton a.ip_addr) a.port_no
            name)
          (λ c named. (
            mem-last env.address env.address app.tcp_server_lst
                ∙ ap (λ b. mem env.address app.tcp_server_lst || b) (eq_refl env.address)
                ∙ or_true (mem env.address app.tcp_server_lst),
            Controller.set_server_notif_callbacks true true true c,
            find-put_same env.address (Controller.set_server_notif_callbacks true true true c)
                app.servers,
            callbacks_name c ∙ named,
          )))

  -- A creation that succeeds.
  created-IsListedAs :
      (mode : OpMode)
      → a.server_name ≡ some name
      → switch_command env a tcp_server_create mode app ≡ done (success, app')
      → IsListedAs env.address name app'
  unfolding switch_command
  created-IsListedAs mode named e =
      let (found, looked, made) =
        bind_done (tcp_server_lookup name app) (λ f. create env a name f app) (success, app')
          (ap (λ n. deref n >>= λ x. tcp_server_lookup x app >>= λ f. create env a x f app)
              (sym named)
            ∙ e) in
      create-IsListedAs found made

-- The list starts with live servers of different names. After a creation with a name succeeded, at an
-- address that is not in use, and any commands that returned, none of which stops a server, and for each
-- of which `new` gave an address that is not in use, a lookup of the name finds the created server, and
-- a creation with that name returns an error and changes nothing.
pub created_once :
    (env : Environment) (a : Arguments) (name : List ℕ) (mode : OpMode) (ts : List Typed)
    (app app' app'' : Application)
    → a.server_name ≡ some name
    → find env.address app.servers ≡ none
    → AllLive app.servers app.tcp_server_lst
    → NamesDiffer app
    → switch_command env a tcp_server_create mode app ≡ done (success, app')
    → NeverStops ts
    → GetsFresh ts app'
    → run_commands ts app' ≡ done app''
    → (tcp_server_lookup name app'' ≡ done (some env.address))
      × ((env' : Environment) (a' : Arguments) (mode' : OpMode)
          → a'.server_name ≡ some name
          → switch_command env' a' tcp_server_create mode' app'' ≡ done (failure, app''))
unfolding switch_command create
created_once env a name mode ts app app' app'' named unused live differ made never fresh ran =
    (found, (λ env' a' mode' named'. rw (named', found) refl))
  where
    changes : Changes env.address app app'
    changes =
        subst (λ m. Keeps m (λ r. Changes env.address app r.1)) made
          (switch_command_lem env a app tcp_server_create mode refl)

    kept : IsListedAs env.address name app''
    kept =
        subst (λ m. Keeps m (IsListedAs env.address name)) ran
          (run_commands-IsListedAs env.address name ts app' never fresh
            (created-IsListedAs env a name app app' mode named made))

    found : tcp_server_lookup name app'' ≡ done (some env.address)
    found =
        let (there, c, is_c, has) = kept in
        ap (λ n. tcp_server_lookup n app'') (sym has)
        ∙ (lookup_finds_server ts app' app'' never fresh
              (Changes-AllLive env.address app app' changes live)
              (Changes-NamesDiffer env.address app app' changes unused live differ) ran).1
            env.address c there is_c
