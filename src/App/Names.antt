-- ===== src/App/Names.antt =====
-- The names of the servers of testapp.cpp over a user's commands: a lookup finds the one server that
-- has the name.
use linux_tcp_server.Base.{
  ℕ, ◌≡◌, ap, subst, true, Option, none, some, List, [], ◌∷◌, find, Outcome, done, blocked, fault,
  exited, exhausted, false, Returns, Keeps, Keeps-bind, Keeps-self,
}
use linux_tcp_server.ClientDb.{mem}
use linux_tcp_server.Controller.{TcpServerController}
use linux_tcp_server.App.{Application, default_arguments, scan_tlvs, tcp_server_lookup}
use linux_tcp_server.App.Commands.{ReturnCode, command_of, config_tcp_server_handler}
use linux_tcp_server.App.Lookup.{
  AllLive, Finds, same_text_refl, same_text_sound, tcp_server_lookup_lem,
}
use linux_tcp_server.App.Changes.{stops, Changes, switch_command_lem}
use linux_tcp_server.App.Session.{Typed, run_commands, NeverStops, Changes-AllLive}
use linux_tcp_server.App.Distinct.{NamesDiffer, Changes-NamesDiffer}

-- `new` gives an address that is not that of a live server, for each command.
unfoldable pub GetsFresh : List Typed → Application → Type 0
GetsFresh [] app = Unit
GetsFresh (t ∷ ts) app =
    (find t.env.address app.servers ≡ none)
    × ((code : ReturnCode) (app' : Application)
        → config_tcp_server_handler t.env t.cmd_code t.tlvs t.mode app ≡ done (code, app')
        → GetsFresh ts app')

abbrev AreInOrder : Application → Type 0
AreInOrder app = AllLive app.servers app.tcp_server_lst × NamesDiffer app

-- What a command that returns did.
pub command-Changes :
    (t : Typed) (app : Application) (code : ReturnCode) (app' : Application)
    → stops (command_of t.cmd_code) t.mode ≡ false
    → config_tcp_server_handler t.env t.cmd_code t.tlvs t.mode app ≡ done (code, app')
    → Changes t.env.address app app'
unfolding config_tcp_server_handler
command-Changes t app code app' goes_on ran =
    subst (λ m. Keeps m (λ r. Changes t.env.address app r.1)) ran
      (switch_command_lem t.env (scan_tlvs t.env.atoi t.tlvs default_arguments) app
        (command_of t.cmd_code) t.mode goes_on)

after_command :
    (t : Typed) (app : Application) (code : ReturnCode) (app' : Application)
    → stops (command_of t.cmd_code) t.mode ≡ false
    → find t.env.address app.servers ≡ none
    → config_tcp_server_handler t.env t.cmd_code t.tlvs t.mode app ≡ done (code, app')
    → AreInOrder app
    → AreInOrder app'
after_command t app code app' goes_on unused ran (live, differ) =
    let changes = command-Changes t app code app' goes_on ran in
    (
      Changes-AllLive t.env.address app app' changes live,
      Changes-NamesDiffer t.env.address app app' changes unused live differ,
    )

run_commands-AreInOrder :
    (ts : List Typed) (app : Application)
    → NeverStops ts
    → GetsFresh ts app
    → AreInOrder app
    → Keeps (run_commands ts app) AreInOrder
unfolding run_commands GetsFresh
run_commands-AreInOrder [] app never fresh k = k
run_commands-AreInOrder (t ∷ ts) app (goes_on, never) (unused, fresh) k =
    Keeps-bind (λ r. config_tcp_server_handler t.env t.cmd_code t.tlvs t.mode app ≡ done r)
      AreInOrder _ _ (Keeps-self (config_tcp_server_handler t.env t.cmd_code t.tlvs t.mode app))
      (λ (code, app') ran.
        run_commands-AreInOrder ts app' never (fresh code app' ran)
          (after_command t app code app' goes_on unused ran k))

-- What a lookup finds is the one server with the name.
found_only :
    (app : Application) (p : ℕ) (c : TcpServerController) (m : Outcome (Option ℕ))
    → mem p app.tcp_server_lst ≡ true
    → find p app.servers ≡ some c
    → NamesDiffer app
    → Returns m (Finds app.servers app.tcp_server_lst c.name)
    → m ≡ done (some p)
found_only app p c (done none) there is_c differ found =
    absurd (found p there (c, is_c, same_text_refl c.name))
found_only app p c (done (some q)) there is_c differ (q_in, (d, is_d, same)) =
    ap (λ x. done (some x))
      (differ q p d c q_in there is_d is_c (same_text_sound d.name c.name same))
found_only app p c blocked there is_c differ r = absurd r
found_only app p c fault there is_c differ r = absurd r
found_only app p c exited there is_c differ r = absurd r
found_only app p c exhausted there is_c differ r = absurd r

-- The list starts with live servers of different names. After any commands that return, none of which
-- stops a server, and for each of which `new` gives an address that is not in use, no two servers of the
-- list have one name, and the lookup of the name of a listed server returns this server.
pub lookup_finds_server :
    (ts : List Typed) (app app' : Application)
    → NeverStops ts
    → GetsFresh ts app
    → AllLive app.servers app.tcp_server_lst
    → NamesDiffer app
    → run_commands ts app ≡ done app'
    → NamesDiffer app'
      × ((p : ℕ) (c : TcpServerController)
          → mem p app'.tcp_server_lst ≡ true
          → find p app'.servers ≡ some c
          → tcp_server_lookup c.name app' ≡ done (some p))
lookup_finds_server ts app app' never fresh live differ ran = (
  k.1,
  (λ p c there is_c.
      found_only app' p c (tcp_server_lookup c.name app') there is_c k.1
        (tcp_server_lookup_lem c.name app' k.0)),
)
  where
    k : AllLive app'.servers app'.tcp_server_lst × NamesDiffer app'
    k =
        subst (λ m. Keeps m AreInOrder) ran
          (run_commands-AreInOrder ts app never fresh (live, differ))
