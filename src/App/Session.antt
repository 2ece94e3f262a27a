-- ===== src/App/Session.antt =====
-- What a user's commands do to the list of servers of testapp.cpp, as long as none of them stops a
-- server.
use linux_tcp_server.Base.{
  ℕ, ◌≡◌, ◌∙◌, inl, inr, sym, subst, true, false, some, List, [], ◌∷◌, ◌++◌, find, put,
  find-put_same, find-put_other, Outcome, done, ◌>>=◌, Returns, Keeps, Keeps-bind, ℕ_discrete,
}
use mathlib.Core.Bool.{false≢true}
use linux_tcp_server.ClientDb.{mem}
use linux_tcp_server.Service.Lookup.{mem_cases, head_mem, tail_mem}
use linux_tcp_server.Controller.{TcpServerController}
use linux_tcp_server.App.{Application, Tlv, default_arguments, scan_tlvs, tcp_server_lookup}
use linux_tcp_server.App.Commands.{Environment, OpMode, command_of, config_tcp_server_handler}
use linux_tcp_server.App.Changes.{stops, Changes, nothing, updates, creates, switch_command_lem}
use linux_tcp_server.App.Lookup.{AllLive, Finds, tcp_server_lookup_lem}

-- One command that a user typed.
pub record Typed : Type 0 where
  pub env : Environment
  pub cmd_code : ℕ
  pub tlvs : List Tlv
  pub mode : OpMode

-- The handler of configuration commands, called for each command in turn.
unfoldable pub run_commands : List Typed → Application → Outcome Application
run_commands [] app = done app
run_commands (t ∷ ts) app = do
  (code, app') ← config_tcp_server_handler t.env t.cmd_code t.tlvs t.mode app
  run_commands ts app'

abbrev pub NeverStops : List Typed → Type 0
NeverStops [] = Unit
NeverStops (t ∷ ts) = (stops (command_of t.cmd_code) t.mode ≡ false) × NeverStops ts

put-AllLive :
    (p : ℕ) (c : TcpServerController) (servers : List (ℕ × TcpServerController)) (l : List ℕ)
    → AllLive servers l
    → AllLive (put p c servers) l
put-AllLive p c servers l live q there = elim (ℕ_discrete p q) [
  | yes same ↦ (c, subst (λ x. find x (put p c servers) ≡ some c) same (find-put_same p c servers))
  | no differ ↦ let (d, is_d) = live q there in (d, find-put_other p q c servers differ ∙ is_d)
]

append-AllLive :
    (p : ℕ) (c : TcpServerController) (servers : List (ℕ × TcpServerController)) (l : List ℕ)
    → find p servers ≡ some c
    → AllLive servers l
    → AllLive servers (l ++ p ∷ [])
append-AllLive p c servers [] is_c live q there = elim (mem_cases q p [] there) [
  | inl same ↦ (c, subst (λ x. find x servers ≡ some c) same is_c)
  | inr none_left ↦ absurd (false≢true none_left)
]
append-AllLive p c servers (r ∷ l) is_c live q there = elim (mem_cases q r (l ++ p ∷ []) there) [
  | inl same ↦ live q (subst (λ x. mem x (r ∷ l) ≡ true) same (head_mem r l))
  | inr behind ↦ append-AllLive p c servers l is_c (λ x k. live x (tail_mem x r l k)) q behind
]

pub Changes-AllLive :
    (address : ℕ) (app app' : Application)
    → Changes address app app'
    → AllLive app.servers app.tcp_server_lst
    → AllLive app'.servers app'.tcp_server_lst
Changes-AllLive address app app' (nothing same) live =
    subst (λ x. AllLive x.servers x.tcp_server_lst) (sym same) live
Changes-AllLive address app app' (updates p c c' is_c named stored listed) live =
    subst (λ l. AllLive app'.servers l) (sym listed)
      (subst (λ x. AllLive x app.tcp_server_lst) (sym stored)
        (put-AllLive p c' app.servers app.tcp_server_lst live))
Changes-AllLive address app app' (creates name c unknown named stored listed) live =
    subst (λ l. AllLive app'.servers l) (sym listed)
      (subst (λ x. AllLive x (app.tcp_server_lst ++ address ∷ [])) (sym stored)
        (append-AllLive address c (put address c app.servers) app.tcp_server_lst
          (find-put_same address c app.servers)
          (put-AllLive address c app.servers app.tcp_server_lst live)))

run_commands-AllLive :
    (ts : List Typed) (app : Application)
    → NeverStops ts
    → AllLive app.servers app.tcp_server_lst
    → Keeps (run_commands ts app) (λ app'. AllLive app'.servers app'.tcp_server_lst)
unfolding run_commands config_tcp_server_handler
run_commands-AllLive [] app never live = live
run_commands-AllLive (t ∷ ts) app (goes_on, never) live =
    Keeps-bind (λ r. Changes t.env.address app r.1)
      (λ app'. AllLive app'.servers app'.tcp_server_lst) _ _
      (switch_command_lem t.env (scan_tlvs t.env.atoi t.tlvs default_arguments) app
        (command_of t.cmd_code) t.mode goes_on)
      (λ (code, app') k.
        run_commands-AllLive ts app' never (Changes-AllLive t.env.address app app' k live))

-- The list starts with live servers. After any commands that return, none of which stops a server,
-- every lookup of a name returns a live server of the list with that name, or null if there is none.
pub lookups_after_commands :
    (ts : List Typed) (app app' : Application) (name : List ℕ)
    → NeverStops ts
    → AllLive app.servers app.tcp_server_lst
    → run_commands ts app ≡ done app'
    → Returns (tcp_server_lookup name app') (Finds app'.servers app'.tcp_server_lst name)
lookups_after_commands ts app app' name never live ran = tcp_server_lookup_lem name app' (
    subst (λ m. Keeps m (λ x. AllLive x.servers x.tcp_server_lst)) ran
      (run_commands-AllLive ts app never live))
