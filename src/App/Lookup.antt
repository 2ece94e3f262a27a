-- ===== src/App/Lookup.antt =====
-- The lookup of testapp.cpp over servers that are live.
use linux_tcp_server.Base.{
  ap₂, some_inj, ℕ, ◌≡◌, ◌∙◌, inl, inr, ap, refl, sym, true, false, Option, none, some, List, [],
  ◌∷◌, arith, find, same_text, Returns, Returns-mono, eq_refl, Bool-cases, ap₂,
}
use mathlib.Core.Bool.{false≢true}
use linux_tcp_server.ClientDb.{mem}
use linux_tcp_server.Service.Lookup.{mem_cases, head_mem, tail_mem}
use linux_tcp_server.Controller.{TcpServerController}
use linux_tcp_server.App.{Application, lookup_in, tcp_server_lookup}

pub same_text_refl : (s : List ℕ) → same_text s s ≡ true
same_text_refl [] = refl
same_text_refl (c ∷ s) = rw (eq_refl c, same_text_refl s) refl

pub same_text_sound : (s t : List ℕ) → same_text s t ≡ true → s ≡ t
same_text_sound [] [] e = refl
same_text_sound [] (d ∷ t) e = cc
same_text_sound (c ∷ s) [] e = cc
same_text_sound (c ∷ s) (d ∷ t) e =
    ap₂ ◌∷◌ (ground (arith, e)) (same_text_sound s t (ground (arith, e)))

-- The pointer is a live controller of that name.
abbrev IsNamed : List (ℕ × TcpServerController) → ℕ → List ℕ → Type 0
IsNamed servers p name =
    (c : TcpServerController) × (find p servers ≡ some c) × (same_text c.name name ≡ true)

abbrev pub AllLive : List (ℕ × TcpServerController) → List ℕ → Type 0
AllLive servers l = (p : ℕ) → mem p l ≡ true → (c : TcpServerController) × (find p servers ≡ some c)

abbrev pub Finds : List (ℕ × TcpServerController) → List ℕ → List ℕ → Option ℕ → Type 0
Finds servers l name none = (p : ℕ) → mem p l ≡ true → ¬ IsNamed servers p name
Finds servers l name (some p) = (mem p l ≡ true) × IsNamed servers p name

-- A server in front that has another name changes nothing.
Finds-behind :
    (servers : List (ℕ × TcpServerController)) (name : List ℕ) (q : ℕ) (c : TcpServerController)
    (l : List ℕ)
    → find q servers ≡ some c
    → same_text c.name name ≡ false
    → (r : Option ℕ) → Finds servers l name r
    → Finds servers (q ∷ l) name r
Finds-behind servers name q c l is_c differ none found = λ p there (d, is_d, same).
    elim (mem_cases p q l there) [
      | inl here ↦ false≢true (
          sym differ
          ∙ ap (λ x. same_text x.name name)
              (some_inj (sym is_c ∙ ap (λ x. find x servers) here ∙ is_d))
          ∙ same)
      | inr behind ↦ found p behind (d, is_d, same)
    ]
Finds-behind servers name q c l is_c differ (some p) (there, k) = (tail_mem p q l there, k)

lookup_in_lem :
    (servers : List (ℕ × TcpServerController)) (name : List ℕ) (l : List ℕ)
    → AllLive servers l
    → Returns (lookup_in servers name l) (Finds servers l name)
unfolding lookup_in
lookup_in_lem servers name [] live = λ p there k. false≢true there
lookup_in_lem servers name (q ∷ l) live =
    let (c, is_c) = live q (head_mem q l) in
    rw is_c (elim (Bool-cases (same_text c.name name)) [
      | inl same ↦ rw same (head_mem q l, (c, is_c, same))
      | inr differ ↦ rw differ (
          Returns-mono (Finds servers l name) (Finds servers (q ∷ l) name) _
            (lookup_in_lem servers name l (λ p there. live p (tail_mem p q l there)))
            (Finds-behind servers name q c l is_c differ))
    ])

-- `TcpServer_lookup` over live servers returns one of the list with the name, and null if there is
-- none.
pub tcp_server_lookup_lem :
    (name : List ℕ) (app : Application)
    → AllLive app.servers app.tcp_server_lst
    → Returns (tcp_server_lookup name app) (Finds app.servers app.tcp_server_lst name)
unfolding tcp_server_lookup
tcp_server_lookup_lem name app live = lookup_in_lem app.servers name app.tcp_server_lst live
