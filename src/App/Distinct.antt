-- ===== src/App/Distinct.antt =====
-- No command of testapp.cpp but the one that stops a server gives two servers one name.
use linux_tcp_server.Base.{
  none_not_some, ℕ, ◌≡◌, ◌≢◌, ◌⊎◌, ◌∙◌, ap, inl, inr, refl, sym, subst, true, Option, none, some,
  List, [], ◌∷◌, ◌++◌, find, put, find-put_same, find-put_other, some_inj, same_text, done, Returns,
  ℕ_discrete,
}
use linux_tcp_server.ClientDb.{mem}
use linux_tcp_server.Controller.{TcpServerController}
use linux_tcp_server.Controller.Joining.{mem-last_other}
use linux_tcp_server.Demarcar.{deref}
use linux_tcp_server.App.{Application, tcp_server_lookup}
use linux_tcp_server.App.Lookup.{AllLive, Finds, same_text_refl, tcp_server_lookup_lem}
use linux_tcp_server.App.Changes.{Changes, nothing, updates, creates}

-- No two servers of the list have one name.
abbrev pub NamesDiffer : Application → Type 0
NamesDiffer app =
    (p q : ℕ) (c d : TcpServerController)
    → mem p app.tcp_server_lst ≡ true
    → mem q app.tcp_server_lst ≡ true
    → find p app.servers ≡ some c
    → find q app.servers ≡ some d
    → c.name ≡ d.name
    → p ≡ q

last_cases : (q p : ℕ) (l : List ℕ) → mem q (l ++ p ∷ []) ≡ true → (p ≡ q) ⊎ (mem q l ≡ true)
last_cases q p l there = elim (ℕ_discrete p q) [
  | yes same ↦ inl same
  | no differ ↦ inr (mem-last_other q p l differ there)
]

-- A server that changes keeps its name.
name_before :
    (p q : ℕ) (c c' d' : TcpServerController) (servers : List (ℕ × TcpServerController))
    → find p servers ≡ some c
    → c'.name ≡ c.name
    → find q (put p c' servers) ≡ some d'
    → (d : TcpServerController) × (find q servers ≡ some d) × (d'.name ≡ d.name)
name_before p q c c' d' servers is_c named is_d' = elim (ℕ_discrete p q) [
  | yes same ↦ (
    c,
    ap (λ x. find x servers) (sym same) ∙ is_c,
    ap (λ x. x.name)
          (some_inj (
            sym is_d'
            ∙ ap (λ x. find x (put p c' servers)) (sym same)
            ∙ find-put_same p c' servers))
        ∙ named,
  )
  | no differ ↦ (d', sym (find-put_other p q c' servers differ) ∙ is_d', refl)
]

pub is_loaded : {A : Type 0} {a : A} (o : Option A) → deref o ≡ done a → o ≡ some a
is_loaded none e = cc
is_loaded (some b) e = cc

-- A new server has another name than the listed ones, if a lookup of its name found nothing.
module _ (address : ℕ) (name : List ℕ) (c : TcpServerController) (app : Application)
    (unused : find address app.servers ≡ none) (live : AllLive app.servers app.tcp_server_lst)
    (unknown : tcp_server_lookup name app ≡ done none) (named : c.name ≡ name) where
  abbrev after : List (ℕ × TcpServerController)
  after = put address c app.servers

  other_address : (q : ℕ) → mem q app.tcp_server_lst ≡ true → address ≢ q
  other_address q there same =
      let (d, is_d) = live q there in
      none_not_some (sym unused ∙ ap (λ x. find x app.servers) same ∙ is_d)

  -- A server that was there is as it was.
  was_there :
      (q : ℕ) (d : TcpServerController)
      → mem q app.tcp_server_lst ≡ true
      → find q after ≡ some d
      → find q app.servers ≡ some d
  was_there q d there is_d =
      sym (find-put_other address q c app.servers (other_address q there)) ∙ is_d

  has_other_name :
      (q : ℕ) (d : TcpServerController)
      → mem q app.tcp_server_lst ≡ true
      → find q after ≡ some d
      → d.name ≡ name
      → ⊥
  has_other_name q d there is_d same =
      let found =
        subst (λ m. Returns m (Finds app.servers app.tcp_server_lst name)) unknown
          (tcp_server_lookup_lem name app live) in
      found q there (
        d,
        was_there q d there is_d,
        subst (λ x. same_text x name ≡ true) (sym same) (same_text_refl name),
      )

  is_new : (q : ℕ) (d : TcpServerController) → address ≡ q → find q after ≡ some d → d.name ≡ name
  is_new q d same is_d =
      ap (λ x. x.name)
        (some_inj
          (sym is_d ∙ ap (λ x. find x after) (sym same) ∙ find-put_same address c app.servers))
      ∙ named

  with_new :
      (p q : ℕ) (d e : TcpServerController)
      → mem p (app.tcp_server_lst ++ address ∷ []) ≡ true
      → mem q (app.tcp_server_lst ++ address ∷ []) ≡ true
      → find p after ≡ some d
      → find q after ≡ some e
      → d.name ≡ e.name
      → NamesDiffer app
      → p ≡ q
  with_new p q d e p_in q_in is_d is_e same differ =
      elim (last_cases p address app.tcp_server_lst p_in) [
        | inl p_new ↦ elim (last_cases q address app.tcp_server_lst q_in) [
          | inl q_new ↦ sym p_new ∙ q_new
          | inr q_old ↦ absurd (has_other_name q e q_old is_e (sym same ∙ is_new p d p_new is_d))
        ]
        | inr p_old ↦ elim (last_cases q address app.tcp_server_lst q_in) [
          | inl q_new ↦ absurd (has_other_name p d p_old is_d (same ∙ is_new q e q_new is_e))
          | inr q_old ↦
              differ p q d e p_old q_old (was_there p d p_old is_d) (was_there q e q_old is_e) same
        ]
      ]

pub Changes-NamesDiffer :
    (address : ℕ) (app app' : Application)
    → Changes address app app'
    → find address app.servers ≡ none
    → AllLive app.servers app.tcp_server_lst
    → NamesDiffer app
    → NamesDiffer app'
Changes-NamesDiffer address app app' (nothing same) unused live differ =
    subst NamesDiffer (sym same) differ
Changes-NamesDiffer address app app' (updates p c c' is_c named stored listed) unused live differ =
    λ q r d e q_in r_in is_d is_e same.
      let old : (x : ℕ) (k : TcpServerController)
          → find x app'.servers ≡ some k
          → (b : TcpServerController) × (find x app.servers ≡ some b) × (k.name ≡ b.name) =
        λ x k is_x.
          name_before p x c c' k app.servers (is_loaded (find p app.servers) is_c) named
            (ap (find x) (sym stored) ∙ is_x) in
      let (d0, is_d0, same_d) = old q d is_d in
      let (e0, is_e0, same_e) = old r e is_e in
      differ q r d0 e0 (ap (mem q) (sym listed) ∙ q_in) (ap (mem r) (sym listed) ∙ r_in) is_d0 is_e0
        (sym same_d ∙ same ∙ same_e)
Changes-NamesDiffer address app app' (creates name c unknown named stored listed) unused live
      differ =
    λ p q d e p_in q_in is_d is_e same.
      with_new address name c app unused live unknown named p q d e (ap (mem p) (sym listed) ∙ p_in)
        (ap (mem q) (sym listed) ∙ q_in) (ap (find p) (sym stored) ∙ is_d)
        (ap (find q) (sym stored) ∙ is_e) same differ
