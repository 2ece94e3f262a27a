-- ===== src/Service/Logs.antt =====
-- What a run of the service thread of TcpClientServiceManager.cpp adds to the log, client by client.
use linux_tcp_server.Base.{
  ℕ, ◌≡◌, ◌≢◌, refl, sym, subst, true, false, List, [], ◌∷◌, ◌++◌, map, eq_false, eq_refl,
  append-nil, append_assoc,
}
use mathlib.Core.List.{map-append}
use linux_tcp_server.Stream.{Fit, Fit-append, Cut, Cut-append}
use linux_tcp_server.Demarcar.{Delivery, payload}
use linux_tcp_server.ClientDb.{mem}
use linux_tcp_server.Service.{Entry, Serving}
use linux_tcp_server.Service.Lookup.{HasFd}
use linux_tcp_server.Service.Serve.{IsTended}
use linux_tcp_server.Service.Isolation.{Tends, received_from, delivered_for, kept_unique}

-- The messages of `p` in the log are the frames of the bytes `c` and of its bytes in the log, and its
-- ring holds what is left in the end, if `p` is still listed. No message is larger than the ring.
abbrev pub CutsOwn : {W : Type 0} → ℕ → ℕ → List ℕ → List Entry → Serving W → Type 0
CutsOwn size p c fresh s' =
    (rest : List ℕ) × Cut (c ++ received_from p fresh) (map payload (delivered_for p fresh)) rest
    × (mem p s'.manager.tcp_client_db ≡ true → (t : IsTended size s'.host p) → t.kept ≡ rest)
    × Fit size (map payload (delivered_for p fresh))

-- What a run adds to the log, client by client.
abbrev pub Runs : {W : Type 0} → ℕ → Serving W → Serving W → Type 0
Runs size s s' =
    (fresh : List Entry) × (s'.log ≡ s.log ++ fresh)
    × ((p : ℕ) (t : IsTended size s.host p)
        → mem p s.manager.tcp_client_db ≡ true
        → CutsOwn size p t.kept fresh s')
    × ((p : ℕ)
        → mem p s.manager.tcp_client_db ≡ false
        → (received_from p fresh ≡ []) × (delivered_for p fresh ≡ []))

-- Every client of the list was in it before, with its descriptor.
abbrev pub NobodyJoins : {W : Type 0} → Serving W → Serving W → Type 0
NobodyJoins s s' =
    (q : ℕ)
    → mem q s'.manager.tcp_client_db ≡ true
    → (mem q s.manager.tcp_client_db ≡ true) × ((g : ℕ) → HasFd s'.host q g → HasFd s.host q g)

abbrev pub Continues : {W : Type 0} → ℕ → Serving W → Serving W → Type 0
Continues size s s' =
    Tends size s'.manager s'.host
    × (s'.manager.is_ready ≡ s.manager.is_ready)
    × NobodyJoins s s'
    × Runs size s s'

pub Runs-nothing : {W : Type 0} (size : ℕ) (s : Serving W) → Runs size s s
Runs-nothing size s = (
  [],
  sym (append-nil s.log),
  (λ p t there.
      (t.kept, (append-nil t.kept, t.incomplete), (λ k u. kept_unique size p s.host u t), tt)),
  (λ p absent. (refl, refl)),
)

unfoldable pub entry : ℕ → List ℕ → List Delivery → Entry
entry p bs ms = record { client = p; received = bs; deliveries = ms }

-- More bytes of a client, and the messages that they complete.
pub more_frames :
    (c bs later : List ℕ) (ms ns : List Delivery) (rest last : List ℕ)
    → Cut (c ++ bs) (map payload ms) rest
    → Cut (rest ++ later) (map payload ns) last
    → Cut (c ++ (bs ++ later)) (map payload (ms ++ ns)) last
more_frames c bs later ms ns rest last cut more =
    subst (λ x. Cut x (map payload (ms ++ ns)) last) (append_assoc c bs later)
      (subst (λ x. Cut ((c ++ bs) ++ later) x last) (sym (map-append payload ms ns))
        (Cut-append (c ++ bs) later (map payload ms) (map payload ns) rest last cut more))

module _ {W : Type 0} (size : ℕ) (s' : Serving W) where
  pub cuts_other :
      (p q : ℕ) (c bs : List ℕ) (ms : List Delivery) (fresh : List Entry)
      → p ≢ q
      → CutsOwn size q c fresh s'
      → CutsOwn size q c (entry p bs ms ∷ fresh) s'
  unfolding entry
  cuts_other p q c bs ms fresh differ k = rw (eq_false p q differ) k

  pub cuts_first :
      (p : ℕ) (c bs : List ℕ) (ms : List Delivery) (rest : List ℕ) (fresh : List Entry)
      → Cut (c ++ bs) (map payload ms) rest
      → Fit size (map payload ms)
      → CutsOwn size p rest fresh s'
      → CutsOwn size p c (entry p bs ms ∷ fresh) s'
  unfolding entry
  cuts_first p c bs ms rest fresh cut fit (last, more, held, fit') = rw (eq_refl p) (
    last,
    more_frames c bs (received_from p fresh) ms (delivered_for p fresh) rest last cut more,
    held,
    subst (Fit size) (sym (map-append payload ms (delivered_for p fresh)))
        (Fit-append size (map payload ms) (map payload (delivered_for p fresh)) fit fit'),
  )

  pub cuts_none :
      (p : ℕ) (c bs : List ℕ) (ms : List Delivery) (rest : List ℕ) (fresh : List Entry)
      → Cut (c ++ bs) (map payload ms) rest
      → Fit size (map payload ms)
      → received_from p fresh ≡ []
      → delivered_for p fresh ≡ []
      → (mem p s'.manager.tcp_client_db ≡ true → ⊥)
      → CutsOwn size p c (entry p bs ms ∷ fresh) s'
  unfolding entry
  cuts_none p c bs ms rest fresh cut fit none_received none_delivered gone =
      rw (eq_refl p, none_received, none_delivered, append-nil bs, append-nil ms)
        (rest, cut, (λ there t. absurd (gone there)), fit)

pub quiet_other :
    (p q : ℕ) (bs : List ℕ) (ms : List Delivery) (fresh : List Entry)
    → p ≢ q
    → (received_from q fresh ≡ []) × (delivered_for q fresh ≡ [])
    → (received_from q (entry p bs ms ∷ fresh) ≡ [])
      × (delivered_for q (entry p bs ms ∷ fresh) ≡ [])
unfolding entry
quiet_other p q bs ms fresh differ k = rw (eq_false p q differ) k
