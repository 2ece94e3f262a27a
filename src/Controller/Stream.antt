-- ===== src/Controller/Stream.antt =====
-- What the application gets from one client over a run of a server: over any
-- turns of Controller/Run.
use linux_tcp_server.Base.{
  ℕ, ◌≡◌, ◌∙◌, ap, ap₂, inl, inr, refl, sym, subst, Bool, true, false, List, [], ◌∷◌, ◌++◌, find,
  Bool-cases, append-nil, append_assoc, ◌==◌, map,
}
use mathlib.Core.Bool.{false≢true}
use mathlib.Core.List.{map-append}
use linux_tcp_server.Stream.{Fit-append, Cut}
use linux_tcp_server.Demarcar.{payload}
use linux_tcp_server.ClientDb.{mem}
use linux_tcp_server.Service.{TcpClientServiceManager, Entry}
use linux_tcp_server.Service.Serve.{IsTended}
use linux_tcp_server.Service.Isolation.{received_from, delivered_for, IsTended-still, kept_unique}
use linux_tcp_server.Service.Logs.{CutsOwn, more_frames}
use linux_tcp_server.Controller.Run.{System, serving}

pub received_from-append :
    (p : ℕ) (l k : List Entry) → received_from p (l ++ k) ≡ received_from p l ++ received_from p k
received_from-append p [] k = refl
received_from-append p (e ∷ l) k = elim (Bool-cases (e.client == p)) [
  | inl own ↦ rw own (
      ap (λ x. e.received ++ x) (received_from-append p l k)
      ∙ sym (append_assoc e.received (received_from p l) (received_from p k)))
  | inr other ↦ rw other (received_from-append p l k)
]

delivered_for-append :
    (p : ℕ) (l k : List Entry) → delivered_for p (l ++ k) ≡ delivered_for p l ++ delivered_for p k
delivered_for-append p [] k = refl
delivered_for-append p (e ∷ l) k = elim (Bool-cases (e.client == p)) [
  | inl own ↦ rw own (
      ap (λ x. e.deliveries ++ x) (delivered_for-append p l k)
      ∙ sym (append_assoc e.deliveries (delivered_for p l) (delivered_for p k)))
  | inr other ↦ rw other (delivered_for-append p l k)
]

-- Nothing in the log is of the client.
abbrev IsQuiet : ℕ → List Entry → Type 0
IsQuiet p fresh = (received_from p fresh ≡ []) × (delivered_for p fresh ≡ [])

-- From a state with the manager `m` to one with `m'`: if the client `p` was listed, the messages that
-- were delivered for it are the frames of the bytes that its ring held and those received from it since,
-- none larger than the ring, and its ring holds the rest, if it is still listed; if it was not, then
-- nothing was received from it. It has not joined the list.
abbrev pub CutsThrough :
    {W : Type 0}
    → ℕ
    → System W
    → System W
    → TcpClientServiceManager
    → TcpClientServiceManager
    → Type 0
CutsThrough p s s' m m' =
    (fresh : List Entry) × (s'.log ≡ s.log ++ fresh)
    × (mem p m'.tcp_client_db ≡ true → mem p m.tcp_client_db ≡ true)
    × (mem p m.tcp_client_db ≡ true
        → (t : IsTended 256 s.host p) → CutsOwn 256 p t.kept fresh (serving s' m'))
    × (mem p m.tcp_client_db ≡ false → IsQuiet p fresh)

-- A step that serves no event, in which the client does not change.
pub quiet-CutsThrough :
    {W : Type 0} (p : ℕ) (s s' : System W) (m m' : TcpClientServiceManager)
    → s'.log ≡ s.log
    → (mem p m'.tcp_client_db ≡ true → mem p m.tcp_client_db ≡ true)
    → (mem p m.tcp_client_db ≡ true → find p s'.host.clients ≡ find p s.host.clients)
    → CutsThrough p s s' m m'
quiet-CutsThrough p s s' m m' same_log joins same = (
  [],
  same_log ∙ sym (append-nil s.log),
  joins,
  (λ there t. (
    t.kept,
    (append-nil t.kept, t.incomplete),
    (λ there' u.
        let (v, kept) = IsTended-still 256 p s.host s'.host (same there) t in
        kept_unique 256 p s'.host u v ∙ kept),
    tt,
  )),
  (λ absent. (refl, refl)),
)

module _ {W : Type 0} (p : ℕ) (s s' s'' : System W) (m m' m'' : TcpClientServiceManager)
    (first : CutsThrough p s s' m m') (second : CutsThrough p s' s'' m' m'')
    (tended : mem p m'.tcp_client_db ≡ true → IsTended 256 s'.host p) where
  abbrev both : List Entry
  both = first.0 ++ second.0

  goes_on_cutting :
      (t : IsTended 256 s.host p) (b : Bool)
      → mem p m.tcp_client_db ≡ true
      → mem p m'.tcp_client_db ≡ b
      → CutsOwn 256 p t.kept both (serving s'' m'')
  goes_on_cutting t true there there' =
      let u = tended there' in
      let (rest, cut, held, fit) = first.3 there t in
      let (last, more, held', fit') = second.3 there' u in
      (
        last,
        rw (received_from-append p first.0 second.0, delivered_for-append p first.0 second.0)
            (more_frames t.kept (received_from p first.0) (received_from p second.0)
              (delivered_for p first.0) (delivered_for p second.0) rest last cut
              (subst
                (λ x.
                  Cut (x ++ received_from p second.0) (map payload (delivered_for p second.0)) last)
                (held there' u) more)),
        held',
        rw
            (
              delivered_for-append p first.0 second.0,
              map-append payload (delivered_for p first.0) (delivered_for p second.0),
            )
            (Fit-append 256 (map payload (delivered_for p first.0))
              (map payload (delivered_for p second.0)) fit fit'),
      )
  goes_on_cutting t false there gone =
      let (rest, cut, held, fit) = first.3 there t in
      let (nothing, none_delivered) = second.4 gone in
      (
        rest,
        rw
            (
              received_from-append p first.0 second.0,
              delivered_for-append p first.0 second.0,
              nothing,
              none_delivered,
              append-nil (received_from p first.0),
              append-nil (delivered_for p first.0),
            )
            cut,
        (λ there'' u. absurd (false≢true (sym gone ∙ second.2 there''))),
        rw
            (
              delivered_for-append p first.0 second.0,
              none_delivered,
              append-nil (delivered_for p first.0),
            )
            fit,
      )

  stays_out :
      (b : Bool) → mem p m.tcp_client_db ≡ false → mem p m'.tcp_client_db ≡ b → IsQuiet p both
  stays_out true absent there = absurd (false≢true (sym absent ∙ first.2 there))
  stays_out false absent absent' =
      let (nothing, none_delivered) = first.4 absent in
      let (nothing', none_delivered') = second.4 absent' in
      (
        received_from-append p first.0 second.0 ∙ ap₂ ◌++◌ nothing nothing',
        delivered_for-append p first.0 second.0 ∙ ap₂ ◌++◌ none_delivered none_delivered',
      )

  pub then-CutsThrough : CutsThrough p s s'' m m''
  then-CutsThrough = (
    both,
    second.1 ∙ ap (λ x. x ++ second.0) first.1 ∙ append_assoc s.log first.0 second.0,
    (λ there. first.2 (second.2 there)),
    (λ there t. goes_on_cutting t _ there refl),
    (λ absent. stays_out _ absent refl),
  )
