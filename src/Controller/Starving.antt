-- ===== src/Controller/Starving.antt =====
-- A client of the server whose stream starts with the header of a frame that the ring cannot hold gets
-- nothing delivered, as the one that tcp_client_string_sender.cpp connects.
use linux_tcp_server.Base.{
  ℕ, zero, suc, ◌+◌, ◌<◌, ◌≡◌, ◌∙◌, ap, refl, sym, subst, true, List, [], ◌∷◌, ◌++◌, map, arith,
  length, drop, drop-append, get_or,
}
use linux_tcp_server.Stream.{Cut, Fit, ntohs}
use linux_tcp_server.Demarcar.{Delivery, payload}
use linux_tcp_server.Receive.{Recv}
use linux_tcp_server.Receive.Stream.{IsBounded}
use linux_tcp_server.ClientDb.{mem}
use linux_tcp_server.Service.{Entry}
use linux_tcp_server.Service.Serve.{IsTended}
use linux_tcp_server.Service.Isolation.{received_from, delivered_for}
use linux_tcp_server.Senders.{string_rounds}
use linux_tcp_server.Controller.Run.{System, AcceptsOther, ReachesWith}
use linux_tcp_server.Controller.InOrder.{InOrder}
use linux_tcp_server.Controller.Integrity.{reachable_streams}

none_fits :
    (size : ℕ) (c rest : List ℕ) (ds : List Delivery)
    → size < 2 + ntohs c
    → Cut c (map payload ds) rest
    → Fit size (map payload ds)
    → ds ≡ []
none_fits size c rest [] big cut fit = refl
none_fits size c rest (m ∷ ds) big (h, l, tail, e, k, _) fit =
    absurd (omega (arith, ap ntohs e, fit.0))

none_in_nothing : (rest : List ℕ) (ds : List Delivery) → Cut [] (map payload ds) rest → ds ≡ []
none_in_nothing rest [] cut = refl
none_in_nothing rest (m ∷ ds) (h, l, tail, e, k, _) = absurd (omega (arith, ap length e))

append_same : (l x y : List Entry) → l ++ x ≡ l ++ y → x ≡ y
append_same l x y e =
    sym (drop-append l x (length l) refl) ∙ ap (drop (length l)) e ∙ drop-append l y (length l) refl

-- What has come of the stream of tcp_client_string_sender.cpp is nothing, or it starts with an `H`.
starts_large :
    (n : ℕ) (c more : List ℕ) → c ++ more ≡ string_rounds n → 0 < length c → 256 < 2 + ntohs c
unfolding string_rounds
starts_large n [] more e some_there = absurd (omega arith)
starts_large zero (a ∷ c) more e some_there = absurd (omega (arith, ap length e))
starts_large (suc n) (a ∷ c) more e some_there = omega (arith, first)
  where
    first : a ≡ 72
    first = ap (λ l. get_or l 0 0) e

module _ {W : Type 0} (recv : ℕ → ℕ → W → Recv × W)
    (bounded : (fd space : ℕ) (w : W) → IsBounded space (recv fd space w).0) where
  own_stream :
      (p : ℕ) (s s' : System W) (o : InOrder s) (t : IsTended 256 s.host p) (fresh : List Entry)
      → ReachesWith recv (AcceptsOther recv p) s s'
      → mem p o.svc.tcp_client_db ≡ true
      → s'.log ≡ s.log ++ fresh
      → (rest : List ℕ) × Cut
          (t.kept ++ received_from p fresh)
          (map payload (delivered_for p fresh))
          rest
        × Fit 256 (map payload (delivered_for p fresh))
  own_stream p s s' o t fresh reached listed logged =
      let (o', (fresh', logged', joins, own, quiet)) =
        reachable_streams recv bounded p s s' reached o in
      let (rest, cut, held, fit) = own listed t in
      subst
        (λ l.
          (r : List ℕ) × Cut (t.kept ++ received_from p l) (map payload (delivered_for p l)) r
          × Fit 256 (map payload (delivered_for p l)))
        (append_same s.log fresh' fresh (sym logged' ∙ logged)) (rest, cut, fit)

  -- With a `recv` that gives no more bytes than it is asked for, over any turns of the two threads
  -- and the commands that stop and start the acceptance of connections and connect to another
  -- server, from a server in order, in which no new connection gets the address of a listed client:
  -- if the bytes that its ring held and those received from it since start with a header that
  -- announces more than 254 bytes, then none of its messages was delivered.
  pub oversized_client_starves :
      (p : ℕ) (s s' : System W) (o : InOrder s) (t : IsTended 256 s.host p) (fresh : List Entry)
      → ReachesWith recv (AcceptsOther recv p) s s'
      → mem p o.svc.tcp_client_db ≡ true
      → s'.log ≡ s.log ++ fresh
      → 254 < ntohs (t.kept ++ received_from p fresh)
      → delivered_for p fresh ≡ []
  oversized_client_starves p s s' o t fresh reached listed logged big =
      let (rest, cut, fit) = own_stream p s s' o t fresh reached listed logged in
      none_fits 256 (t.kept ++ received_from p fresh) rest (delivered_for p fresh) (omega arith) cut
        fit

  -- With a `recv` that gives no more bytes than it is asked for, over any turns of the two threads
  -- and the commands that stop and start the acceptance of connections and connect to another
  -- server, from a server in order, in which no new connection gets the address of a listed client
  -- whose ring is empty: if what has been received from it since is the beginning of what
  -- tcp_client_string_sender.cpp sends, then nothing was delivered for it, since the server reads
  -- the first two letters as a length.
  pub string_client_starves :
      (p n : ℕ) (s s' : System W) (o : InOrder s) (t : IsTended 256 s.host p) (fresh : List Entry)
      (more : List ℕ)
      → ReachesWith recv (AcceptsOther recv p) s s'
      → mem p o.svc.tcp_client_db ≡ true
      → s'.log ≡ s.log ++ fresh
      → t.kept ≡ []
      → received_from p fresh ++ more ≡ string_rounds n
      → delivered_for p fresh ≡ []
  string_client_starves p n s s' o t fresh more reached listed logged empty begins =
      let (rest, cut, fit) = own_stream p s s' o t fresh reached listed logged in
      starved (received_from p fresh) refl rest
        (subst (λ c. Cut (c ++ received_from p fresh) (map payload (delivered_for p fresh)) rest)
          empty cut)
        fit
    where
      starved :
          (c : List ℕ)
          → received_from p fresh ≡ c
          → (rest : List ℕ) → Cut (received_from p fresh) (map payload (delivered_for p fresh)) rest
          → Fit 256 (map payload (delivered_for p fresh))
          → delivered_for p fresh ≡ []
      starved [] e rest cut fit =
          none_in_nothing rest (delivered_for p fresh)
            (subst (λ x. Cut x (map payload (delivered_for p fresh)) rest) e cut)
      starved (a ∷ c) e rest cut fit =
          none_fits 256 (received_from p fresh) rest (delivered_for p fresh)
            (starts_large n (received_from p fresh) more begins (omega (arith, ap length e))) cut
            fit
