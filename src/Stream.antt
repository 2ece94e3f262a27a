-- ===== src/Stream.antt =====
-- The frames of the variable-size protocol, as a specification: two bytes of length in network order,
-- then the payload.
use linux_tcp_server.Base.{
  ℕ, ◌+◌, ◌*◌, ◌/◌, ◌%◌, ◌≤◌, ◌<◌, ◌≡◌, refl, sym, ◌∙◌, ap, ap₂, subst, List, [], ◌∷◌, ◌++◌, arith,
  length, get_or, take, drop, length-append, take-append, drop-append, append_assoc, get_or-take,
  length-take, length-drop, take-append-drop,
}

-- The number whose bytes stand in memory in network order.
abbrev pub ntohs : List ℕ → ℕ
ntohs bytes = get_or bytes 0 0 * 256 + get_or bytes 1 0

-- No frame is complete yet.
abbrev pub IsPartial : List ℕ → Type 0
IsPartial c = length c < 2 + ntohs c

-- The bytes `c` are the frames of the messages, followed by the part `r` of a frame.
abbrev pub Cut : List ℕ → List (List ℕ) → List ℕ → Type 0
Cut c [] r = (c ≡ r) × IsPartial r
Cut c (m ∷ ms) r =
    (h : ℕ) × (l : ℕ) × (rest : List ℕ) × (c ≡ h ∷ l ∷ (m ++ rest))
    × (length m ≡ h * 256 + l)
    × Cut rest ms r

abbrev pub encode : List ℕ → List ℕ
encode m = length m / 256 ∷ length m % 256 ∷ m

abbrev pub encode_all : List (List ℕ) → List ℕ
encode_all [] = []
encode_all (m ∷ ms) = encode m ++ encode_all ms

abbrev pub All {ℓ} : {A : Type ℓ} → (A → Type 0) → List A → Type 0
All P [] = Unit
All P (x ∷ xs) = P x × All P xs

-- With their headers, the messages have at most `size` bytes each.
abbrev pub Fit : ℕ → List (List ℕ) → Type 0
Fit size ms = All (λ m. 2 + length m ≤ size) ms

pub Fit-append :
    (size : ℕ) (ms ns : List (List ℕ)) → Fit size ms → Fit size ns → Fit size (ms ++ ns)
Fit-append size [] ns fit fit' = fit'
Fit-append size (m ∷ ms) ns (first, fit) fit' = (first, Fit-append size ms ns fit fit')

pub ntohs-take : (n : ℕ) (xs : List ℕ) → 2 ≤ n → ntohs (take n xs) ≡ ntohs xs
ntohs-take n xs h =
    ap₂ (λ a b. a * 256 + b) (get_or-take n xs 0 0 (omega arith))
      (get_or-take n xs 1 0 (omega arith))

-- A list splits at a given length in one way.
pub append_split :
    (m n xs ys : List ℕ) → m ++ xs ≡ n ++ ys → length m ≡ length n → (m ≡ n) × (xs ≡ ys)
append_split m n xs ys e h = (
  sym (take-append m xs (length m) refl)
      ∙ ap (take (length m)) e
      ∙ take-append n ys (length m) (sym h),
  sym (drop-append m xs (length m) refl)
      ∙ ap (drop (length m)) e
      ∙ drop-append n ys (length m) (sym h),
)

-- A frame at the front is complete.
pub frame_whole :
    (h l : ℕ) (m rest : List ℕ)
    → length m ≡ h * 256 + l
    → 2 + ntohs (h ∷ l ∷ (m ++ rest)) ≤ length (h ∷ l ∷ (m ++ rest))
frame_whole h l m rest k = omega (arith, length-append m rest)

-- A stream has one list of messages and one rest.
pub Cut-unique :
    (c : List ℕ) (ms ns : List (List ℕ)) (r s : List ℕ)
    → Cut c ms r
    → Cut c ns s
    → (ms ≡ ns) × (r ≡ s)
Cut-unique c [] [] r s p q = (refl, sym p.0 ∙ q.0)
Cut-unique c [] (n ∷ ns) r s p (h, l, rest, e, k, q) =
    absurd
      (omega (arith, frame_whole h l n rest k, ap length (sym p.0 ∙ e), ap ntohs (sym p.0 ∙ e)))
Cut-unique c (m ∷ ms) [] r s (h, l, rest, e, k, p) q =
    absurd
      (omega (arith, frame_whole h l m rest k, ap length (sym q.0 ∙ e), ap ntohs (sym q.0 ∙ e)))
Cut-unique c (m ∷ ms) (n ∷ ns) r s (h, l, rest, e, k, p) (h', l', rest', e', k', q) =
    let same : h ∷ l ∷ (m ++ rest) ≡ h' ∷ l' ∷ (n ++ rest') = sym e ∙ e' in
    let heads : length m ≡ length n = omega (arith, ap ntohs same) in
    let (eq_m, eq_rest) = append_split m n rest rest' (ap (drop 2) same) heads in
    let (eq_ms, eq_r) = Cut-unique rest ms ns r s p (subst (λ x. Cut x ns s) (sym eq_rest) q) in
    (ap₂ ◌∷◌ eq_m eq_ms, eq_r)

-- Bytes that arrive later continue the partial frame.
pub Cut-append :
    (a b : List ℕ) (ms ns : List (List ℕ)) (r s : List ℕ)
    → Cut a ms r
    → Cut (r ++ b) ns s
    → Cut (a ++ b) (ms ++ ns) s
Cut-append a b [] ns r s p q = subst (λ x. Cut (x ++ b) ns s) (sym p.0) q
Cut-append a b (m ∷ ms) ns r s (h, l, rest, e, k, p) q = (
  h,
  l,
  rest ++ b,
  ap (λ x. x ++ b) e ∙ ap (λ x. h ∷ l ∷ x) (append_assoc m rest b),
  k,
  Cut-append rest b ms ns r s p q,
)

-- The frames of messages cut into these messages.
pub Cut-encode_all : (ms : List (List ℕ)) → Cut (encode_all ms) ms []
Cut-encode_all [] = (refl, omega arith)
Cut-encode_all (m ∷ ms) =
    (length m / 256, length m % 256, encode_all ms, refl, omega arith, Cut-encode_all ms)

front_two : (c : List ℕ) → 2 ≤ length c → c ≡ get_or c 0 0 ∷ get_or c 1 0 ∷ drop 2 c
front_two [] h = absurd (omega arith)
front_two (x ∷ []) h = absurd (omega arith)
front_two (x ∷ y ∷ c) h = refl

-- Taking a complete frame off the front.
pub Cut-next :
    (c m : List ℕ) (ms : List (List ℕ)) (r : List ℕ)
    → 2 + ntohs c ≤ length c
    → m ≡ take (ntohs c) (drop 2 c)
    → Cut (drop (ntohs c) (drop 2 c)) ms r
    → Cut c (m ∷ ms) r
Cut-next c m ms r h e p = (
  get_or c 0 0,
  get_or c 1 0,
  drop (ntohs c) (drop 2 c),
  front_two c (omega arith)
      ∙ ap (λ x. get_or c 0 0 ∷ get_or c 1 0 ∷ x)
          (sym (take-append-drop (ntohs c) (drop 2 c))
            ∙ ap (λ x. x ++ drop (ntohs c) (drop 2 c)) (sym e)),
  omega (arith, ap length e, length-take (ntohs c) (drop 2 c), length-drop 2 c),
  p,
)

-- What is left over is no complete frame.
pub Cut-IsPartial : (c : List ℕ) (ms : List (List ℕ)) (r : List ℕ) → Cut c ms r → IsPartial r
Cut-IsPartial c [] r p = p.1
Cut-IsPartial c (m ∷ ms) r (h, l, rest, e, k, p) = Cut-IsPartial rest ms r p
