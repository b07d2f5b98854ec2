-- ===== src/Proxy/Turns.antt =====
-- Which backend a connection gets: the first that accepts, from the one whose turn it is.
use native.Mathlib.Nat.{mod-lt, mod-eq_of_lt, mod-add-mod, add-mod_right}
use dalila.Base.{
  ℕ, zero, suc, ◌+◌, ◌-◌, ◌%◌, ◌^◌, ◌≤◌, ◌<◌, ◌≡◌, refl, sym, ap, ◌∙◌, subst, Bool, true, false,
  arith, List, [], ◌∷◌, ◌==◌, leb, if◌then◌else◌, none, some, Option, length, Elem, inl, inr,
  Bool-cases,
}
use dalila.Member.{SocketAddr, Text}
use dalila.Node.{LocalNode}
use dalila.Table.{MemberTable}
use dalila.Proxy.{backends, nth, tries_from, tries, first_accepting, forward}

nth-Elem : (d : SocketAddr) (xs : List SocketAddr) (k : ℕ) → k < length xs → Elem (nth d xs k) xs
nth-Elem d [] k h = omega arith
nth-Elem d (x ∷ xs) k h = elim (Bool-cases (k == 0)) [
  | inl e ↦ rw e (inl refl)
  | inr e ↦
      let step : nth d xs (k - 1) ≡ nth d (x ∷ xs) k = rw e in
      inr (subst (λ y. Elem y xs) step (nth-Elem d xs (k - 1) (ground (arith, e, h))))
]

Elem-nth :
    (d : SocketAddr) (xs : List SocketAddr) (a : SocketAddr)
    → Elem a xs
    → (k : ℕ) × (k < length xs) × (nth d xs k ≡ a)
Elem-nth d [] a i = absurd i
Elem-nth d (x ∷ xs) a (inl e) = (0, omega arith, e)
Elem-nth d (x ∷ xs) a (inr i) =
    let (k, h, e) = Elem-nth d xs a i in (k + 1, omega (arith, h), ground (arith, e))

-- The place in the list of the `i`-th try.
abbrev at : List SocketAddr → ℕ → ℕ → ℕ
at xs start i = (start + i) % 2 ^ 64 % length xs

Elem-tries_from :
    (d : SocketAddr) (xs : List SocketAddr) (start i left k : ℕ)
    → i ≤ k
    → k < i + left
    → Elem (nth d xs (at xs start k)) (tries_from d xs start i left)
unfolding tries_from
Elem-tries_from d xs start i zero k h l = omega arith
Elem-tries_from d xs start i (suc left) k h l = elim (Bool-cases (i == k)) [
  | inl e ↦ inl (ap (λ j. nth d xs (at xs start j)) (ground (arith, e)))
  | inr e ↦
      inr (Elem-tries_from d xs start (i + 1) left k (ground (arith, e, h)) (omega (arith, l)))
]

tries_from-Elem :
    (d : SocketAddr) (xs : List SocketAddr) (start i left : ℕ) (a : SocketAddr)
    → 0 < length xs
    → Elem a (tries_from d xs start i left)
    → Elem a xs
unfolding tries_from
tries_from-Elem d xs start i zero a p h = absurd h
tries_from-Elem d xs start i (suc left) a p (inl e) =
    subst (λ x. Elem x xs) e (nth-Elem d xs (at xs start i) (mod-lt ((start + i) % 2 ^ 64) p))
tries_from-Elem d xs start i (suc left) a p (inr h) = tries_from-Elem d xs start (i + 1) left a p h

-- The try that reaches the place `k` of `n`, counted from a start with remainder `r`.
abbrev try_of : ℕ → ℕ → ℕ → ℕ
try_of n r k = if leb r k then k - r else k + n - r

try_of-at :
    (n start k : ℕ)
    → k < n
    → (try_of n (start % n) k < n) × ((start + try_of n (start % n) k) % n ≡ k)
try_of-at n start k h =
    let r = start % n in
    let small : r < n = mod-lt start (omega (arith, h)) in
    elim (Bool-cases (leb r k)) [
      | inl e ↦
          let reach : r + (k - r) ≡ k = ground (arith, e) in
          (
            ground (arith, e, h),
            rw e (sym (mod-add-mod start n (k - r)) ∙ ap (λ x. x % n) reach ∙ mod-eq_of_lt h),
          )
      | inr e ↦
          let reach : r + (k + n - r) ≡ k + n = omega (arith, small) in
          (
            ground (arith, e, h, small),
            rw e (
                sym (mod-add-mod start n (k + n - r))
                ∙ ap (λ x. x % n) reach
                ∙ add-mod_right k n
                ∙ mod-eq_of_lt h),
          )
    ]

-- Every backend gets a try.
Elem-tries :
    (xs : List SocketAddr) (start : ℕ) (a : SocketAddr)
    → start + length xs ≤ 2 ^ 64
    → Elem a xs
    → Elem a (tries xs start)
Elem-tries [] start a h i = absurd i
Elem-tries (x ∷ xs) start a h i =
    let all = x ∷ xs in
    let (k, l, e) = Elem-nth x all a i in
    let t = try_of (length all) (start % length all) k in
    let (early, lands) = try_of-at (length all) start k l in
    let unwrapped : (start + t) % 2 ^ 64 ≡ start + t = mod-eq_of_lt (omega (arith, early, h)) in
    let place : at all start t ≡ k = ap (λ s. s % length all) unwrapped ∙ lands in
    subst (λ b. Elem b (tries all start)) (ap (nth x all) place ∙ e)
      (Elem-tries_from x all start 0 (length all) t (omega arith) (omega (arith, early)))

tries-Elem :
    (xs : List SocketAddr) (start : ℕ) (a : SocketAddr) → Elem a (tries xs start) → Elem a xs
tries-Elem [] start a i = i
tries-Elem (x ∷ xs) start a i =
    tries_from-Elem x (x ∷ xs) start 0 (length (x ∷ xs)) a (omega arith) i

first_accepting-some :
    (accepts : SocketAddr → Bool) (xs : List SocketAddr) (a : SocketAddr)
    → first_accepting accepts xs ≡ some a
    → Elem a xs × (accepts a ≡ true)
first_accepting-some accepts [] a e = absurd (ground (arith, e))
first_accepting-some accepts (x ∷ xs) a e = elim (Bool-cases (accepts x)) [
  | inl h ↦
      let same : x ≡ a = ground (arith, h, e) in (inl same, subst (λ y. accepts y ≡ true) same h)
  | inr h ↦ let (i, k) = first_accepting-some accepts xs a (ground (arith, h, e)) in (inr i, k)
]

first_accepting-none :
    (accepts : SocketAddr → Bool) (xs : List SocketAddr) (a : SocketAddr)
    → first_accepting accepts xs ≡ none
    → Elem a xs
    → accepts a ≡ false
first_accepting-none accepts [] a e i = absurd i
first_accepting-none accepts (x ∷ xs) a e i = elim (Bool-cases (accepts x)) [
  | inl h ↦ absurd (ground (arith, h, e))
  | inr h ↦ elim i as (λ _. accepts a ≡ false) [
    | inl same ↦ subst (λ y. accepts y ≡ false) same h
    | inr k ↦ first_accepting-none accepts xs a (ground (arith, h, e)) k
  ]
]

-- As long as the counter and the number of backends together stay within 2 ^ 64, a client is turned
-- away only if every backend refuses it; else it is given a backend that accepts it.
pub forward_lem :
    (accepts : SocketAddr → Bool) (n : LocalNode) (t : MemberTable) (port : ℕ) (tag : Option Text)
    (next : ℕ)
    → next + length (backends n t port tag) ≤ 2 ^ 64
    → let (chosen, next') = forward accepts n t port tag next in
      ((a : SocketAddr) → chosen ≡ some a → Elem a (backends n t port tag) × (accepts a ≡ true))
      × (chosen ≡ none → (a : SocketAddr) → Elem a (backends n t port tag) → accepts a ≡ false)
unfolding forward
forward_lem accepts n t port tag next h =
    let all = backends n t port tag in
    (
      λ a e.
          let (i, k) = first_accepting-some accepts (tries all next) a e in
          (tries-Elem all next a i, k),
      λ e a i. first_accepting-none accepts (tries all next) a e (Elem-tries all next a h i),
    )

-- Backends that all accept take turns: the one chosen stands at the counter's place in the list,
-- and the counter moves on by one.
pub forward_turns :
    (accepts : SocketAddr → Bool) (n : LocalNode) (t : MemberTable) (port : ℕ) (tag : Option Text)
    (next : ℕ) (x : SocketAddr) (xs : List SocketAddr)
    → ((a : SocketAddr) → accepts a ≡ true)
    → next < 2 ^ 64
    → backends n t port tag ≡ x ∷ xs
    → forward accepts n t port tag next
      ≡ (some (nth x (x ∷ xs) (next % length (x ∷ xs))), (next + 1) % 2 ^ 64)
unfolding forward tries_from
forward_turns accepts n t port tag next x xs all_accept fits found =
    let now : (next + 0) % 2 ^ 64 ≡ next = omega (arith, fits) in rw (found, all_accept, now)
