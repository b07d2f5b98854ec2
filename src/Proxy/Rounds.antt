-- ===== src/Proxy/Rounds.antt =====
-- How clients that come one after another are spread over the backends.
use native.Mathlib.Nat.{mod-eq_of_lt, add-mod_right}
use mathlib.Core.List.{append_assoc}
use dalila.Base.{
  ℕ, zero, suc, ◌+◌, ◌%◌, ◌^◌, ◌<◌, ◌≡◌, refl, sym, ap, ◌∙◌, subst, true, arith, List, [], ◌∷◌,
  ◌++◌, map, some, Option, length, length-append, Permᴰ,
}
use dalila.Base.Permᴰ
use dalila.Member.{SocketAddr, Text}
use dalila.Proxy.{backends, nth, Client, serve_clients}
use dalila.Proxy.Turns.{forward_turns}

-- The backends whose turn it is, from a counter on.
abbrev turns : SocketAddr → List SocketAddr → ℕ → ℕ → List SocketAddr
turns d xs s zero = []
turns d xs s (suc m) = nth d xs (s % length xs) ∷ turns d xs (s + 1) m

nth-append : (d y : SocketAddr) (pre ys : List SocketAddr) → nth d (pre ++ y ∷ ys) (length pre) ≡ y
nth-append d y [] ys = refl
nth-append d y (p ∷ pre) ys = ground (arith, nth-append d y pre ys)

turns-append :
    (d : SocketAddr) (pre ys : List SocketAddr) → turns d (pre ++ ys) (length pre) (length ys) ≡ ys
turns-append d pre [] = refl
turns-append d pre (y ∷ ys) =
    let all = pre ++ y ∷ ys in
    let low : length pre < length all = omega (arith, length-append pre (y ∷ ys)) in
    let again : (pre ++ y ∷ []) ++ ys ≡ all = append_assoc pre (y ∷ []) ys in
    let place : length (pre ++ y ∷ []) ≡ length pre + 1 = length-append pre (y ∷ []) in
    let head : nth d all (length pre % length all) ≡ y =
      ap (nth d all) (mod-eq_of_lt low) ∙ nth-append d y pre ys in
    let tail : turns d all (length pre + 1) (length ys) ≡ ys =
      ap (λ l. turns d l (length pre + 1) (length ys)) (sym again)
      ∙ ap (λ s. turns d ((pre ++ y ∷ []) ++ ys) s (length ys)) (sym place)
      ∙ turns-append d (pre ++ y ∷ []) ys in
    ap (λ z. z ∷ turns d all (length pre + 1) (length ys)) head ∙ ap (◌∷◌ y) tail

turns_last :
    (d : SocketAddr) (xs : List SocketAddr) (s m : ℕ)
    → turns d xs s (suc m) ≡ turns d xs s m ++ nth d xs ((s + m) % length xs) ∷ []
turns_last d xs s zero =
    let same : s ≡ s + 0 = omega arith in ap (λ k. nth d xs (k % length xs) ∷ []) same
turns_last d xs s (suc m) = ap (◌∷◌ (nth d xs (s % length xs))) (
    turns_last d xs (s + 1) m
    ∙ ap (λ k. turns d xs (s + 1) m ++ nth d xs (k % length xs) ∷ []) (omega arith))

to_front : (x : SocketAddr) (xs : List SocketAddr) → Permᴰ (xs ++ x ∷ []) (x ∷ xs)
to_front x [] = Permᴰ.refl (x ∷ [])
to_front x (y ∷ xs) = Permᴰ.trans (Permᴰ.cons refl (to_front x xs)) (Permᴰ.swap refl refl)

-- From any counter on, as many turns as there are backends are one for each.
turns-perm :
    (d x : SocketAddr) (xs : List SocketAddr) (s : ℕ)
    → Permᴰ (turns d (x ∷ xs) s (length (x ∷ xs))) (x ∷ xs)
turns-perm d x xs zero =
    subst (λ l. Permᴰ l (x ∷ xs)) (sym (turns-append d [] (x ∷ xs))) (Permᴰ.refl (x ∷ xs))
turns-perm d x xs (suc s) =
    let all = x ∷ xs in
    let m = length xs in
    let sum : s + 1 + m ≡ s + length all = omega arith in
    let back : nth d all ((s + 1 + m) % length all) ≡ nth d all (s % length all) =
      ap (nth d all) (ap (λ k. k % length all) sum ∙ add-mod_right s (length all)) in
    let turned : turns d all (s + 1) (length all)
        ≡ turns d all (s + 1) m ++ nth d all (s % length all) ∷ [] =
      turns_last d all (s + 1) m ∙ ap (λ z. turns d all (s + 1) m ++ z ∷ []) back in
    let next : s + 1 ≡ suc s = omega arith in
    subst (λ k. Permᴰ (turns d all k (length all)) all) next
      (Permᴰ.trans
        (subst (λ l. Permᴰ l (turns d all s (length all))) (sym turned)
          (to_front (nth d all (s % length all)) (turns d all (s + 1) m)))
        (turns-perm d x xs s))

-- What every client sees: these backends, all of which accept it.
abbrev pub AllServed : ℕ → Option Text → List SocketAddr → List Client → Type 0
AllServed port tag all [] = Unit
AllServed port tag all (client ∷ clients) =
    ((backends client.node client.table port tag ≡ all)
      × ((a : SocketAddr) → client.accepts a ≡ true))
    × AllServed port tag all clients

serve_clients-turns :
    (port : ℕ) (tag : Option Text) (x : SocketAddr) (xs : List SocketAddr) (next : ℕ)
    (clients : List Client)
    → AllServed port tag (x ∷ xs) clients
    → next + length clients < 2 ^ 64
    → (serve_clients port tag next clients).0 ≡ map some (turns x (x ∷ xs) next (length clients))
unfolding serve_clients
serve_clients-turns port tag x xs next [] s h = refl
serve_clients-turns port tag x xs next (client ∷ clients) ((seen, willing), s) h =
    let low : next < 2 ^ 64 = omega (arith, h) in
    let step : (next + 1) % 2 ^ 64 ≡ next + 1 = omega (arith, h) in
    let rest = serve_clients-turns port tag x xs (next + 1) clients s (omega (arith, h)) in
    rw
      (
        forward_turns client.accepts client.node client.table port tag next x xs willing low seen,
        step,
        rest,
      )
      refl

-- Let as many clients come as there are backends, which are the same when each comes and accept all
-- of them, and let the counter stay below 2 ^ 64. Then each backend gets one of the clients, as
-- often as it is listed.
pub serve_clients-perm :
    (port : ℕ) (tag : Option Text) (x : SocketAddr) (xs : List SocketAddr) (next : ℕ)
    (clients : List Client)
    → AllServed port tag (x ∷ xs) clients
    → length clients ≡ length (x ∷ xs)
    → next + length clients < 2 ^ 64
    → (chosen : List SocketAddr) × ((serve_clients port tag next clients).0 ≡ map some chosen)
      × Permᴰ chosen (x ∷ xs)
serve_clients-perm port tag x xs next clients s same h = (
  turns x (x ∷ xs) next (length clients),
  serve_clients-turns port tag x xs next clients s h,
  subst (λ m. Permᴰ (turns x (x ∷ xs) next m) (x ∷ xs)) (sym same) (turns-perm x x xs next),
)
