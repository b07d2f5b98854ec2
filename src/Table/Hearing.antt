-- ===== src/Table/Hearing.antt =====
-- What a table believes after some rumors depends on which they were, and not on how often or in which
-- order each was heard.
use dalila.Base.{◌≡◌, refl, sym, ◌∙◌, ap, arith, ◌==◌, false, inl, inr, List, [], ◌∷◌, Elem}
use dalila.Member.{NodeId}
use dalila.Wire.{WireMember}
use dalila.Table.Convergence.{Agree, hear_about, hear_all, hear_about_comm}

-- The rumors of the one list are among those of the other.
abbrev pub Within : List WireMember → List WireMember → Type 0
Within rs ss = (r : WireMember) → Elem r rs → Elem r ss

-- Every rumor of the one list agrees with every rumor of the other.
abbrev pub AgreeAll : List WireMember → List WireMember → Type 0
AgreeAll rs ss = (r s : WireMember) → Elem r rs → Elem s ss → Agree r s

hear_about_twice :
    (me j : NodeId) (r w : WireMember)
    → hear_about me j r (hear_about me j r w) ≡ hear_about me j r w
hear_about_twice me j r w = ground arith

-- A rumor can be heard before the others or after them.
hear_all_late :
    (me j : NodeId) (r : WireMember) (rs : List WireMember) (w : WireMember)
    → ((s : WireMember) → Elem s rs → Agree r s)
    → hear_all me j rs (hear_about me j r w) ≡ hear_about me j r (hear_all me j rs w)
unfolding hear_all
hear_all_late me j r [] w agree = refl
hear_all_late me j r (s ∷ rs) w agree =
    ap (hear_all me j rs) (sym (hear_about_comm me j r s w (agree s (inl refl))))
    ∙ hear_all_late me j r rs (hear_about me j s w) (λ x i. agree x (inr i))

hear_all_comm :
    (me j : NodeId) (rs ss : List WireMember) (w : WireMember)
    → AgreeAll rs ss
    → hear_all me j ss (hear_all me j rs w) ≡ hear_all me j rs (hear_all me j ss w)
unfolding hear_all
hear_all_comm me j [] ss w agree = refl
hear_all_comm me j (r ∷ rs) ss w agree =
    hear_all_comm me j rs ss (hear_about me j r w) (λ x y i k. agree x y (inr i) k)
    ∙ ap (hear_all me j rs) (hear_all_late me j r ss w (λ s k. agree r s (inl refl) k))

-- A rumor that is heard anyway makes no difference before.
hear_all_absorbs :
    (me j : NodeId) (r : WireMember) (rs : List WireMember) (w : WireMember)
    → Elem r rs
    → ((s : WireMember) → Elem s rs → Agree r s)
    → hear_all me j rs (hear_about me j r w) ≡ hear_all me j rs w
unfolding hear_all
hear_all_absorbs me j r [] w i agree = absurd i
hear_all_absorbs me j r (s ∷ rs) w (inl e) agree = ap (hear_all me j rs) (
    ap (λ x. hear_about me j x (hear_about me j r w)) e
    ∙ hear_about_twice me j r w
    ∙ ap (λ x. hear_about me j x w) (sym e))
hear_all_absorbs me j r (s ∷ rs) w (inr i) agree =
    ap (hear_all me j rs) (sym (hear_about_comm me j r s w (agree s (inl refl))))
    ∙ hear_all_absorbs me j r rs (hear_about me j s w) i (λ x k. agree x (inr k))

hear_all_covered :
    (me j : NodeId) (rs ss : List WireMember) (w : WireMember)
    → Within rs ss
    → AgreeAll rs ss
    → hear_all me j ss (hear_all me j rs w) ≡ hear_all me j ss w
unfolding hear_all
hear_all_covered me j [] ss w inside agree = refl
hear_all_covered me j (r ∷ rs) ss w inside agree =
    hear_all_covered me j rs ss (hear_about me j r w) (λ x i. inside x (inr i))
      (λ x y i k. agree x y (inr i) k)
    ∙ hear_all_absorbs me j r ss w (inside r (inl refl)) (λ s k. agree r s (inl refl) k)

-- Two lists of the same rumors, each in any order and any number of times, have the same effect.
pub hear_all_same :
    (me j : NodeId) (rs ss : List WireMember) (w : WireMember)
    → Within rs ss
    → Within ss rs
    → AgreeAll rs rs
    → hear_all me j rs w ≡ hear_all me j ss w
hear_all_same me j rs ss w into back agree =
    sym (hear_all_covered me j ss rs w back (λ x y i k. agree x y (back x i) k))
    ∙ hear_all_comm me j ss rs w (λ x y i k. agree x y (back x i) k)
    ∙ hear_all_covered me j rs ss w into (λ x y i k. agree x y i (back y k))

-- Of a third member, two nodes hear the same.
pub hear_all_third :
    (i k j : NodeId) (rs : List WireMember) (w : WireMember)
    → (i == j) ≡ false
    → (k == j) ≡ false
    → hear_all i j rs w ≡ hear_all k j rs w
unfolding hear_all
hear_all_third i k j [] w third third' = refl
hear_all_third i k j (r ∷ rs) w third third' =
    let same : hear_about i j r w ≡ hear_about k j r w = ground (arith, third, third') in
    ap (hear_all i j rs) same ∙ hear_all_third i k j rs (hear_about k j r w) third third'
