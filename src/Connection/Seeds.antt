-- ===== src/Connection/Seeds.antt =====
-- The seeds, in turn.
use dalila.Base.{
  ◌≡◌, refl, ap, Bool, true, false, List, [], ◌∷◌, ◌++◌, Result, ok, err, Option, none, some, sym,
  subst, >>=-eq-ok, ◌⊎◌, inl, inr,
}
use dalila.Member.{Instant, SocketAddr}
use dalila.Wire.{
  TcpBody, join_request, join_response, members_request, members_response, sync_request,
  sync_response, into_member,
}
use dalila.Node.{ClusterKey, identity}
use dalila.Gossip.{Agent}
use dalila.Gossip.Apply.{IsAgent, apply-IsAgent}
use dalila.Udp.Handling.{apply_all-IsAgent}
use dalila.Join.{handle_join_response}
use dalila.Auth.{Hmac}
use dalila.Codec.{Codec}
use dalila.Connection.{Network, AskError, ask, joined, join_through, try_seeds, first_joined, join}

pub ok_inj : {E A : Type 0} {a b : A} → Path (Result E A) (ok a) (ok b) → a ≡ b
ok_inj e = cc

module _ (h : Hmac) (c : Codec TcpBody) (key : ClusterKey) (net : Network) (now : Instant)
    (s : Agent) where
  module _ (body : TcpBody) where
    -- None of these seeds took the join.
    abbrev pub AllRefuse : List SocketAddr → Type 0
    AllRefuse [] = Unit
    AllRefuse (seed ∷ seeds) =
        ((e : AskError) × (join_through h c key net now s body seed ≡ err e)) × AllRefuse seeds

    -- What comes of a list of seeds: the first that accepts decides, or all refuse.
    abbrev pub Outcome : List SocketAddr → Agent × Bool → Type 0
    Outcome seeds (s', accepted) =
        ((accepted ≡ false) × (s' ≡ s) × AllRefuse seeds)
        ⊎ ((before : List SocketAddr) × (after : List SocketAddr) × (seed : SocketAddr) × (accepted
              ≡ true)
            × (seeds ≡ before ++ seed ∷ after)
            × AllRefuse before
            × (join_through h c key net now s body seed ≡ ok s'))

    later_seed :
        (seed : SocketAddr) (seeds : List SocketAddr) (r : Agent × Bool) (e : AskError)
        → join_through h c key net now s body seed ≡ err e
        → Outcome seeds r
        → Outcome (seed ∷ seeds) r
    later_seed seed seeds (s', accepted) e refused (inl (refused_all, same, all)) =
        inl (refused_all, same, ((e, refused), all))
    later_seed seed seeds (s', accepted) e refused
          (inr (before, after, first, accept, at, all, took)) =
        inr (seed ∷ before, after, first, accept, ap (◌∷◌ seed) at, ((e, refused), all), took)

    first_joined-Outcome :
        (seed : SocketAddr) (seeds : List SocketAddr) (r : Result AskError Agent)
        (rest : Agent × Bool)
        → join_through h c key net now s body seed ≡ r
        → Outcome seeds rest
        → Outcome (seed ∷ seeds) (first_joined h c key r rest)
    first_joined-Outcome seed seeds (ok s') rest e o = inr ([], seeds, seed, refl, refl, tt, e)
    first_joined-Outcome seed seeds (err x) rest e o = later_seed seed seeds rest x e o

    try_seeds-Outcome :
        (seeds : List SocketAddr) → Outcome seeds (try_seeds h c key net now s body seeds)
    unfolding try_seeds
    try_seeds-Outcome [] = inl (refl, refl, tt)
    try_seeds-Outcome (seed ∷ seeds) =
        first_joined-Outcome seed seeds _ _ refl (try_seeds-Outcome seeds)

  -- A join either fails, with the agent as it was, and then every seed refused; or it succeeds, and
  -- then some seed, before which every seed refused, took the join, and the agent is the one that
  -- this seed's reply made.
  pub join-Outcome :
      (seeds : List SocketAddr)
      → Outcome (join_request (identity s.node)) seeds (join h c key net now s seeds)
  unfolding join
  join-Outcome seeds = try_seeds-Outcome (join_request (identity s.node)) seeds

  joined-IsAgent :
      (reply : Option TcpBody) (s' : Agent)
      → joined h c key now s reply ≡ ok s'
      → IsAgent s
      → IsAgent s'
  unfolding handle_join_response
  joined-IsAgent none s' e v = absurd (cc)
  joined-IsAgent (some (join_response from members)) s' e v =
      subst IsAgent (ok_inj e)
        (apply_all-IsAgent now _ members (apply-IsAgent now s (into_member from) v))
  joined-IsAgent (some (join_request from)) s' e v = absurd (cc)
  joined-IsAgent (some members_request) s' e v = absurd (cc)
  joined-IsAgent (some (members_response from members)) s' e v = absurd (cc)
  joined-IsAgent (some (sync_request from members)) s' e v = absurd (cc)
  joined-IsAgent (some (sync_response from members)) s' e v = absurd (cc)

  -- Whatever the seeds answer, the agent is in order afterwards.
  pub join-IsAgent :
      (seeds : List SocketAddr) → IsAgent s → IsAgent (join h c key net now s seeds).0
  unfolding join_through
  join-IsAgent seeds v = elim (join-Outcome seeds) [
    | inl (accept, same, all) ↦ subst IsAgent (sym same) v
    | inr (before, after, seed, accept, at, all, took) ↦
        let (reply, asked, e) =
          >>=-eq-ok (ask h c key net seed (join_request (identity s.node)))
            (λ r. joined h c key now s r) took in
        joined-IsAgent reply _ e v
  ]
