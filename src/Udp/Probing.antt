-- ===== src/Udp/Probing.antt =====
-- When a probe counts as answered.
use dalila.Base.{
  ℕ, ◌≡◌, refl, sym, ◌∙◌, Bool, true, false, List, [], ◌∷◌, ◌==◌, if◌then◌else◌, arith, Elem,
  Bool-cases, inl, inr, subst,
}
use dalila.Member.{NodeId, SocketAddr, Member}
use dalila.Acks.{Channel, Call, resolves, run, register, next_seq}
use dalila.Acks.Answers.{IsPending, Unanswered, register-Unanswered, answered_by_subject}
use dalila.Acks.Invariant.{register-IsPending, forget-IsPending, run-IsPending}
use dalila.Table.{relay_candidates}
use dalila.Node.{identity}
use dalila.Detector.{indirect_probes}
use dalila.Udp.{
  Peer, Surroundings, UdpBody, take_gossip, send_udp, is_answered, await, give_up, send_ping,
  ask_relays, send_ping_req, indirect_round, or_else, probe, ping, ping_req,
}

is_answered-Elem : (ch : Channel) (cs : List Channel) → is_answered ch cs ≡ true → Elem ch cs
is_answered-Elem ch [] h = absurd (ground (arith, h))
is_answered-Elem ch (c ∷ cs) h = elim (Bool-cases (c == ch)) [
  | inl e ↦ inl (ground arith)
  | inr e ↦ inr (is_answered-Elem ch cs (ground (arith, e, h)))
]

send_udp-pending :
    (net : Surroundings) (p : Peer) (addr : SocketAddr) (body : UdpBody)
    → (send_udp net p addr body).0.pending ≡ p.pending
send_udp-pending net p addr body = ground arith

-- While this task waits, the others call `PendingAcks` as `calls` lists it.
module _ (net : Surroundings) (calls : Peer → List Call)
    (shared : (p : Peer) → (net.meanwhile p).pending ≡ run p.pending (calls p)) where
  -- Some wait saw a report of `subject` under `seq`.
  abbrev pub Reported : ℕ → NodeId → Type 0
  Reported seq subject = (q : Peer) × Elem (resolves seq subject) (calls q)

  await-Reported :
      (p : Peer) (ch seq : ℕ) (subject : NodeId)
      → Unanswered p.pending ch seq subject
      → (await net p ch seq).1 ≡ true
      → Reported seq subject
  await-Reported p ch seq subject u h = (
    p,
    answered_by_subject p.pending (calls p) ch seq subject u (
        subst (λ x. Elem ch x.answered) (shared p)
          (is_answered-Elem ch (net.meanwhile p).pending.answered h)),
  )

  ping_end :
      (p : Peer) (taken : Bool) (ch seq : ℕ) (subject : NodeId)
      → Unanswered p.pending ch seq subject
      → (if taken then await net p ch seq else give_up p seq).1 ≡ true
      → Reported seq subject
  ping_end p true ch seq subject u h = await-Reported p ch seq subject u h
  ping_end p false ch seq subject u h = absurd (ground (arith, h))

  -- A ping succeeds only if the target itself was reported alive under the ping's own number.
  pub send_ping-Reported :
      (p : Peer) (target : NodeId) (addr : SocketAddr) (seq : ℕ)
      → IsPending p.pending
      → (send_ping net p target addr seq).1 ≡ true
      → Reported seq target
  unfolding send_ping
  send_ping-Reported p target addr seq v h =
      let (pending, ch) = register p.pending seq target in
      let (p', gossip) = take_gossip (record p { pending = pending }) in
      let (p'', taken) = send_udp net p' addr (ping seq (identity p.agent.node) gossip) in
      ping_end p'' taken ch seq target
        (subst (λ x. Unanswered x ch seq target)
          (sym (send_udp-pending net p' addr (ping seq (identity p.agent.node) gossip)))
          (register-Unanswered p.pending seq target v))
        h

  ask_relays-pending :
      (p : Peer) (target : NodeId) (relays : List Member) (seq : ℕ)
      → (ask_relays net p target relays seq).0.pending ≡ p.pending
  unfolding ask_relays
  ask_relays-pending p target [] seq = refl
  ask_relays-pending p target (relay ∷ relays) seq =
      let (p', gossip) = take_gossip p in
      let body = ping_req seq (identity p.agent.node) target gossip in
      ask_relays-pending (send_udp net p' relay.addr body).0 target relays seq
      ∙ send_udp-pending net p' relay.addr body

  req_end :
      (p : Peer) (none_sent : Bool) (ch seq : ℕ) (subject : NodeId)
      → Unanswered p.pending ch seq subject
      → (if none_sent then give_up p seq else await net p ch seq).1 ≡ true
      → Reported seq subject
  req_end p true ch seq subject u h = absurd (ground (arith, h))
  req_end p false ch seq subject u h = await-Reported p ch seq subject u h

  -- The indirect round succeeds only if the target was reported under the round's own number: no
  -- report about a relay counts.
  pub send_ping_req-Reported :
      (p : Peer) (target : NodeId) (relays : List Member) (seq : ℕ)
      → IsPending p.pending
      → (send_ping_req net p target relays seq).1 ≡ true
      → Reported seq target
  unfolding send_ping_req
  send_ping_req-Reported p target relays seq v h =
      let (pending, ch) = register p.pending seq target in
      let (p', count) = ask_relays net (record p { pending = pending }) target relays seq in
      req_end p' (count == 0) ch seq target
        (subst (λ x. Unanswered x ch seq target)
          (sym (ask_relays-pending (record p { pending = pending }) target relays seq))
          (register-Unanswered p.pending seq target v))
        h

  await-IsPending :
      (p : Peer) (ch seq : ℕ) → IsPending p.pending → IsPending (await net p ch seq).0.pending
  await-IsPending p ch seq v =
      forget-IsPending (net.meanwhile p).pending seq
        (subst IsPending (sym (shared p)) (run-IsPending p.pending (calls p) v))

  end-IsPending :
      (p : Peer) (taken : Bool) (ch seq : ℕ)
      → IsPending p.pending
      → IsPending (if taken then await net p ch seq else give_up p seq).0.pending
  end-IsPending p true ch seq v = await-IsPending p ch seq v
  end-IsPending p false ch seq v = forget-IsPending p.pending seq v

  send_ping-IsPending :
      (p : Peer) (target : NodeId) (addr : SocketAddr) (seq : ℕ)
      → IsPending p.pending
      → IsPending (send_ping net p target addr seq).0.pending
  unfolding send_ping
  send_ping-IsPending p target addr seq v =
      let (pending, ch) = register p.pending seq target in
      let (p', gossip) = take_gossip (record p { pending = pending }) in
      let (p'', taken) = send_udp net p' addr (ping seq (identity p.agent.node) gossip) in
      end-IsPending p'' taken ch seq (
        subst IsPending
          (sym (send_udp-pending net p' addr (ping seq (identity p.agent.node) gossip)))
          (register-IsPending p.pending seq target v))

  indirect_round-Reported :
      (p : Peer) (target : NodeId) (relays : List Member)
      → IsPending p.pending
      → (indirect_round net p target relays).1 ≡ true
      → (seq : ℕ) × Reported seq target
  unfolding next_seq
  indirect_round-Reported p target [] v h = absurd (ground (arith, h))
  indirect_round-Reported p target (relay ∷ relays) v h =
      let (pending, seq) = next_seq p.pending in
      (
        seq,
        send_ping_req-Reported (record p { pending = pending }) target (relay ∷ relays) seq
            (record { answered_made = v.answered_made; waiting_made = v.waiting_made }) h,
      )

  probe_end :
      (target : NodeId) (direct indirect : Peer × Bool)
      → (direct.1 ≡ true → (seq : ℕ) × Reported seq target)
      → (indirect.1 ≡ true → (seq : ℕ) × Reported seq target)
      → (or_else direct indirect).1 ≡ true
      → (seq : ℕ) × Reported seq target
  probe_end target (p, true) indirect f g h = f refl
  probe_end target (p, false) indirect f g h = g h

  -- A member is spared only on evidence about that member. Let the record of probes be in order,
  -- and change during each wait only by the calls of the other tasks: then if a probe succeeds,
  -- directly or through relays, some wait saw a report about the target itself, under some number.
  pub probe-Reported :
      (shuffle : List Member → List Member) (p : Peer) (target : Member)
      → IsPending p.pending
      → (probe shuffle net p target).1 ≡ true
      → (seq : ℕ) × Reported seq target.id
  unfolding probe next_seq
  probe-Reported shuffle p target v h =
      let (pending, seq) = next_seq p.pending in
      let v₀ : IsPending pending = record {
        answered_made = v.answered_made;
        waiting_made = v.waiting_made;
      } in
      let p₀ : Peer = record p { pending = pending } in
      let p₁ = (send_ping net p₀ target.id target.addr seq).0 in
      let relays = relay_candidates shuffle p₁.agent.table target.id indirect_probes in
      probe_end target.id (send_ping net p₀ target.id target.addr seq)
        (indirect_round net p₁ target.id relays)
        (λ e. (seq, send_ping-Reported p₀ target.id target.addr seq v₀ e))
        (λ e.
          indirect_round-Reported p₁ target.id relays
            (send_ping-IsPending p₀ target.id target.addr seq v₀) e)
        h
