-- ===== src/Acks/Invariant.antt =====
-- The record of probes stays in order under every call: no channel is used before it is made.
use dalila.Base.{
  ℕ, ◌≡◌, refl, List, [], ◌∷◌, ◌==◌, Option, none, some, lookup, arith, lookup-insert,
  lookup-remove, Bool-cases, inl, inr,
}
use dalila.Member.{NodeId}
use dalila.Acks.{
  PendingAcks, Channel, no_acks, next_seq, register, forget, settle, resolve, Call, draws,
  registers, forgets, resolves, called, run,
}
use dalila.Acks.Answers.{IsPending}

pub no_acks-IsPending : IsPending no_acks
unfolding lookup
no_acks-IsPending = record { answered_made = λ ch i. absurd i; waiting_made = λ k a ch e. cc }

pub register-IsPending :
    (p : PendingAcks) (seq : ℕ) (subject : NodeId)
    → IsPending p
    → IsPending (register p seq subject).0
unfolding register
register-IsPending p seq subject v = record {
  answered_made = λ ch i. omega (arith, v.answered_made ch i);
  waiting_made = λ k a ch e.
      ground (arith, lookup-insert seq k (subject, p.channels) p.waiting, e, v.waiting_made k a ch);
}

pub forget-IsPending : (p : PendingAcks) (seq : ℕ) → IsPending p → IsPending (forget p seq)
unfolding forget
forget-IsPending p seq v = record {
  answered_made = v.answered_made;
  waiting_made =
      λ k a ch e. v.waiting_made k a ch (ground (arith, lookup-remove seq k p.waiting, e));
}

settle-IsPending :
    (p : PendingAcks) (seq : ℕ) (subject : NodeId) (o : Option (NodeId × Channel))
    → lookup seq p.waiting ≡ o
    → IsPending p
    → IsPending (settle p seq subject o)
settle-IsPending p seq subject none e v = v
settle-IsPending p seq subject (some (asked, tx)) e v = elim (Bool-cases (asked == subject)) [
  | inr other ↦ rw other v
  | inl mine ↦ rw mine (record {
    answered_made = λ ch i. elim i [
      | inl h ↦ ground (arith, v.waiting_made seq asked tx e, h)
      | inr h ↦ v.answered_made ch h
    ];
    waiting_made =
        λ k a ch f. v.waiting_made k a ch (ground (arith, lookup-remove seq k p.waiting, f));
  })
]

pub called-IsPending : (p : PendingAcks) (c : Call) → IsPending p → IsPending (called p c)
unfolding called next_seq resolve
called-IsPending p draws v = record {
  answered_made = v.answered_made;
  waiting_made = v.waiting_made;
}
called-IsPending p (registers seq subject) v = register-IsPending p seq subject v
called-IsPending p (forgets seq) v = forget-IsPending p seq v
called-IsPending p (resolves seq subject) v =
    settle-IsPending p seq subject (lookup seq p.waiting) refl v

-- Any sequence of calls, by any tasks, keeps it so.
pub run-IsPending : (p : PendingAcks) (cs : List Call) → IsPending p → IsPending (run p cs)
unfolding run
run-IsPending p [] v = v
run-IsPending p (c ∷ cs) v = run-IsPending (called p c) cs (called-IsPending p c v)
