-- ===== src/Acks/Answers.antt =====
-- A probe is answered by news about the very node that it asked about, and by nothing else.
use dalila.Base.{
  ℕ, zero, suc, ◌+◌, ◌%◌, ◌^◌, ◌<◌, ◌≡◌, ◌≢◌, refl, ◌∙◌, List, [], ◌∷◌, ◌==◌, Option, none, some,
  lookup, insert, arith, lookup-insert, lookup-remove, Elem, Bool-cases, inl, inr, ◌⊎◌,
}
use dalila.Member.{NodeId}
use dalila.Acks.{
  PendingAcks, Channel, next_seq, register, forget, settle, resolve, Call, draws, registers,
  forgets, resolves, called, run,
}

-- Channel `ch` waits for news about `subject` under `seq` alone, if at all, and is not answered.
pub record Unanswered (p : PendingAcks) (ch : Channel) (seq : ℕ) (subject : NodeId) : Type 0 where
  pub made : ch < p.channels
  pub silent : ¬ Elem ch p.answered
  pub only :
      (k : ℕ) (asked : NodeId)
      → lookup k p.waiting ≡ some (asked, ch)
      → (k ≡ seq) × (asked ≡ subject)

-- No channel that is yet to be made is waiting or answered.
pub record IsPending (p : PendingAcks) : Type 0 where
  pub answered_made : (ch : Channel) → Elem ch p.answered → ch < p.channels
  pub waiting_made :
      (k : ℕ) (asked : NodeId) (ch : Channel)
      → lookup k p.waiting ≡ some (asked, ch)
      → ch < p.channels

pub register-Unanswered :
    (p : PendingAcks) (seq : ℕ) (subject : NodeId)
    → IsPending p
    → Unanswered (register p seq subject).0 (register p seq subject).1 seq subject
unfolding register
register-Unanswered p seq subject v = record {
  made = omega arith;
  silent = λ i. absurd (omega (arith, v.answered_made p.channels i));
  only = λ k asked e. elim (Bool-cases (seq == k)) [
    | inl here ↦ ground (arith, lookup-insert seq k (subject, p.channels) p.waiting, here, e)
    | inr other ↦ absurd (
        ground (
          arith,
          lookup-insert seq k (subject, p.channels) p.waiting,
          other,
          e,
          v.waiting_made k asked p.channels,
        ))
  ];
}

settled :
    (p : PendingAcks) (ch : Channel) (seq k : ℕ) (subject asker : NodeId)
    (o : Option (NodeId × Channel))
    → Unanswered p ch seq subject
    → lookup k p.waiting ≡ o
    → Unanswered (settle p k asker o) ch seq subject ⊎ ((k ≡ seq) × (asker ≡ subject))
settled p ch seq k subject asker none u e = inl u
settled p ch seq k subject asker (some (asked, tx)) u e = elim (Bool-cases (asked == asker)) [
  | inr other ↦ rw other (inl u)
  | inl mine ↦ elim (Bool-cases (tx == ch)) [
    | inl hit ↦
        let here : lookup k p.waiting ≡ some (asked, ch) = ground (arith, e, hit) in
        let (a, b) = u.only k asked here in inr (a, ground (arith, b, mine))
    | inr miss ↦ rw mine (
        inl (record {
          made = u.made;
          silent = λ i. elim i [ inl h ↦ absurd (ground (arith, miss, h)) | inr h ↦ u.silent h ];
          only = λ j x h. u.only j x (ground (arith, h, lookup-remove k j p.waiting));
        }))
  ]
]

called-Unanswered :
    (p : PendingAcks) (c : Call) (ch : Channel) (seq : ℕ) (subject : NodeId)
    → Unanswered p ch seq subject
    → Unanswered (called p c) ch seq subject ⊎ (c ≡ resolves seq subject)
unfolding called next_seq register forget resolve
called-Unanswered p draws ch seq subject u =
    inl (record { made = u.made; silent = u.silent; only = u.only })
called-Unanswered p (registers k about) ch seq subject u = inl (record {
  made = omega (arith, u.made);
  silent = u.silent;
  only = λ j x h. elim (Bool-cases (k == j)) [
    | inl here ↦
        absurd (ground (arith, lookup-insert k j (about, p.channels) p.waiting, here, h, u.made))
    | inr other ↦
        u.only j x (ground (arith, lookup-insert k j (about, p.channels) p.waiting, other, h))
  ];
})
called-Unanswered p (forgets k) ch seq subject u = inl (record {
  made = u.made;
  silent = u.silent;
  only = λ j x h. u.only j x (ground (arith, h, lookup-remove k j p.waiting));
})
called-Unanswered p (resolves k about) ch seq subject u =
    elim (settled p ch seq k subject about (lookup k p.waiting) u refl) [
      | inl still ↦ inl still
      | inr (a, b) ↦ inr (λ i. resolves (a i) (b i))
    ]

-- If a channel that waits for news about a node under a number, and is not answered, is answered
-- after some calls, then one of the calls reported that very node under that number.
pub answered_by_subject :
    (p : PendingAcks) (cs : List Call) (ch : Channel) (seq : ℕ) (subject : NodeId)
    → Unanswered p ch seq subject
    → Elem ch (run p cs).answered
    → Elem (resolves seq subject) cs
unfolding run
answered_by_subject p [] ch seq subject u i = absurd (u.silent i)
answered_by_subject p (c ∷ cs) ch seq subject u i = elim (called-Unanswered p c ch seq subject u) [
  | inl still ↦ inr (answered_by_subject (called p c) cs ch seq subject still i)
  | inr now ↦ inl now
]

-- News about the node that was asked about completes the probe; news about another node, such as a
-- new process at the same address, changes nothing.
pub resolve-register :
    (p : PendingAcks) (seq : ℕ) (subject other : NodeId)
    → other ≢ subject
    → let (q, ch) = register p seq subject in
      Elem ch (resolve q seq subject).answered
      × (lookup seq (resolve q seq subject).waiting ≡ none)
      × (resolve q seq other ≡ q)
unfolding resolve register
resolve-register p seq subject other differs =
    let found = lookup-insert seq seq (subject, p.channels) p.waiting in
    let here : lookup seq (insert seq (subject, p.channels) p.waiting)
        ≡ some (subject, p.channels) =
      ground (arith, found) in
    (
      rw here (ground arith),
      rw here (ground (arith, lookup-remove seq seq (insert seq (subject, p.channels) p.waiting))),
      rw here (ground (arith, differs)),
    )

-- The numbers are drawn in turn.
pub after_draws : ℕ → PendingAcks → PendingAcks
after_draws zero p = p
after_draws (suc n) p = after_draws n (next_seq p).0

next-after_draws :
    (n : ℕ) (p : PendingAcks) → p.next < 2 ^ 32 → (after_draws n p).next ≡ (p.next + n) % 2 ^ 32
unfolding after_draws next_seq
next-after_draws zero p h = omega arith
next-after_draws (suc n) p h = next-after_draws n (next_seq p).0 (omega arith) ∙ omega arith

-- Two draws give different numbers, unless 2 ^ 32 draws or more lie between them.
pub next_seq_distinct :
    (p : PendingAcks) (m n : ℕ)
    → p.next < 2 ^ 32
    → m < n
    → n < m + 2 ^ 32
    → (next_seq (after_draws m p)).1 ≢ (next_seq (after_draws n p)).1
unfolding next_seq
next_seq_distinct p m n h lt near e =
    absurd (omega (arith, next-after_draws m p h, next-after_draws n p h, e))
