-- ===== src/Acks.antt =====
-- src/membership/src/udp.rs, `PendingAcks`: probes in flight by sequence number. A oneshot channel is
-- named by a number; `answered` are the channels whose receiver got its message.
pub mod Answers
pub mod Invariant
use dalila.Base.{
  ℕ, ◌+◌, ◌%◌, ◌^◌, Bool, List, [], ◌∷◌, ◌==◌, if◌then◌else◌, Option, none, some, HashMap, lookup,
  insert, remove,
}
use dalila.Member.{NodeId}

abbrev pub Channel : Type 0
Channel = ℕ

pub record PendingAcks : Type 0 where
  pub waiting : HashMap (NodeId × Channel)
  pub next : ℕ
  pub channels : ℕ
  pub answered : List Channel

abbrev pub no_acks : PendingAcks
no_acks = record { waiting = []; next = 0; channels = 0; answered = [] }

-- `fetch_add(1)` on an `AtomicU32`.
unfoldable pub next_seq : PendingAcks → PendingAcks × ℕ
next_seq p = (record p { next = (p.next + 1) % 2 ^ 32 }, p.next)

unfoldable pub register : PendingAcks → ℕ → NodeId → PendingAcks × Channel
register p seq subject = (
  record p { waiting = insert seq (subject, p.channels) p.waiting; channels = p.channels + 1 },
  p.channels,
)

unfoldable pub forget : PendingAcks → ℕ → PendingAcks
forget p seq = record p { waiting = remove seq p.waiting }

abbrev pub settle : PendingAcks → ℕ → NodeId → Option (NodeId × Channel) → PendingAcks
settle p seq subject none = p
settle p seq subject (some (asked, tx)) =
    if asked == subject
    then (record p { waiting = remove seq p.waiting; answered = tx ∷ p.answered })
    else p

unfoldable pub resolve : PendingAcks → ℕ → NodeId → PendingAcks
resolve p seq subject = settle p seq subject (lookup seq p.waiting)

-- What the tasks that share the record may call, in any order.
pub data Call : Type 0 where
  draws : Call
  registers : ℕ → NodeId → Call
  forgets : ℕ → Call
  resolves : ℕ → NodeId → Call

unfoldable pub called : PendingAcks → Call → PendingAcks
called p draws = (next_seq p).0
called p (registers seq subject) = (register p seq subject).0
called p (forgets seq) = forget p seq
called p (resolves seq subject) = resolve p seq subject

unfoldable pub run : PendingAcks → List Call → PendingAcks
run p [] = p
run p (c ∷ cs) = run (called p c) cs
