-- ===== src/Start/Phases.antt =====
-- The order in which `execute` acts.
pub mod Execute
use dalila.Base.{
  ℕ, ◌≤◌, ◌≡◌, arith, Bool, true, false, List, [], ◌∷◌, ◌++◌, leb, Option, none, some, Result, ok,
  err, All, IsSorted, Bool-cases, inl, inr,
}
use dalila.Member.{SocketAddr}
use dalila.Wire.{TcpBody, check_tags}
use dalila.Node.{LocalNode, new}
use dalila.Gossip.{Agent}
use dalila.Auth.{Hmac}
use dalila.Codec.{Codec}
use dalila.Connection.{join}
use dalila.Start.{
  StartError, Config, unwrap_or, check_addr, tags_error, key_of, new_agent, shut_down,
}
use dalila.Start.Program.{
  Task, accept_loop, udp_loop, health_check, proxy, api, detector, sync_loop, Event, listens, opens,
  starts, joins, leaves, aborts, announces, World, Traced, ◌>>=◌, checked, emit, bound, open_socket,
  listen_for, proxy_addr, api_addr, prepare, start_each, accepted, start_side, abort_each,
  join_through_seeds, enter, wait, work, finish, execute,
}

-- Sockets are bound, the loops that peers need are started, the node joins, the rest is started, the
-- node leaves, the loops are aborted, and the others are told.
abbrev pub start_phase : Task → ℕ
start_phase accept_loop = 1
start_phase udp_loop = 1
start_phase health_check = 1
start_phase proxy = 3
start_phase api = 3
start_phase detector = 3
start_phase sync_loop = 3

abbrev pub phase : Event → ℕ
phase (listens addr) = 0
phase (opens addr) = 0
phase (starts task) = start_phase task
phase (joins seeds) = 2
phase leaves = 4
phase (aborts task) = 5
phase (announces told) = 6

abbrev pub in_order : Event → Event → Bool
in_order a b = leb (phase a) (phase b)

-- In order, and from phase `lo` to phase `hi`.
abbrev Spans : ℕ → ℕ → List Event → Type 0
Spans lo hi es = IsSorted in_order es × All (λ e. (lo ≤ phase e) × (phase e ≤ hi)) es

All-bounds :
    (lo hi lo' hi' : ℕ) (es : List Event)
    → lo' ≤ lo
    → hi ≤ hi'
    → All (λ e. (lo ≤ phase e) × (phase e ≤ hi)) es
    → All (λ e. (lo' ≤ phase e) × (phase e ≤ hi')) es
All-bounds lo hi lo' hi' [] a b all = tt
All-bounds lo hi lo' hi' (e ∷ es) a b (within, all) =
    ((omega (arith, within.0), omega (arith, within.1)), All-bounds lo hi lo' hi' es a b all)

above :
    (m hi : ℕ) (es : List Event) (e : Event)
    → phase e ≤ m
    → All (λ x. (m ≤ phase x) × (phase x ≤ hi)) es
    → All (λ x. in_order e x ≡ true) es
above m hi [] e low all = tt
above m hi (x ∷ es) e low (within, all) = (ground (arith, within.0), above m hi es e low all)

All-append : (P : Event → Type 0) (es fs : List Event) → All P es → All P fs → All P (es ++ fs)
All-append P [] fs a b = b
All-append P (e ∷ es) fs (p, a) b = (p, All-append P es fs a b)

Spans-append :
    (lo mid hi : ℕ) (es fs : List Event)
    → lo ≤ mid
    → mid ≤ hi
    → Spans lo mid es
    → Spans mid hi fs
    → Spans lo hi (es ++ fs)
Spans-append lo mid hi [] fs a b s t = (t.0, All-bounds mid hi lo hi fs a (omega arith) t.1)
Spans-append lo mid hi (e ∷ es) fs a b (sorted, (within, all)) t =
    let rest = Spans-append lo mid hi es fs a b (sorted.1, all) t in
    (
      (
        All-append (λ x. in_order e x ≡ true) es fs sorted.0 (above mid hi fs e within.1 t.1),
        rest.0,
      ),
      ((within.0, omega (arith, within.1)), rest.1),
    )

Spans->>= :
    {A B : Type 0} (lo mid hi : ℕ) (m : Traced A) (next : A → Traced B)
    → lo ≤ mid
    → mid ≤ hi
    → Spans lo mid m.0
    → ((a : A) → Spans mid hi (next a).0)
    → Spans lo hi (m >>= next).0
unfolding ◌>>=◌
Spans->>= lo mid hi (es, err e) next a b s t = (s.0, All-bounds lo mid lo hi es (omega arith) b s.1)
Spans->>= lo mid hi (es, ok x) next a b s t = Spans-append lo mid hi es (next x).0 a b s (t x)

Spans-weaken :
    (lo hi lo' hi' : ℕ) (es : List Event) → lo' ≤ lo → hi ≤ hi' → Spans lo hi es → Spans lo' hi' es
Spans-weaken lo hi lo' hi' es a b s = (s.0, All-bounds lo hi lo' hi' es a b s.1)

-- One act.
Spans-emit : (lo hi : ℕ) (e : Event) → lo ≤ phase e → phase e ≤ hi → Spans lo hi (e ∷ [])
Spans-emit lo hi e a b = ((tt, tt), ((a, b), tt))

Spans-act : (e : Event) → Spans (phase e) (phase e) (e ∷ [])
Spans-act e = Spans-emit (phase e) (phase e) e (omega arith) (omega arith)

-- A step that is followed by more in the same phases.
Spans-then :
    {A B : Type 0} (lo hi : ℕ) (m : Traced A) (next : A → Traced B)
    → lo ≤ hi
    → Spans lo lo m.0
    → ((a : A) → Spans lo hi (next a).0)
    → Spans lo hi (m >>= next).0
Spans-then lo hi m next a s t = Spans->>= lo lo hi m next (omega arith) a s t

Spans-checked : {A : Type 0} (r : Result StartError A) → Spans 0 0 (checked r).0
Spans-checked (ok a) = (tt, tt)
Spans-checked (err e) = (tt, tt)

Spans-bound : (addr : SocketAddr) (o : Option SocketAddr) → Spans 0 0 (bound addr o).0
Spans-bound addr none = (tt, tt)
Spans-bound addr (some got) = Spans-emit 0 0 (listens addr) (omega arith) (omega arith)

Spans-open_socket : (w : World) (addr : SocketAddr) → Spans 0 0 (open_socket w addr).0
Spans-open_socket w addr = elim (Bool-cases (w.bind_udp addr)) [
  | inl e ↦ rw e (Spans-emit 0 0 (opens addr) (omega arith) (omega arith))
  | inr e ↦ rw e (tt, tt)
]

Spans-listen_for :
    (binds : SocketAddr → Bool) (o : Option SocketAddr) → Spans 0 0 (listen_for binds o).0
Spans-listen_for binds none = (tt, tt)
Spans-listen_for binds (some addr) = elim (Bool-cases (binds addr)) [
  | inl e ↦ rw e (Spans-emit 0 0 (listens addr) (omega arith) (omega arith))
  | inr e ↦ rw e (tt, tt)
]

Spans-prepare : (w : World) (cfg : Config) → Spans 0 0 (prepare w cfg).0
unfolding prepare
Spans-prepare w cfg =
    let zero_le : 0 ≤ 0 = omega arith in
    Spans-then 0 0 (checked (check_addr cfg)) _ zero_le (Spans-checked (check_addr cfg)) (λ u.
      Spans-then 0 0 (checked (tags_error (check_tags cfg.tags))) _ zero_le (Spans-checked _) (λ u'.
        Spans-then 0 0 (checked (key_of cfg.key)) _ zero_le (Spans-checked _) (λ key.
          Spans-then 0 0 (bound cfg.bind (w.bind_tcp cfg.bind)) _ zero_le
            (Spans-bound cfg.bind (w.bind_tcp cfg.bind))
            (λ got. Spans-then 0 0 (open_socket w got) _ zero_le (Spans-open_socket w got) (λ v.
              Spans-then 0 0 (listen_for w.bind_proxy (proxy_addr cfg)) _ zero_le
                (Spans-listen_for w.bind_proxy (proxy_addr cfg))
                (λ v'.
                  Spans-then 0 0 (listen_for w.bind_api (api_addr cfg)) _ zero_le
                    (Spans-listen_for w.bind_api (api_addr cfg)) (λ x. (tt, tt))))))))

Spans-start_each :
    {A : Type 0} (task : Task) (o : Option A)
    → Spans (start_phase task) (start_phase task) (start_each task o).0
Spans-start_each task none = (tt, tt)
Spans-start_each task (some a) = Spans-emit _ _ (starts task) (omega arith) (omega arith)

Spans-accepted : (seeds : List SocketAddr) (a : Agent × Bool) → Spans 1 2 (accepted seeds a).0
Spans-accepted seeds (s, true) = Spans-emit 1 2 (joins seeds) (omega arith) (omega arith)
Spans-accepted seeds (s, false) = Spans-emit 1 2 (joins seeds) (omega arith) (omega arith)

Spans-start_side :
    (w : World) (task : Task) (o : Option SocketAddr)
    → Spans (start_phase task) (start_phase task) (start_side w task o).0
Spans-start_side w task none = (tt, tt)
Spans-start_side w task (some addr) = elim (Bool-cases (w.local_addr addr)) [
  | inl e ↦ rw e (Spans-emit _ _ (starts task) (omega arith) (omega arith))
  | inr e ↦ rw e (tt, tt)
]

Spans-abort_each : {A : Type 0} (task : Task) (o : Option A) → Spans 5 5 (abort_each task o).0
Spans-abort_each task none = (tt, tt)
Spans-abort_each task (some a) = Spans-emit 5 5 (aborts task) (omega arith) (omega arith)
