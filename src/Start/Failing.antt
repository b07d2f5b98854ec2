-- ===== src/Start/Failing.antt =====
-- Where `execute` stops, by the error that it ends with.
pub mod Execute
use dalila.Base.{
  ℕ, ◌≤◌, ◌<◌, ◌≡◌, arith, Bool, true, false, List, [], ◌∷◌, ◌++◌, Option, none, some, Result, ok,
  err, All, Bool-cases, inl, inr, subst,
}
use dalila.Member.{SocketAddr}
use dalila.Wire.{TcpBody, check_tags}
use dalila.Node.{LocalNode, ClusterKey, new}
use dalila.Gossip.{Agent}
use dalila.Auth.{Hmac}
use dalila.Codec.{Codec}
use dalila.Connection.{join}
use dalila.Start.{
  StartError, Config, unwrap_or, check_addr, tags_error, key_of, new_agent, shut_down,
}
use dalila.Start.Program.{
  Task, accept_loop, udp_loop, health_check, proxy, api, detector, sync_loop, Event, starts, leaves,
  aborts, announces, ExecuteError, refused, no_listener, no_socket, no_local_addr, no_seed,
  no_signal, World, Traced, ◌>>=◌, checked, emit, bound, open_socket, listen_for, proxy_addr,
  api_addr, prepare, start_each, accepted, start_side, abort_each, join_through_seeds, enter, wait,
  work, finish, execute,
}
use dalila.Start.Phases.{phase, start_phase}

-- The phase that an error keeps `execute` from.
abbrev pub limit : ExecuteError → ℕ
limit (refused e) = 0
limit (no_listener addr) = 1
limit (no_socket addr) = 1
limit no_seed = 3
limit (no_local_addr addr) = 4
limit no_signal = 4

abbrev Below : ℕ → List Event → Type 0
Below k es = All (λ e. phase e < k) es

abbrev OnError : {A : Type 0} → Result ExecuteError A → (ExecuteError → Type 0) → Type 0
OnError (ok a) P = Unit
OnError (err e) P = P e

-- All that is done is below phase `hi`, and an error keeps it from phase `lo` at the earliest.
abbrev Stops : {A : Type 0} → ℕ → ℕ → Traced A → Type 0
Stops lo hi m = Below hi m.0 × OnError m.1 (λ e. (lo ≤ limit e) × Below (limit e) m.0)

Below-weaken : (k l : ℕ) (es : List Event) → k ≤ l → Below k es → Below l es
Below-weaken k l [] a b = tt
Below-weaken k l (e ∷ es) a (b, bs) = (omega (arith, b), Below-weaken k l es a bs)

Below-append : (k : ℕ) (es fs : List Event) → Below k es → Below k fs → Below k (es ++ fs)
Below-append k [] fs a b = b
Below-append k (e ∷ es) fs (p, a) b = (p, Below-append k es fs a b)

OnError-after :
    {B : Type 0} (lo mid hi : ℕ) (es fs : List Event) (r : Result ExecuteError B)
    → lo ≤ mid
    → Below mid es
    → OnError r (λ e. (mid ≤ limit e) × Below (limit e) fs)
    → OnError r (λ e. (lo ≤ limit e) × Below (limit e) (es ++ fs))
OnError-after lo mid hi es fs (ok b) a below t = tt
OnError-after lo mid hi es fs (err e) a below (late, rest) = (
  omega (arith, late, a),
  Below-append (limit e) es fs (Below-weaken mid (limit e) es late below) rest,
)

Stops->>= :
    {A B : Type 0} (lo mid hi : ℕ) (m : Traced A) (next : A → Traced B)
    → lo ≤ mid
    → mid ≤ hi
    → Stops lo mid m
    → ((a : A) → Stops mid hi (next a))
    → Stops lo hi (m >>= next)
unfolding ◌>>=◌
Stops->>= lo mid hi (es, err x) next a b s t = (Below-weaken mid hi es b s.0, s.1)
Stops->>= lo mid hi (es, ok x) next a b s t = (
  Below-append hi es (next x).0 (Below-weaken mid hi es b s.0) (t x).0,
  OnError-after lo mid hi es (next x).0 (next x).1 a s.0 (t x).1,
)

Stops-from : {A : Type 0} (lo lo' hi : ℕ) (m : Traced A) → lo ≤ lo' → Stops lo' hi m → Stops lo hi m
Stops-from lo lo' hi m a s = (s.0, OnError-after lo lo' hi [] m.0 m.1 a tt s.1)

Stops-checked : {A : Type 0} (r : Result StartError A) → Stops 0 0 (checked r)
Stops-checked (ok a) = (tt, tt)
Stops-checked (err e) = (tt, (omega arith, tt))

Stops-bound : (addr : SocketAddr) (o : Option SocketAddr) → Stops 1 1 (bound addr o)
Stops-bound addr none = (tt, (omega arith, tt))
Stops-bound addr (some got) = ((omega arith, tt), tt)

Stops-open_socket : (w : World) (addr : SocketAddr) → Stops 1 1 (open_socket w addr)
Stops-open_socket w addr = elim (Bool-cases (w.bind_udp addr)) [
  | inl e ↦ rw e ((omega arith, tt), tt)
  | inr e ↦ rw e (tt, (omega arith, tt))
]

Stops-listen_for :
    (binds : SocketAddr → Bool) (o : Option SocketAddr) → Stops 1 1 (listen_for binds o)
Stops-listen_for binds none = (tt, tt)
Stops-listen_for binds (some addr) = elim (Bool-cases (binds addr)) [
  | inl e ↦ rw e ((omega arith, tt), tt)
  | inr e ↦ rw e (tt, (omega arith, tt))
]

Stops-prepare : (w : World) (cfg : Config) → Stops 0 1 (prepare w cfg)
unfolding prepare
Stops-prepare w cfg =
    let zero : 0 ≤ 0 = omega arith in
    let up : 0 ≤ 1 = omega arith in
    let one : 1 ≤ 1 = omega arith in
    Stops->>= 0 0 1 (checked (check_addr cfg)) _ zero up (Stops-checked (check_addr cfg)) (λ _.
      Stops->>= 0 0 1 (checked (tags_error (check_tags cfg.tags))) _ zero up (Stops-checked _) (λ _.
        Stops->>= 0 0 1 (checked (key_of cfg.key)) _ zero up (Stops-checked (key_of cfg.key))
          (λ key. Stops-from 0 1 1 _ up (
            Stops->>= {B = ClusterKey × SocketAddr} 1 1 1 (bound cfg.bind (w.bind_tcp cfg.bind)) _
              one one (Stops-bound cfg.bind (w.bind_tcp cfg.bind))
              (λ got.
                Stops->>= {B = ClusterKey × SocketAddr} 1 1 1 (open_socket w got) _ one one
                  (Stops-open_socket w got)
                  (λ _.
                    Stops->>= {B = ClusterKey × SocketAddr} 1 1 1
                      (listen_for w.bind_proxy (proxy_addr cfg)) _ one one
                      (Stops-listen_for w.bind_proxy (proxy_addr cfg))
                      (λ _.
                        Stops->>= {B = ClusterKey × SocketAddr} 1 1 1
                          (listen_for w.bind_api (api_addr cfg)) _ one one
                          (Stops-listen_for w.bind_api (api_addr cfg)) (λ _. (tt, tt)))))))))

Stops-start_each :
    {A : Type 0} (hi : ℕ) (task : Task) (o : Option A)
    → start_phase task < hi
    → Stops hi hi (start_each task o)
Stops-start_each hi task none a = (tt, tt)
Stops-start_each hi task (some x) a = ((a, tt), tt)

Stops-accepted : (seeds : List SocketAddr) (a : Agent × Bool) → Stops 3 3 (accepted seeds a)
Stops-accepted seeds (s, true) = ((omega arith, tt), tt)
Stops-accepted seeds (s, false) = ((omega arith, tt), (omega arith, (omega arith, tt)))

Stops-start_side :
    (w : World) (task : Task) (o : Option SocketAddr)
    → start_phase task < 4
    → Stops 4 4 (start_side w task o)
Stops-start_side w task none a = (tt, tt)
Stops-start_side w task (some addr) a = elim (Bool-cases (w.local_addr addr)) [
  | inl e ↦ rw e ((a, tt), tt)
  | inr e ↦ rw e (tt, (omega arith, tt))
]

Stops-emit : (hi : ℕ) (e : Event) → phase e < hi → Stops hi hi (emit e)
Stops-emit hi e a = ((a, tt), tt)

Stops-wait : (w : World) → Stops 4 4 (wait w)
Stops-wait w = elim (Bool-cases w.signal) [
  | inl e ↦ rw e (tt, tt)
  | inr e ↦ rw e (tt, (omega arith, tt))
]
