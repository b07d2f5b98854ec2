-- ===== src/Start/Ending.antt =====
-- What is left of `execute` when it returns without an error.
pub mod Execute
pub mod Returning
use dalila.Base.{
  ℕ, ◌≡◌, refl, Bool, true, false, List, [], ◌∷◌, ◌++◌, if◌then◌else◌, Option, none, some, Result,
  ok, err, Bool-cases, inl, inr, ◌==◌, subst, ap, ◌∙◌,
}
use dalila.Member.{SocketAddr}
use dalila.Wire.{TcpBody, check_tags}
use dalila.Node.{LocalNode, new}
use dalila.Gossip.{Agent}
use dalila.Auth.{Hmac}
use dalila.Codec.{Codec}
use dalila.Connection.{join}
use dalila.Start.{
  StartError, Config, ProxyConfig, ApiConfig, unwrap_or, check_addr, tags_error, key_of, new_agent,
  shut_down,
}
use dalila.Start.Program.{
  Task, accept_loop, udp_loop, health_check, proxy, api, detector, sync_loop, Event, listens, opens,
  starts, joins, leaves, aborts, announces, ExecuteError, World, Traced, ◌>>=◌, checked, emit,
  bound, pure, open_socket, listen_for, proxy_addr, api_addr, prepare, start_each, accepted,
  start_side, abort_each, join_through_seeds, enter, wait, work, finish, execute,
}

-- What a run leaves: the tasks that still run, whether the node has left, and whom it told.
pub data Left : Type 0 where
  remains : List Task → Bool → Option ℕ → Left

abbrev code : Task → ℕ
code accept_loop = 0
code udp_loop = 1
code health_check = 2
code proxy = 3
code api = 4
code detector = 5
code sync_loop = 6

-- The list without its first such task.
abbrev aborted : Task → List Task → List Task
aborted task [] = []
aborted task (t ∷ ts) = let rest = aborted task ts in if code t == code task then ts else t ∷ rest

abbrev pub after : Left → Event → Left
after l (listens addr) = l
after l (opens addr) = l
after (remains ts gone told) (starts task) = remains (task ∷ ts) gone told
after l (joins seeds) = l
after (remains ts gone told) leaves = remains ts true told
after (remains ts gone told) (aborts task) = remains (aborted task ts) gone told
after (remains ts gone told) (announces n) = remains ts gone (some n)

abbrev pub replay : Left → List Event → Left
replay l [] = l
replay l (e ∷ es) = replay (after l e) es

replay-append : (l : Left) (es fs : List Event) → replay l (es ++ fs) ≡ replay (replay l es) fs
replay-append l [] fs = refl
replay-append l (e ∷ es) fs = replay-append (after l e) es fs

abbrev OnOk : {A : Type 0} → Result ExecuteError A → (A → Type 0) → Type 0
OnOk (ok a) P = P a
OnOk (err e) P = Unit

-- What a stage that succeeds makes of what was left before it.
abbrev Leaves : {A : Type 0} → Traced A → (A → Left → Left) → Type 0
Leaves m k = (l : Left) → OnOk m.1 (λ a. replay l m.0 ≡ k a l)

OnOk-after :
    {B : Type 0} (l : Left) (es fs : List Event) (r : Result ExecuteError B) (j : Left)
    (k : B → Left)
    → replay l es ≡ j
    → OnOk r (λ b. replay j fs ≡ k b)
    → OnOk r (λ b. replay l (es ++ fs) ≡ k b)
OnOk-after l es fs (ok b) j k p q = rw (replay-append l es fs) (rw p q)
OnOk-after l es fs (err e) j k p q = tt

Leaves->>= :
    {A B : Type 0} (m : Traced A) (next : A → Traced B) (j : Left → Left) (k : B → Left → Left)
    → Leaves m (λ _. j)
    → ((a : A) → Leaves (next a) k)
    → Leaves (m >>= next) (λ b l. k b (j l))
unfolding ◌>>=◌
Leaves->>= (es, err x) next j k s t l = tt
Leaves->>= {A} {B} (es, ok x) next j k s t l =
    OnOk-after {B = B} l es (next x).0 (next x).1 (j l) (λ b. k b (j l)) (s l) (t x (j l))

-- A stage that starts and ends nothing.
abbrev Idle : {A : Type 0} → Traced A → Type 0
Idle m = Leaves m (λ a l. l)

Idle->>= :
    {A B : Type 0} (m : Traced A) (next : A → Traced B)
    → Idle m
    → ((a : A) → Idle (next a))
    → Idle (m >>= next)
Idle->>= m next s t = Leaves->>= m next (λ l. l) (λ b l. l) s t

Idle-checked : {A : Type 0} (r : Result StartError A) → Idle (checked r)
Idle-checked (ok a) l = refl
Idle-checked (err e) l = tt

Idle-bound : (addr : SocketAddr) (o : Option SocketAddr) → Idle (bound addr o)
Idle-bound addr none l = tt
Idle-bound addr (some got) l = refl

Idle-open_socket : (w : World) (addr : SocketAddr) → Idle (open_socket w addr)
Idle-open_socket w addr l = elim (Bool-cases (w.bind_udp addr)) [
  | inl e ↦ rw e refl
  | inr e ↦ rw e tt
]

Idle-listen_for : (binds : SocketAddr → Bool) (o : Option SocketAddr) → Idle (listen_for binds o)
Idle-listen_for binds none l = refl
Idle-listen_for binds (some addr) l = elim (Bool-cases (binds addr)) [
  | inl e ↦ rw e refl
  | inr e ↦ rw e tt
]

Idle-prepare : (w : World) (cfg : Config) → Idle (prepare w cfg)
unfolding prepare
Idle-prepare w cfg = Idle->>= (checked (check_addr cfg)) _ (Idle-checked (check_addr cfg)) (λ _.
    Idle->>= (checked (tags_error (check_tags cfg.tags))) _ (Idle-checked _) (λ _.
      Idle->>= (checked (key_of cfg.key)) _ (Idle-checked (key_of cfg.key)) (λ key.
        Idle->>= (bound cfg.bind (w.bind_tcp cfg.bind)) _
          (Idle-bound cfg.bind (w.bind_tcp cfg.bind))
          (λ got. Idle->>= (open_socket w got) _ (Idle-open_socket w got) (λ _.
            Idle->>= (listen_for w.bind_proxy (proxy_addr cfg)) _
              (Idle-listen_for w.bind_proxy (proxy_addr cfg))
              (λ _.
                Idle->>= (listen_for w.bind_api (api_addr cfg)) _
                  (Idle-listen_for w.bind_api (api_addr cfg)) (λ _ l. refl)))))))

-- A task that runs from here, if it is configured.
abbrev with_task : {A : Type 0} → Task → Option A → Left → Left
with_task task none l = l
with_task task (some a) l = after l (starts task)

Leaves-start_each :
    {A : Type 0} (task : Task) (o : Option A) → Leaves (start_each task o) (λ _. with_task task o)
Leaves-start_each task none l = refl
Leaves-start_each task (some a) l = refl

Leaves-start_side :
    (w : World) (task : Task) (o : Option SocketAddr)
    → Leaves (start_side w task o) (λ _. with_task task o)
Leaves-start_side w task none l = refl
Leaves-start_side w task (some addr) l = elim (Bool-cases (w.local_addr addr)) [
  | inl e ↦ rw e refl
  | inr e ↦ rw e tt
]

abbrev without_task : {A : Type 0} → Task → Option A → Left → Left
without_task task none l = l
without_task task (some a) l = after l (aborts task)

Leaves-abort_each :
    {A : Type 0} (task : Task) (o : Option A)
    → Leaves (abort_each task o) (λ _. without_task task o)
Leaves-abort_each task none l = refl
Leaves-abort_each task (some a) l = refl

Idle-wait : (w : World) → Idle (wait w)
Idle-wait w l = elim (Bool-cases w.signal) [ inl e ↦ rw e refl | inr e ↦ rw e tt ]

Leaves-emit : (e : Event) → Leaves (emit e) (λ _ l. after l e)
Leaves-emit e l = refl
