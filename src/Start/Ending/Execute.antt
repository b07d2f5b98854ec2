-- ===== src/Start/Ending/Execute.antt =====
-- What `execute` leaves, stage by stage.
use dalila.Base.{
  ℕ, ◌≡◌, refl, Bool, true, false, List, [], ◌∷◌, Option, none, some, Result, ok, subst, ap, ◌∙◌,
}
use dalila.Member.{SocketAddr}
use dalila.Wire.{TcpBody}
use dalila.Node.{LocalNode, new}
use dalila.Gossip.{Agent}
use dalila.Auth.{Hmac}
use dalila.Codec.{Codec}
use dalila.Connection.{join}
use dalila.Start.{Config, ProxyConfig, ApiConfig, unwrap_or, new_agent, shut_down}
use dalila.Start.Program.{
  Task, accept_loop, udp_loop, health_check, proxy, api, detector, sync_loop, starts, leaves,
  aborts, announces, ExecuteError, World, ◌>>=◌, emit, pure, proxy_addr, api_addr, prepare,
  start_each, accepted, start_side, abort_each, join_through_seeds, enter, work, finish, execute,
}
use dalila.Start.Ending.{
  Left, remains, after, replay, OnOk, Leaves, Leaves->>=, Idle, Idle-prepare, with_task,
  Leaves-start_each, Leaves-start_side, without_task, Leaves-abort_each, Idle-wait, Leaves-emit,
}

abbrev entered : Option ℕ → Left → Left
entered b l = with_task health_check b (after (after l (starts accept_loop)) (starts udp_loop))

module _ (h : Hmac) (c : Codec TcpBody) where
  Idle-join :
      (w : World) (s : Agent) (seeds : List SocketAddr) → Idle (join_through_seeds h c w s seeds)
  Idle-join w s [] l = refl
  Idle-join w s (seed ∷ seeds) l =
      Idle-accepted (join h c s.node.key w.network w.clock s (seed ∷ seeds))
    where
      Idle-accepted :
          (a : Agent × Bool)
          → OnOk (accepted (seed ∷ seeds) a).1 (λ _. replay l (accepted (seed ∷ seeds) a).0 ≡ l)
      Idle-accepted (s', true) = refl
      Idle-accepted (s', false) = tt

  Leaves-enter :
      (w : World) (cfg : Config) (n : LocalNode)
      → Leaves (enter h c w cfg n) (λ _. entered cfg.backend_port)
  unfolding enter
  Leaves-enter w cfg n =
      let health : Left → Left = with_task health_check cfg.backend_port in
      Leaves->>= (emit (starts accept_loop)) _ (λ l. after l (starts accept_loop))
        (λ _ l. health (after l (starts udp_loop))) (Leaves-emit (starts accept_loop))
        (λ _.
          Leaves->>= (emit (starts udp_loop)) _ (λ l. after l (starts udp_loop)) (λ _. health)
            (Leaves-emit (starts udp_loop))
            (λ _.
              Leaves->>= (start_each health_check cfg.backend_port) _ health (λ _ l. l)
                (Leaves-start_each health_check cfg.backend_port)
                (λ _. Idle-join w (new_agent n) cfg.seeds)))

abbrev worked : Option SocketAddr → Option SocketAddr → Left → Left
worked p a l =
    after (after (with_task api a (with_task proxy p l)) (starts detector)) (starts sync_loop)

Leaves-work :
    (w : World) (cfg : Config) → Leaves (work w cfg) (λ _. worked (proxy_addr cfg) (api_addr cfg))
unfolding work
Leaves-work w cfg =
    let sync : Left → Left = λ l. after l (starts sync_loop) in
    let both : Left → Left = λ l. sync (after l (starts detector)) in
    Leaves->>= (start_side w proxy (proxy_addr cfg)) _ (with_task proxy (proxy_addr cfg))
      (λ _ l. both (with_task api (api_addr cfg) l)) (Leaves-start_side w proxy (proxy_addr cfg))
      (λ _.
        Leaves->>= (start_side w api (api_addr cfg)) _ (with_task api (api_addr cfg)) (λ _. both)
          (Leaves-start_side w api (api_addr cfg))
          (λ _.
            Leaves->>= (emit (starts detector)) _ (λ l. after l (starts detector)) (λ _. sync)
              (Leaves-emit (starts detector))
              (λ _.
                Leaves->>= (emit (starts sync_loop)) _ sync (λ _ l. l)
                  (Leaves-emit (starts sync_loop)) (λ _ l. Idle-wait w l))))

abbrev ended : Option ProxyConfig → Option ApiConfig → Option ℕ → Left → Left
ended p a b l =
    let loops =
      after
        (after (after (after (after l leaves) (aborts accept_loop)) (aborts udp_loop))
          (aborts detector))
        (aborts sync_loop) in
    without_task health_check b (without_task api a (without_task proxy p loops))

Leaves-announce :
    (n : ℕ) → Leaves (emit (announces n) >>= (λ _. pure n)) (λ n l. after l (announces n))
unfolding ◌>>=◌
Leaves-announce n l = refl

Leaves-finish :
    (w : World) (cfg : Config) (s : Agent)
    → Leaves
        (finish w cfg s)
        (λ n l. after (ended cfg.proxy cfg.api cfg.backend_port l) (announces n))
unfolding finish
Leaves-finish w cfg s =
    let told = (shut_down w.sends (w.until_signal s)).1 in
    let p : Left → Left = without_task proxy cfg.proxy in
    let a : Left → Left = without_task api cfg.api in
    let b : Left → Left = without_task health_check cfg.backend_port in
    let k : (Left → Left) → ℕ → Left → Left = λ j n l. after (j l) (announces n) in
    let rest : (Left → Left) = λ l. b (a (p l)) in
    let stop : Task → Left → Left = λ task l. after l (aborts task) in
    Leaves->>= {B = ℕ} (emit leaves) _ (λ l. after l leaves)
      (k (λ l. rest (stop sync_loop (stop detector (stop udp_loop (stop accept_loop l))))))
      (Leaves-emit leaves)
      (λ _.
        Leaves->>= {B = ℕ} (emit (aborts accept_loop)) _ (stop accept_loop)
          (k (λ l. rest (stop sync_loop (stop detector (stop udp_loop l)))))
          (Leaves-emit (aborts accept_loop))
          (λ _.
            Leaves->>= {B = ℕ} (emit (aborts udp_loop)) _ (stop udp_loop)
              (k (λ l. rest (stop sync_loop (stop detector l)))) (Leaves-emit (aborts udp_loop))
              (λ _.
                Leaves->>= {B = ℕ} (emit (aborts detector)) _ (stop detector)
                  (k (λ l. rest (stop sync_loop l))) (Leaves-emit (aborts detector))
                  (λ _.
                    Leaves->>= {B = ℕ} (emit (aborts sync_loop)) _ (stop sync_loop) (k rest)
                      (Leaves-emit (aborts sync_loop))
                      (λ _.
                        Leaves->>= {B = ℕ} (abort_each proxy cfg.proxy) _ p (k (λ l. b (a l)))
                          (Leaves-abort_each proxy cfg.proxy)
                          (λ _.
                            Leaves->>= {B = ℕ} (abort_each api cfg.api) _ a (k b)
                              (Leaves-abort_each api cfg.api)
                              (λ _.
                                Leaves->>= {B = ℕ} (abort_each health_check cfg.backend_port) _ b
                                  (k (λ l. l)) (Leaves-abort_each health_check cfg.backend_port)
                                  (λ _. Leaves-announce told))))))))

OnOk-of :
    {A : Type 0} (P : A → Type 0) (r : Result ExecuteError A) (a : A) → OnOk r P → r ≡ ok a → P a
OnOk-of P r a o p = subst (λ r. OnOk r P) p o

-- The tasks that a run starts are the ones it aborts.
abbrev listen_of : Option ProxyConfig → Option SocketAddr
listen_of p = elim p [ none ↦ none | some x ↦ some x.listen ]

abbrev api_listen_of : Option ApiConfig → Option SocketAddr
api_listen_of a = elim a [ none ↦ none | some x ↦ some x.listen ]

ended-worked :
    (p : Option ProxyConfig) (a : Option ApiConfig) (b : Option ℕ)
    → ended p a b (worked (listen_of p) (api_listen_of a) (entered b (remains [] false none)))
      ≡ remains [] true none
ended-worked none none none = refl
ended-worked none none (some b) = refl
ended-worked none (some a) none = refl
ended-worked none (some a) (some b) = refl
ended-worked (some p) none none = refl
ended-worked (some p) none (some b) = refl
ended-worked (some p) (some a) none = refl
ended-worked (some p) (some a) (some b) = refl

-- If `execute` returns without an error, and with the number of those it told, then no task that it
-- started is still running, the node has left, and that number was announced last.
pub replay-execute :
    (h : Hmac) (c : Codec TcpBody) (w : World) (cfg : Config) (n : ℕ)
    → (execute h c w cfg).1 ≡ ok n
    → replay (remains [] false none) (execute h c w cfg).0 ≡ remains [] true (some n)
unfolding execute
replay-execute h c w cfg n p =
    let e : Left → Left = entered cfg.backend_port in
    let d : Left → Left = worked (proxy_addr cfg) (api_addr cfg) in
    let f : ℕ → Left → Left =
      λ n l. after (ended cfg.proxy cfg.api cfg.backend_port l) (announces n) in
    let run : Leaves (execute h c w cfg) (λ n l. f n (d (e l))) =
      Leaves->>= (prepare w cfg) _ (λ l. l) (λ n l. f n (d (e l))) (Idle-prepare w cfg)
        (λ got.
          let node = new w.id (unwrap_or cfg.advertise got.1) got.0 cfg.tags in
          Leaves->>= (enter h c w cfg node) _ e (λ n l. f n (d l)) (Leaves-enter h c w cfg node)
            (λ s.
              Leaves->>= (work w cfg) _ d f (Leaves-work w cfg) (λ _. Leaves-finish w cfg s))) in
    let start : Left = remains [] false none in
    OnOk-of (λ n. replay start (execute h c w cfg).0 ≡ f n (d (e start))) (execute h c w cfg).1 n
      (run start) p
    ∙ ap (λ l. after l (announces n)) (ended-worked cfg.proxy cfg.api cfg.backend_port)
