-- ===== src/Start/Failing/Execute.antt =====
-- Where `execute` stops, stage by stage.
use dalila.Base.{
  ℕ, ◌≤◌, ◌<◌, ◌≡◌, arith, List, [], ◌∷◌, Option, none, some, Result, err, All, subst,
}
use dalila.Member.{SocketAddr}
use dalila.Wire.{TcpBody}
use dalila.Node.{LocalNode, new}
use dalila.Gossip.{Agent}
use dalila.Auth.{Hmac}
use dalila.Codec.{Codec}
use dalila.Connection.{join}
use dalila.Start.{Config, unwrap_or, new_agent, shut_down}
use dalila.Start.Program.{
  Task, accept_loop, udp_loop, health_check, proxy, api, detector, sync_loop, starts, leaves,
  aborts, announces, ExecuteError, World, emit, proxy_addr, api_addr, prepare, start_each,
  start_side, abort_each, join_through_seeds, enter, work, finish, execute,
}
use dalila.Start.Phases.{phase}
use dalila.Start.Failing.{
  limit, Below, OnError, Stops, Stops->>=, Stops-from, Stops-prepare, Stops-start_each,
  Stops-accepted, Stops-start_side, Stops-emit, Stops-wait,
}

module _ (h : Hmac) (c : Codec TcpBody) where
  Stops-join :
      (w : World) (s : Agent) (seeds : List SocketAddr)
      → Stops 3 3 (join_through_seeds h c w s seeds)
  Stops-join w s [] = (tt, tt)
  Stops-join w s (seed ∷ seeds) =
      Stops-accepted (seed ∷ seeds) (join h c s.node.key w.network w.clock s (seed ∷ seeds))

  Stops-enter : (w : World) (cfg : Config) (n : LocalNode) → Stops 3 3 (enter h c w cfg n)
  unfolding enter
  Stops-enter w cfg n =
      let same : 3 ≤ 3 = omega arith in
      Stops->>= {B = Agent} 3 3 3 (emit (starts accept_loop)) _ same same
        (Stops-emit 3 (starts accept_loop) (omega arith))
        (λ _.
          Stops->>= {B = Agent} 3 3 3 (emit (starts udp_loop)) _ same same
            (Stops-emit 3 (starts udp_loop) (omega arith))
            (λ _.
              Stops->>= {B = Agent} 3 3 3 (start_each health_check cfg.backend_port) _ same same
                (Stops-start_each 3 health_check cfg.backend_port (omega arith))
                (λ _. Stops-join w (new_agent n) cfg.seeds)))

Stops-work : (w : World) (cfg : Config) → Stops 4 4 (work w cfg)
unfolding work
Stops-work w cfg =
    let same : 4 ≤ 4 = omega arith in
    Stops->>= 4 4 4 (start_side w proxy (proxy_addr cfg)) _ same same
      (Stops-start_side w proxy (proxy_addr cfg) (omega arith))
      (λ _.
        Stops->>= 4 4 4 (start_side w api (api_addr cfg)) _ same same
          (Stops-start_side w api (api_addr cfg) (omega arith))
          (λ _.
            Stops->>= 4 4 4 (emit (starts detector)) _ same same
              (Stops-emit 4 (starts detector) (omega arith))
              (λ _.
                Stops->>= 4 4 4 (emit (starts sync_loop)) _ same same
                  (Stops-emit 4 (starts sync_loop) (omega arith)) (λ _. Stops-wait w))))

Stops-abort_each : {A : Type 0} (task : Task) (o : Option A) → Stops 7 7 (abort_each task o)
Stops-abort_each task none = (tt, tt)
Stops-abort_each task (some a) = ((omega arith, tt), tt)

Stops-finish : (w : World) (cfg : Config) (s : Agent) → Stops 7 7 (finish w cfg s)
unfolding finish
Stops-finish w cfg s =
    let same : 7 ≤ 7 = omega arith in
    Stops->>= {B = ℕ} 7 7 7 (emit leaves) _ same same (Stops-emit 7 leaves (omega arith)) (λ _.
      Stops->>= {B = ℕ} 7 7 7 (emit (aborts accept_loop)) _ same same
        (Stops-emit 7 (aborts accept_loop) (omega arith))
        (λ _.
          Stops->>= {B = ℕ} 7 7 7 (emit (aborts udp_loop)) _ same same
            (Stops-emit 7 (aborts udp_loop) (omega arith))
            (λ _.
              Stops->>= {B = ℕ} 7 7 7 (emit (aborts detector)) _ same same
                (Stops-emit 7 (aborts detector) (omega arith))
                (λ _.
                  Stops->>= {B = ℕ} 7 7 7 (emit (aborts sync_loop)) _ same same
                    (Stops-emit 7 (aborts sync_loop) (omega arith))
                    (λ _.
                      Stops->>= {B = ℕ} 7 7 7 (abort_each proxy cfg.proxy) _ same same
                        (Stops-abort_each proxy cfg.proxy)
                        (λ _.
                          Stops->>= {B = ℕ} 7 7 7 (abort_each api cfg.api) _ same same
                            (Stops-abort_each api cfg.api)
                            (λ _.
                              Stops->>= {B = ℕ} 7 7 7 (abort_each health_check cfg.backend_port) _
                                same same (Stops-abort_each health_check cfg.backend_port)
                                (λ _.
                                  let told = (shut_down w.sends (w.until_signal s)).1 in
                                  Stops->>= {B = ℕ} 7 7 7 (emit (announces told)) _ same same
                                    (Stops-emit 7 (announces told) (omega arith))
                                    (λ _. (tt, tt))))))))))

OnError-of :
    {A : Type 0} (P : ExecuteError → Type 0) (r : Result ExecuteError A) (e : ExecuteError)
    → OnError r P
    → r ≡ err e
    → P e
OnError-of P r e o p = subst (λ r. OnError r P) p o

-- If `execute` ends with an error, then it has done nothing past the phase at which that error can
-- occur: nothing at all if a check refused, nothing but binding and opening if a socket could not
-- be had, nothing after the join if the join failed, and if an address could not be read or the
-- signal not be waited for, it has not left, aborted or announced anything.
pub execute_fails :
    (h : Hmac) (c : Codec TcpBody) (w : World) (cfg : Config) (e : ExecuteError)
    → (execute h c w cfg).1 ≡ err e
    → All (λ x. phase x < limit e) (execute h c w cfg).0
unfolding execute
execute_fails h c w cfg e p =
    let stops : Stops 0 7 (execute h c w cfg) =
      Stops->>= {B = ℕ} 0 1 7 (prepare w cfg) _ (omega arith) (omega arith) (Stops-prepare w cfg)
        (λ got.
          let node = new w.id (unwrap_or cfg.advertise got.1) got.0 cfg.tags in
          Stops->>= {B = ℕ} 1 3 7 (enter h c w cfg node) _ (omega arith) (omega arith)
            (Stops-from 1 3 3 _ (omega arith) (Stops-enter h c w cfg node))
            (λ s.
              Stops->>= {B = ℕ} 3 4 7 (work w cfg) _ (omega arith) (omega arith)
                (Stops-from 3 4 4 _ (omega arith) (Stops-work w cfg))
                (λ _. Stops-from 4 7 7 _ (omega arith) (Stops-finish w cfg s)))) in
    (OnError-of (λ e. (0 ≤ limit e) × Below (limit e) (execute h c w cfg).0) (execute h c w cfg).1 e
      stops.1 p).1
