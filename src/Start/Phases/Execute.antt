-- ===== src/Start/Phases/Execute.antt =====
-- The order in which `execute` acts, stage by stage.
use dalila.Base.{ℕ, ◌≤◌, arith, List, [], ◌∷◌, IsSorted, Bool-cases, inl, inr}
use dalila.Member.{SocketAddr}
use dalila.Wire.{TcpBody}
use dalila.Node.{LocalNode, new}
use dalila.Gossip.{Agent}
use dalila.Auth.{Hmac}
use dalila.Codec.{Codec}
use dalila.Connection.{join}
use dalila.Start.{Config, unwrap_or, new_agent, shut_down}
use dalila.Start.Program.{
  accept_loop, udp_loop, health_check, proxy, api, detector, sync_loop, starts, leaves, aborts,
  announces, World, emit, proxy_addr, api_addr, prepare, start_each, start_side, abort_each,
  join_through_seeds, enter, wait, work, finish, execute,
}
use dalila.Start.Phases.{
  in_order, Spans, Spans->>=, Spans-weaken, Spans-emit, Spans-act, Spans-then, Spans-prepare,
  Spans-start_each, Spans-accepted, Spans-start_side, Spans-abort_each,
}

module _ (h : Hmac) (c : Codec TcpBody) where
  Spans-join :
      (w : World) (s : Agent) (seeds : List SocketAddr)
      → Spans 1 2 (join_through_seeds h c w s seeds).0
  Spans-join w s [] = (tt, tt)
  Spans-join w s (seed ∷ seeds) =
      Spans-accepted (seed ∷ seeds) (join h c s.node.key w.network w.clock s (seed ∷ seeds))

  Spans-enter : (w : World) (cfg : Config) (n : LocalNode) → Spans 1 2 (enter h c w cfg n).0
  unfolding enter
  Spans-enter w cfg n =
      let up : 1 ≤ 2 = omega arith in
      Spans-then {B = Agent} 1 2 (emit (starts accept_loop)) _ up (Spans-act (starts accept_loop))
        (λ _.
          Spans-then {B = Agent} 1 2 (emit (starts udp_loop)) _ up (Spans-act (starts udp_loop))
            (λ _.
              Spans-then {B = Agent} 1 2 (start_each health_check cfg.backend_port) _ up
                (Spans-start_each health_check cfg.backend_port)
                (λ _. Spans-join w (new_agent n) cfg.seeds)))

Spans-signal : (w : World) → Spans 3 3 (wait w).0
Spans-signal w = elim (Bool-cases w.signal) [ inl e ↦ rw e (tt, tt) | inr e ↦ rw e (tt, tt) ]

Spans-work : (w : World) (cfg : Config) → Spans 3 3 (work w cfg).0
unfolding work
Spans-work w cfg =
    let same : 3 ≤ 3 = omega arith in
    Spans-then 3 3 (start_side w proxy (proxy_addr cfg)) _ same
      (Spans-start_side w proxy (proxy_addr cfg))
      (λ _.
        Spans-then 3 3 (start_side w api (api_addr cfg)) _ same
          (Spans-start_side w api (api_addr cfg))
          (λ _. Spans-then 3 3 (emit (starts detector)) _ same (Spans-act (starts detector)) (λ _.
            Spans-then 3 3 (emit (starts sync_loop)) _ same (Spans-act (starts sync_loop))
              (λ _. Spans-signal w))))

Spans-finish : (w : World) (cfg : Config) (s : Agent) → Spans 4 6 (finish w cfg s).0
unfolding finish
Spans-finish w cfg s =
    let told = (shut_down w.sends (w.until_signal s)).1 in
    let up : 5 ≤ 6 = omega arith in
    Spans->>= {B = ℕ} 4 5 6 (emit leaves) _ (omega arith) up
      (Spans-emit 4 5 leaves (omega arith) (omega arith))
      (λ _.
        Spans-then {B = ℕ} 5 6 (emit (aborts accept_loop)) _ up (Spans-act (aborts accept_loop))
          (λ _.
            Spans-then {B = ℕ} 5 6 (emit (aborts udp_loop)) _ up (Spans-act (aborts udp_loop)) (λ _.
              Spans-then {B = ℕ} 5 6 (emit (aborts detector)) _ up (Spans-act (aborts detector))
                (λ _.
                  Spans-then {B = ℕ} 5 6 (emit (aborts sync_loop)) _ up
                    (Spans-act (aborts sync_loop))
                    (λ _.
                      Spans-then {B = ℕ} 5 6 (abort_each proxy cfg.proxy) _ up
                        (Spans-abort_each proxy cfg.proxy)
                        (λ _.
                          Spans-then {B = ℕ} 5 6 (abort_each api cfg.api) _ up
                            (Spans-abort_each api cfg.api)
                            (λ _.
                              Spans-then {B = ℕ} 5 6 (abort_each health_check cfg.backend_port) _ up
                                (Spans-abort_each health_check cfg.backend_port)
                                (λ _.
                                  Spans->>= {B = ℕ} 5 6 6 (emit (announces told)) _ up (omega arith)
                                    (Spans-emit 5 6 (announces told) (omega arith) (omega arith))
                                    (λ _. (tt, tt))))))))))

-- Whatever the system answers, `execute` acts in order: it binds and opens, then starts the loops
-- that peers need and the health check, then joins, then starts the proxy, the API, the detector
-- and the sync loop, then leaves, then aborts, then announces.
pub execute-IsSorted :
    (h : Hmac) (c : Codec TcpBody) (w : World) (cfg : Config)
    → IsSorted in_order (execute h c w cfg).0
unfolding execute
execute-IsSorted h c w cfg =
    let up : 0 ≤ 1 = omega arith in
    let spans : Spans 0 6 (execute h c w cfg).0 =
      Spans->>= {B = ℕ} 0 0 6 (prepare w cfg) _ (omega arith) (omega arith) (Spans-prepare w cfg)
        (λ got.
          let node = new w.id (unwrap_or cfg.advertise got.1) got.0 cfg.tags in
          Spans->>= {B = ℕ} 0 2 6 (enter h c w cfg node) _ (omega arith) (omega arith)
            (Spans-weaken 1 2 0 2 _ (omega arith) (omega arith) (Spans-enter h c w cfg node))
            (λ s.
              Spans->>= {B = ℕ} 2 3 6 (work w cfg) _ (omega arith) (omega arith)
                (Spans-weaken 3 3 2 3 _ (omega arith) (omega arith) (Spans-work w cfg))
                (λ _.
                  Spans-weaken 4 6 3 6 _ (omega arith) (omega arith) (Spans-finish w cfg s)))) in
    spans.0
