-- ===== src/Health.antt =====
-- src/health.rs: one round of the check that a node makes of its own app.
pub mod Readiness
use dalila.Base.{◌+◌, Bool, true, false, if◌then◌else◌}
use dalila.Node.{LocalNode, set_ready, alive_rumor}
use dalila.Table.{len}
use dalila.Gossip.{Agent, push}

abbrev pub told : Agent → LocalNode × Bool → Agent
told s (n, false) = record s { node = n }
told s (n, true) = record s { node = n; queue = push s.queue (alive_rumor n) (len s.table + 1) }

-- `answers` is whether the app took the connection.
unfoldable pub health_round : Agent → Bool → Agent
health_round s answers = told s (set_ready s.node answers)
