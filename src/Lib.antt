-- ===== src/Lib.antt =====
-- A cluster agent: each node runs one, and together they agree on who is a member (gossip and
-- probing in the style of SWIM), while a proxy in each sends clients to the members that can work.
-- Paths are from the repository's root; `src/membership/src` is shortened to `membership`.
--
-- Parts and files:
-- - Base: numbers, lists, a hash map as an association list, a stable sort, and results. A function
--   keeps the name that Rust gives it (`insert`, `take`, `filter`).
-- - Member, Wire: `membership/node.rs` (`Member`, `MemberState`) and `membership/wire.rs`.
-- - Node: `LocalNode` of `membership/node.rs`. Node.Steps is the relation of all interleavings of its
--   methods; Node.Defence is how a node clears itself.
-- - Table: `MemberTable` of `membership/state.rs`. `merge` is the only way in; every method takes the
--   lock once, so it is a function from table to table. Table.Abstract relates tables that differ in the
--   order of their entries; Table.Convergence and Table.Hearing are about the order of rumors.
-- - Gossip: `membership/dissemination.rs`: the queue of rumors, and `apply`, which merges a rumor and
--   queues what it changed. `Agent` is node, table and queue, which all tasks share.
-- - Detector: `membership/detector.rs`: the order of probes, suspicion, and forgetting the dead.
-- - Auth, Codec, Frame: `membership/auth.rs`, and the framing of `membership/join.rs` and `udp.rs`.
-- - Acks: `PendingAcks` of `membership/udp.rs`, with the calls of all tasks as a list.
-- - Udp: the messages, handlers and probes of `membership/udp.rs`, and `probe` of `detector.rs`;
--   Udp.Receiving is the receive loop, from the bytes of a datagram to the tasks that it starts.
-- - Join: what the handlers of `membership/join.rs` and `membership/sync.rs` do with requests and
--   responses.
-- - Connection: the same two files from socket to socket: the task that serves a connection, the side
--   that asks, the loop over the seeds of a join, and a turn of the sync loop.
-- - Health: one round of `src/health.rs`.
-- - Proxy: the choice of a backend in `src/proxy.rs`, client after client.
-- - Api: the handler of `src/api.rs`.
-- - Start: `src/commands/start.rs`: the checks and the end, and in Start.Program `execute`
--   as a whole, as a computation that records its acts and stops at the first failure.
-- - Command: `src/cli.rs`, `src/commands.rs` and `src/commands/members.rs`.
-- - Cluster: many nodes, as a step relation on the agents of all and on the rumors that are on their
--   way. Cluster.Consistency is its invariant; Cluster.Handlers, Requests, Loops, Probes and Periods
--   relate to it what the handlers and the loops of a node do; Cluster.Wire is about a sync from the
--   bytes to the tables, Cluster.Defence about a node that is doubted, Cluster.News about nodes that
--   hear the same.
-- - Examples: concrete states on which the theorems are applied.
--
-- How they interact: a datagram (Udp.handle_datagram) or a request over TCP (Join.handle_request)
-- hands its news to Gossip.apply, which calls Table.merge, then Gossip.push or, for a doubt about
-- this node, Node.refute. Every ping, relay request and ack takes its gossip with Gossip.take. A
-- failed probe enters by the same `apply` (Detector.mark), and Detector.Loop puts a period together.
-- The proxy and the API read Table.ready. A connection is the frames of Frame around Join's handlers.
--
-- Numbers: `u32` counters wrap or saturate as in the source (`superseding`, `sent_once`, `next_seq`);
-- a `Uuid` is its number; an `Instant` is a number of milliseconds, and `elapsed` the difference. The
-- loops on fuel are `log2_from` and `zeros_from`, with 32 rounds for the 32 bits of a `u32`, and
-- `serve`, which takes a round for each frame: one more than the stream has bytes is enough. The loops
-- of `next_target`, `read_frame`, `try_seeds`, `udp_loop` and `periods` are recursion on a list.
--
-- Parameters: HMAC-SHA256 and postcard are interfaces (Auth.Hmac, Codec.Codec) whose laws state what
-- the crates document; `rand`'s shuffle and choice are functions, with the hypothesis that a shuffle
-- permutes; `Udp.Surroundings` says whether a send succeeds, and what other tasks do meanwhile;
-- `Connection.Network` says which connects succeed and what bytes come back; `Command.Required` is what
-- clap promises of the options that it lets through; `Start.Program.World` is what the system answers
-- to `execute`, and `Command.Printing.Display` how an id or an address is written. While a connection
-- or a join runs, no other task changes the agent in its model; Cluster has every interleaving of
-- whole messages.
--
-- Not modelled: the accept loops and timers, which only repeat what is modelled; the copying of bytes
-- by the proxy; and log lines.
pub mod Base
pub mod Member
pub mod Wire
pub mod Node
pub mod Table
pub mod Gossip
pub mod Detector
pub mod Auth
pub mod Codec
pub mod Frame
pub mod Acks
pub mod Udp
pub mod Join
pub mod Health
pub mod Proxy
pub mod Connection
pub mod Start
pub mod Api
pub mod Command
pub mod Cluster
pub mod Examples
