-- ===== src/Cluster/Wire.antt =====
-- A sync in a cluster, over a connection: from the bytes that are written to the tables at both ends.
use dalila.Base.{
  ℕ, ◌+◌, ◌≡◌, ◌≢◌, ◌<◌, refl, sym, ap, ◌∙◌, Bool, true, List, [], some, none, Option, ok, lookup,
  length, Elem, false, inl, inr, Option-cases, arith,
}
use dalila.Member.{Instant, NodeId, Member, SocketAddr, u32_max, is_dead}
use dalila.Wire.{TcpBody, sync_response}
use dalila.Node.{ClusterKey, identity}
use dalila.Table.Order.{belief}
use dalila.Gossip.{Agent}
use dalila.Auth.{Hmac}
use dalila.Codec.{Codec}
use dalila.Join.{records, handle_request, handle_sync_reply, sync_opening}
use dalila.Connection.{Network, serve, sync_with, sync_round}
use dalila.Table.{random_member}
use dalila.Table.Queries.{random_member_lem}
use dalila.Cluster.Moves.{Run-AllAgents, start-AllAgents}
use dalila.Connection.Exchange.{Fits, Carried, serve_once, sync_with_served}
use dalila.Cluster.{Cluster, Run, IsStart}
use dalila.Cluster.Spread.{sync_everywhere}

module _ (h : Hmac) (codec : Codec TcpBody) (key : ClusterKey) (accepts : List ℕ → Bool)
    (clock : ℕ → Instant) where
  -- The network carries a sync from one agent to another, at this address, and the answer back.
  pub record Link (net : Network) (a b : Agent) (addr : SocketAddr) : Type 0 where
    pub asks : Fits h codec key accepts clock (sync_opening a)
    pub answers : Fits h codec key accepts clock (sync_response (identity b.node) (records b.table))
    pub carried : Carried h codec key accepts clock net addr b asks.bytes

  -- The agent at the far end, when the task that serves the connection is done with it.
  abbrev pub served : {net : Network} {a b : Agent} {addr : SocketAddr} → Link net a b addr → Agent
  served {b = b} link =
      let end =
        serve h codec key accepts clock (length link.asks.bytes + 1) 0 b []
          link.carried.to_server in
      end.agent

  -- Let nodes that have just started, and know nobody, say, hear, check, reap, pack and leave, in
  -- any order, any number of times. Let two of them both have an entry for a third member, that of
  -- the first being below the largest incarnation, and let the network carry the first one's sync
  -- request to the task that serves a connection to the second, which takes every write, and carry
  -- back what that task writes, both messages fitting into a frame. Then the sync succeeds, and
  -- what the first believes of the third member is what the agent that the task leaves believes.
  pub sync_over_wire :
      {c d : Cluster} (net : Network) (later : Instant) (i k j : NodeId) (partner m m' : Member)
      → IsStart c
      → Run c d
      → i ≢ j
      → k ≢ j
      → lookup j (d.agent i).table ≡ some m
      → lookup j (d.agent k).table ≡ some m'
      → m.incarnation < u32_max
      → (fits : Fits h codec key accepts clock (sync_opening (d.agent i)))
      → Fits h codec key accepts clock
          (sync_response (identity (d.agent k).node) (records (d.agent k).table))
      → (link : Carried h codec key accepts clock net partner.addr (d.agent k) fits.bytes)
      → ((bytes : List ℕ) → accepts bytes ≡ true)
      → let served =
          serve h codec key accepts clock (length fits.bytes + 1) 0 (d.agent k) [] link.to_server in
        (a : Agent) × (sync_with h codec key net later (d.agent i) partner ≡ ok a)
        × (belief a.table j ≡ belief served.agent.table j)
  unfolding handle_request
  sync_over_wire {d = d} net later i k j partner m m' v run third third' e e' small fits fits' link
        w =
      let a = d.agent i in
      let b = d.agent k in
      let once =
        serve_once h codec key accepts clock b _ (sync_opening a) _ fits.bytes fits'.bytes
          link.to_server fits.made fits.small refl fits'.made link.all_sent link.sent_bytes w in
      (
        handle_sync_reply later a (handle_request (clock 0) b (sync_opening a)).1,
        sync_with_served h codec key accepts clock net later a b partner fits fits' link w,
        sync_everywhere (clock 0) later i k j m m' v run third third' e e' small
            ∙ ap (λ x. belief x.agent.table j) (sym once),
      )

  sync_round-synced :
      (choose : List Member → Option Member) (net : Network) (now : Instant) (s : Agent)
      (partner : Member) (a : Agent)
      → random_member choose s.table ≡ some partner
      → sync_with h codec key net now s partner ≡ ok a
      → sync_round h codec key choose net now s ≡ a
  unfolding sync_round
  sync_round-synced choose net now s partner a chosen synced = rw (chosen, synced) refl

  -- Let nodes that have just started, and know nobody, say, hear, check, reap, pack and leave, in
  -- any order, any number of times. Let one of them hold a member that is not dead, let its choice
  -- of a partner take one of those it is given, and none only from an empty list, and let the
  -- network carry its sync to whichever node it picks, whose task takes every write, and the answer
  -- back, both messages fitting into a frame. Then a turn of its sync loop has a partner that its
  -- table holds and does not hold as dead; and of every third member that both held, the first
  -- one's entry being below the largest incarnation, it then believes what the agent that the
  -- partner's task leaves believes.
  pub sync_round_agrees :
      {c d : Cluster} (choose : List Member → Option Member) (net : Network) (now : Instant)
      (i x : NodeId) (known : Member)
      → IsStart c
      → Run c d
      → ((l : List Member) (m : Member) → choose l ≡ some m → Elem m l)
      → ((l : List Member) → choose l ≡ none → l ≡ [])
      → lookup x (d.agent i).table ≡ some known
      → is_dead known.state ≡ false
      → ((partner : Member)
          → random_member choose (d.agent i).table ≡ some partner
          → Link net (d.agent i) (d.agent partner.id) partner.addr)
      → ((bytes : List ℕ) → accepts bytes ≡ true)
      → let a = sync_round h codec key choose net now (d.agent i) in
        (partner : Member) × (link : Link net (d.agent i) (d.agent partner.id) partner.addr)
        × (lookup partner.id (d.agent i).table ≡ some partner)
        × (is_dead partner.state ≡ false)
        × ((j : NodeId) (m m' : Member)
            → i ≢ j
            → partner.id ≢ j
            → lookup j (d.agent i).table ≡ some m
            → lookup j (d.agent partner.id).table ≡ some m'
            → m.incarnation < u32_max
            → belief a.table j ≡ belief (served link).table j)
  sync_round_agrees {d = d} choose net now i x known v run picks empty e up links w =
      let s = d.agent i in
      let all = Run-AllAgents run (start-AllAgents _ v) in
      let (held, nobody) = random_member_lem choose s.table s.node.id picks empty (all i).table in
      elim (Option-cases (random_member choose s.table)) [
        | inl none_left ↦ absurd (ground (arith, nobody none_left x known e))
        | inr (partner, chosen) ↦
            let link = links partner chosen in
            (
              partner,
              link,
              (held partner chosen).0,
              (held partner chosen).1,
              λ j m m' third third' at at' small.
                  let (a, synced, agree) =
                    sync_over_wire net now i partner.id j partner m m' v run third third' at at'
                      small link.asks link.answers link.carried w in
                  ap (λ r. belief r.table j)
                    (sync_round-synced choose net now s partner a chosen synced)
                  ∙ agree,
            )
      ]
