-- ===== src/Examples/Repairs.antt =====
-- A turn of the sync loop, of a node that has heard of two others, one of which has heard of the other.
use dalila.Base.{
  ◌≡◌, refl, sym, ap, false, List, [], ◌∷◌, ◌++◌, Option, none, some, ok, lookup, ◌<◌, ◌^◌, ◌≢◌,
  subst, insert, arith, Elem, inl, inr, ◌*◌, ◌+◌, ℕ,
}
use dalila.Member.{NodeId, Member, u32_max, is_unspecified, is_dead}
use dalila.Wire.{WireMember, protocol_version}
use dalila.Node.{new, alive_rumor}
use dalila.Table.{merge}
use dalila.Table.Order.{belief}
use dalila.Gossip.{apply}
use dalila.Auth.{seal}
use dalila.Codec.{encode_payload}
use dalila.Frame.{received, to_be, write_frame}
use dalila.Join.{handle_request, sync_opening}
use dalila.Connection.{sync_round}
use dalila.Connection.Exchange.{serve_once}
use dalila.Cluster.{Cluster, set_agent, own_record, speaks, hears, Run, next}
use dalila.Cluster.Wire.{Link, served, sync_round_agrees}
use dalila.Examples.{host}
use dalila.Examples.Bytes.{short_codec, some_inj}
use dalila.Examples.Wires.{sync_net, response, reply_made}
use dalila.Examples.Messages.{zeros, plain_mac}
use dalila.Examples.Connections.{all_written}
use dalila.Examples.Clusters.{met, second, start-IsStart, start-met, start}

abbrev third_hello : WireMember
third_hello = alive_rumor (new 3 (host 3) [] [])

abbrev third_spoke : Cluster
third_spoke = record (met) { air = third_hello ∷ met.air }

abbrev acquainted : Cluster
acquainted = set_agent third_spoke 1 (apply 7 (met.agent 1) third_hello).0

start-acquainted : Run start acquainted
unfolding apply merge lookup is_unspecified insert
start-acquainted =
    next (next start-met (speaks 3 third_hello (own_record refl)))
      (hears 1 7 third_hello (inl refl))

-- `rand` picks the last.
abbrev last : List Member → Option Member
last [] = none
last (m ∷ []) = some m
last (m ∷ x ∷ ms) = last (x ∷ ms)

last-Elem : (ms : List Member) (m : Member) → last ms ≡ some m → Elem m ms
last-Elem [] m e = absurd (cc)
last-Elem (x ∷ []) m e = inl (cc)
last-Elem (x ∷ y ∷ ms) m e = inr (last-Elem (y ∷ ms) m e)

last_empty : (ms : List Member) → last ms ≡ none → ms ≡ []
last_empty [] e = refl
last_empty (x ∷ []) e = absurd (cc)
last_empty (x ∷ y ∷ ms) e = let none_left = last_empty (y ∷ ms) e in absurd (cc)

abbrev request : List ℕ
request =
    to_be 45
    ++ protocol_version
      ∷ 1
      ∷ (10 * 2 ^ 24 + 1)
      ∷ 7946
      ∷ 0
      ∷ 2
      ∷ (10 * 2 ^ 24 + 2)
      ∷ 7946
      ∷ 0
      ∷ 3
      ∷ (10 * 2 ^ 24 + 3)
      ∷ 7946
      ∷ 0
      ∷ zeros 32

opening_made : write_frame plain_mac short_codec [] (sync_opening (acquainted.agent 1)) ≡ ok request
unfolding write_frame encode_payload seal apply merge lookup is_unspecified insert
opening_made = refl

abbrev link :
    Link plain_mac short_codec [] all_written
      (λ i. i)
      sync_net
      (acquainted.agent 1)
      (acquainted.agent 3)
      (host 3)
unfolding handle_request
link = record {
  asks = record { bytes = request; made = opening_made; small = omega arith };
  answers = record { bytes = response; made = reply_made; small = omega arith };
  carried = record {
    connected = refl;
    to_server = received request ∷ [];
    all_sent = tt;
    sent_bytes = refl;
    to_client = received response ∷ [];
    returned = refl;
    all_returned = tt;
    reply_bytes = sym (
        ap (λ v. v.written)
          (serve_once plain_mac short_codec [] all_written (λ i. i) (acquainted.agent 3) _
            (sync_opening (acquainted.agent 1)) _ request response (received request ∷ [])
            opening_made (omega arith) refl reply_made tt refl (λ bytes. refl)));
  };
}

-- The first node syncs with the third, and both hold the second.
sync_round_agrees_example :
    let s = acquainted.agent 1 in
    let a = sync_round plain_mac short_codec [] last sync_net 9 s in
    (partner : Member) × (link : Link plain_mac short_codec [] all_written
      (λ i. i)
      sync_net
      s
      (acquainted.agent partner.id)
      partner.addr)
    × (lookup partner.id s.table ≡ some partner)
    × (is_dead partner.state ≡ false)
    × ((j : NodeId) (m m' : Member)
        → 1 ≢ j
        → partner.id ≢ j
        → lookup j s.table ≡ some m
        → lookup j (acquainted.agent partner.id).table ≡ some m'
        → m.incarnation < u32_max
        → belief a.table j
          ≡ belief (served plain_mac short_codec [] all_written (λ i. i) link).table j)
unfolding apply merge lookup is_unspecified insert
sync_round_agrees_example =
    sync_round_agrees plain_mac short_codec [] all_written (λ i. i) last sync_net 9 1 2 second
      start-IsStart start-acquainted last-Elem last_empty refl refl
      (λ partner e.
        subst
          (λ m.
            Link plain_mac short_codec [] all_written (λ i. i) sync_net (acquainted.agent 1)
              (acquainted.agent m.id) m.addr)
          (some_inj e) link)
      (λ bytes. refl)
