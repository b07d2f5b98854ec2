-- ===== src/Examples/Wires.antt =====
-- A sync over a connection, between the first and the third node of the cluster in `Clusters`.
use dalila.Base.{
  ℕ, ◌+◌, ◌*◌, ◌^◌, ◌≡◌, refl, sym, ap, true, List, [], ◌∷◌, ◌++◌, some, arith, ok, lookup, insert,
  length,
}
use dalila.Member.{Member, is_unspecified}
use dalila.Wire.{protocol_version, sync_response}
use dalila.Node.{identity}
use dalila.Table.{merge}
use dalila.Table.Order.{belief}
use dalila.Gossip.{Agent, apply}
use dalila.Auth.{seal}
use dalila.Codec.{encode_payload}
use dalila.Frame.{received, to_be, write_frame}
use dalila.Join.{records, handle_request, sync_opening}
use dalila.Connection.{Network, serve, sync_with}
use dalila.Connection.Exchange.{Fits, Carried, serve_once}
use dalila.Cluster.Wire.{sync_over_wire}
use dalila.Examples.{host}
use dalila.Examples.Bytes.{short_codec}
use dalila.Examples.Messages.{zeros, plain_mac}
use dalila.Examples.Connections.{all_written}
use dalila.Examples.Clusters.{met, second, start-IsStart, start-met}

abbrev third : Member
third = record (second) { id = 3; addr = host 3 }

abbrev request : List ℕ
request =
    to_be 41
    ++ protocol_version
      ∷ 1
      ∷ (10 * 2 ^ 24 + 1)
      ∷ 7946
      ∷ 0
      ∷ 2
      ∷ (10 * 2 ^ 24 + 2)
      ∷ 7946
      ∷ 0
      ∷ zeros 32

abbrev pub response : List ℕ
response =
    to_be 42
    ++ protocol_version
      ∷ 0
      ∷ 3
      ∷ (10 * 2 ^ 24 + 3)
      ∷ 7946
      ∷ 0
      ∷ 2
      ∷ (10 * 2 ^ 24 + 2)
      ∷ 7946
      ∷ 0
      ∷ zeros 32

opening_made : write_frame plain_mac short_codec [] (sync_opening (met.agent 1)) ≡ ok request
unfolding write_frame encode_payload seal apply merge lookup is_unspecified insert
opening_made = refl

pub reply_made :
    write_frame plain_mac short_codec []
      (sync_response (identity (met.agent 3).node) (records (met.agent 3).table))
    ≡ ok response
unfolding write_frame encode_payload seal apply merge lookup is_unspecified insert
reply_made = refl

abbrev opening_fits :
    Fits plain_mac short_codec [] all_written (λ i. i) (sync_opening (met.agent 1))
opening_fits = record { bytes = request; made = opening_made; small = omega arith }

abbrev pub sync_net : Network
sync_net = record { connects = λ addr. true; returns = λ addr bytes. some (received response ∷ []) }

abbrev sync_link :
    Carried plain_mac short_codec [] all_written (λ i. i) sync_net (host 3) (met.agent 3) request
unfolding handle_request
sync_link = record {
  connected = refl;
  to_server = received request ∷ [];
  all_sent = tt;
  sent_bytes = refl;
  to_client = received response ∷ [];
  returned = refl;
  all_returned = tt;
  reply_bytes = sym (
      ap (λ v. v.written)
        (serve_once plain_mac short_codec [] all_written (λ i. i) (met.agent 3) _
          (sync_opening (met.agent 1)) _ request response (received request ∷ []) opening_made
          (omega arith) refl reply_made tt refl (λ bytes. refl)));
}

sync_over_wire_example :
    let served =
      serve plain_mac short_codec [] all_written
        (λ i. i)
        (length request + 1)
        0
        (met.agent 3)
        []
        (received request ∷ []) in
    (a : Agent) × (sync_with plain_mac short_codec [] sync_net 9 (met.agent 1) third ≡ ok a)
    × (belief a.table 2 ≡ belief served.agent.table 2)
unfolding apply merge lookup is_unspecified insert sync_link
sync_over_wire_example =
    sync_over_wire plain_mac short_codec [] all_written (λ i. i) sync_net 9 1 3 2 third second
      second start-IsStart start-met (omega arith) (omega arith) refl refl (omega arith)
      opening_fits (record { bytes = response; made = reply_made; small = omega arith }) sync_link
      (λ bytes. refl)
