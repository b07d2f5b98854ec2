-- ===== src/Examples/Connections.antt =====
-- The theorems on connections, on a node that knows nobody.
use dalila.Base.{
  ℕ, ◌+◌, ◌*◌, ◌^◌, ◌≡◌, ◌≢◌, refl, sym, ap, true, false, Bool, List, [], ◌∷◌, ◌++◌, none, some,
  arith, ok, length, length-append, map, Permᴰ, IsSorted,
}
use dalila.Wire.{protocol_version, WireMember, join_request, members_request, members_response}
use dalila.Node.{new, identity}
use dalila.Gossip.{Agent}
use dalila.Auth.{seal}
use dalila.Codec.{encode_payload}
use dalila.Frame.{Read, received, to_be, write_frame}
use dalila.Join.{handle_request}
use dalila.Connection.{Network, closed, out_of_fuel, serve, join}
use dalila.Connection.Serving.{Talk, silence, turn, serve_ends, serve-Talk}
use dalila.Connection.Strangers.{Sealed, Untouched, serve_stranger}
use dalila.Connection.Exchange.{Fits, Carried}
use dalila.Connection.Seeds.{Outcome, join-Outcome}
use dalila.Command.{MembersConfig, list_members, queried_row, member_row}
use dalila.Command.Listing.{by_addr, list_members_served}
use dalila.Examples.{host}
use dalila.Examples.Messages.{zeros, plain_mac}
use dalila.Examples.Bytes.{short_codec}

abbrev pub server : Agent
server = record { node = new 1 (host 1) [] []; table = []; queue = [] }

abbrev pub all_written : List ℕ → Bool
all_written bytes = true

abbrev asks : List ℕ
asks = to_be 33 ++ protocol_version ∷ zeros 32

abbrev answer : List ℕ
answer = to_be 39 ++ protocol_version ∷ 0 ∷ 0 ∷ 1 ∷ (10 * 2 ^ 24 + 1) ∷ 7946 ∷ 0 ∷ zeros 32

asks_made : write_frame plain_mac short_codec [] members_request ≡ ok asks
unfolding write_frame encode_payload seal
asks_made = refl

answer_made :
    write_frame plain_mac short_codec [] (members_response (identity (server.node)) []) ≡ ok answer
unfolding write_frame encode_payload seal
answer_made = refl

one_request : Talk plain_mac short_codec [] all_written (λ i. i) 0 server asks server answer
unfolding handle_request
one_request =
    turn members_request (members_response (identity (server.node)) []) server asks answer [] []
      asks_made (omega arith) refl answer_made refl refl (silence refl refl refl)

-- The request comes in two reads.
abbrev cut_asks : List Read
cut_asks = received (to_be 33) ∷ received (protocol_version ∷ zeros 32) ∷ []

serve-Talk_example :
    serve plain_mac short_codec [] all_written (λ i. i) 38 0 server [] cut_asks
    ≡ record { agent = server; written = answer; ending = closed }
serve-Talk_example =
    serve-Talk plain_mac short_codec [] all_written (λ i. i) 38 0 server asks [] cut_asks
      one_request tt refl (λ bytes. refl) (omega arith)

serve_ends_example :
    (serve plain_mac short_codec [] all_written (λ i. i) 38 0 server [] cut_asks).ending
    ≢ out_of_fuel
serve_ends_example =
    serve_ends plain_mac short_codec [] all_written (λ i. i) 38 0 server [] cut_asks (omega arith)

no_frame : ¬ Sealed plain_mac [] (1 ∷ 2 ∷ [])
no_frame (prefix, message, rest, n, e) =
    omega (arith, n, ap length e, length-append prefix (seal plain_mac [] message ++ rest))

serve_stranger_example :
    Untouched plain_mac short_codec [] all_written
      (λ i. i)
      server
      (serve plain_mac short_codec [] all_written
        (λ i. i)
        38
        0
        server
        []
        (received (1 ∷ 2 ∷ []) ∷ []))
serve_stranger_example =
    serve_stranger plain_mac short_codec [] all_written (λ i. i) 37 0 server
      (received (1 ∷ 2 ∷ []) ∷ []) no_frame

abbrev pub silent_net : Network
silent_net = record { connects = λ addr. false; returns = λ addr bytes. none }

join-Outcome_example :
    Outcome plain_mac short_codec [] silent_net 5 server
      (join_request (identity (server.node)))
      (host 2 ∷ host 3 ∷ [])
      (join plain_mac short_codec [] silent_net 5 server (host 2 ∷ host 3 ∷ []))
join-Outcome_example =
    join-Outcome plain_mac short_codec [] silent_net 5 server (host 2 ∷ host 3 ∷ [])

abbrev pub answering_net : Network
answering_net = record {
  connects = λ addr. true;
  returns = λ addr bytes. some (received answer ∷ []);
}

abbrev request_fits : Fits plain_mac short_codec [] all_written (λ i. i) members_request
request_fits = record { bytes = asks; made = asks_made; small = omega arith }

answering_net-Carried :
    Carried plain_mac short_codec [] all_written (λ i. i) answering_net (host 1) server asks
answering_net-Carried = record {
  connected = refl;
  to_server = cut_asks;
  all_sent = tt;
  sent_bytes = refl;
  to_client = received answer ∷ [];
  returned = refl;
  all_returned = tt;
  reply_bytes = sym (
      ap (λ v. v.written)
        (serve-Talk plain_mac short_codec [] all_written (λ i. i) 38 0 server asks [] cut_asks
          one_request tt refl (λ bytes. refl) (omega arith)));
}

abbrev pub listing : MembersConfig
listing = record { addr = host 1; key = none }

list_members_served_example :
    (found : List WireMember) × (list_members plain_mac short_codec answering_net listing
      ≡ ok (queried_row (identity (server.node)) ∷ map member_row found))
    × Permᴰ found []
    × IsSorted by_addr found
list_members_served_example =
    list_members_served plain_mac short_codec [] all_written (λ i. i) answering_net listing server
      refl request_fits (record { bytes = answer; made = answer_made; small = omega arith })
      answering_net-Carried (λ bytes. refl)
