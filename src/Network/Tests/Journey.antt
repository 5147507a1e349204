-- ===== src/Network/Tests/Journey.antt =====
-- libp.c: a packet from the node at 9 goes by the node at 5 to the sink at 6.
use libp.Base.{ℕ, ◌%◌, ◌^◌, ◌≡◌, refl, none, some, [], ◌∷◌, if◌then◌else◌, arith}
use libp.Contiki.Plain.{plain}
use libp.Rime.{sender, addr_eq}
use libp.Rime.Plain.{
  Packet, plain_rime, plain-BufLaws, plain-LengthLaws, plain-QueueLaws, plain-FifoLaws,
  plain-DataLaws, plain-ConfigLaws,
}
use libp.Neighbour
use libp.Conn.{Node}
use libp.Conn.Tests.{routed}
use libp.Conn.Send.{send_ack, send_packet, send_queued_packet}
use libp.Conn.Receive.{
  is_recent, add_packet_to_recent_packets, forward, receive_new, receive_data, node_packet_received,
}
use libp.Conn.Api.{send}
use libp.Network.Tests.{near_sink}
use libp.Network.Message.{AirLaws, attribute_bits}
use libp.Network.Idle.{last_sent}
use libp.Network.Relay.{Relays}
use libp.Network.Flight.{Stop, Flight, Way, here, on, flies, lands, leaves}
use libp.Network.Arrival.{Brings}
use libp.Network.Journey.{Starts, Awaits, send-arrives}

-- What arrives has the attributes cut to their bits, and the sender's address.
abbrev air : Packet → ℕ → Packet
air b from = record b {
  attrs = λ k. elim (attribute_bits k) [ none ↦ 0 | some w ↦ b.attrs k % 2 ^ w ];
  addrs = λ k. if addr_eq sender k then from else b.addrs k;
}

air-AirLaws : AirLaws air
air-AirLaws = record {
  attr-air = λ b from k w e. rw (air, e) refl;
  esender-air = λ b from. refl;
  datalen-air = λ b from. refl;
  totlen-air = λ b from. refl;
}

abbrev origin : Node
origin = record routed { sending = 0; send_queue = []; eseqno = 20 }

abbrev relay : Stop
relay = record {
  address = 5;
  node = record routed {
    neighbour_list = near_sink;
    parent = 6;
    rtmetric = 16;
    sending = 0;
    send_queue = [];
  };
}

abbrev gateway : Stop
gateway = record { address = 6; node = record routed { rtmetric = 0; parent = 0; is_sink = 1 } }

origin-Starts : Starts origin 15 5
unfolding Neighbour.find Neighbour.find_in
origin-Starts = record {
  idle = record { sending = refl; empty = refl };
  parent = (0, refl, refl);
  no_sink = omega arith;
  number = omega arith;
  kind = refl;
  size = omega arith;
  taken = refl;
}

abbrev first_flight : Flight
first_flight = flies 9 origin.packetbuf (send origin 15).1

-- The packet is on its way to the first stop.
first_flight_lem : (first_flight.to ≡ 5) × (first_flight.from ≡ 9)
unfolding send send_queued_packet send_packet last_sent Neighbour.find Neighbour.find_in
first_flight_lem = (refl, refl)

relay-Relays : Relays relay.node (air first_flight.packet first_flight.from) 6
unfolding send send_queued_packet send_packet last_sent Neighbour.find Neighbour.find_in is_recent
    attribute_bits
relay-Relays = record {
  idle = record { sending = refl; empty = refl };
  new = refl;
  no_sink = omega arith;
  has_route = omega arith;
  parent = (0, refl, refl);
  taken = refl;
}

abbrev last_flight : Flight
last_flight = leaves air relay first_flight

gateway-Awaits : Awaits gateway last_flight 9 20
unfolding send send_queued_packet send_packet last_sent Neighbour.find Neighbour.find_in is_recent
    attribute_bits node_packet_received receive_data receive_new forward send_ack
    add_packet_to_recent_packets
gateway-Awaits = record { there = refl; sink = refl; has_recv = refl; new = refl }

by_relay : Way air first_flight (relay ∷ []) last_flight
unfolding send send_queued_packet send_packet last_sent Neighbour.find
by_relay = on first_flight last_flight relay [] 6 refl relay-Relays (here last_flight)

send-arrives_example :
    ((send origin 15).0 ≡ 1) × Brings gateway.node 9 20 2 (lands air gateway last_flight)
send-arrives_example =
    send-arrives plain-BufLaws plain-LengthLaws plain-QueueLaws plain-FifoLaws plain-DataLaws
      plain-ConfigLaws air air-AirLaws origin 15 9 5 (relay ∷ []) gateway last_flight (omega arith)
      (omega arith) origin-Starts by_relay (omega arith) gateway-Awaits
