-- ===== src/Conn/Tests.antt =====
-- libp.c: runs on concrete nodes. The radio neighbours are the two of the tests of the table, at the
-- addresses 5 and 6.
mod Received
mod Steady
mod Sink
mod Lasting
mod Margin
use libp.Base.{
  ℕ, ◌+◌, ◌*◌, ◌<◌, ◌≤◌, ◌≡◌, ◌≢◌, ◌⊎◌, refl, true, false, ◌==◌, Option, none, some, List, [], ◌∷◌,
  replicate, length, arith, inl, inr, u32, Bool-cases,
}
use libp.Contiki.Plain.{plain, plain-ListLaws, plain-MembLaws}
use libp.Rime.{epacket_id, packet_id, packet_type, hops, ttl}
use libp.Rime.Plain.{
  Packet, no_packet, plain_rime, plain-BufLaws, plain-QueueLaws, plain-ConfigLaws,
}
use libp.Metric
use libp.Neighbour
use libp.Neighbour.Tests.{young, two_of_age-IsValid}
use libp.Conn.{
  Node, Stats, unicast_send, count, announcement_bump, announcement_set_value, ctimer_stop,
  retransmission, retransmit,
}
use libp.Conn.Send.{ack_packet, send_queued_packet, send_packet}
use libp.Conn.Overwrite.{IsQueued, learn-IsQueued}
use libp.Conn.Route.{update_parent, update_rtmetric, rtmetric_compute}
use libp.Conn.Timers.{retransmit_callback}
use libp.Conn.Receive.{
  add_packet_to_recent_packets, is_recent, is_duplicate, one_hop_on, congestion_flag, learn,
  receive_data, node_packet_received,
}
use libp.Conn.Beacon.{set_beacon_timer, set_beacon_period, send_beacon, broadcast_recv}
use libp.Conn.Fault.{Unless}
use libp.Conn.Api.{open_conn, send, set_sink, next_eseqno, get_metric, parent, depth}
use libp.Conn.Choose.{Route, NoRoute, IsSane, update_rtmetric-Route, update_parent_hysteresis}
use libp.Conn.Recent.{add_packets, is_recent-add_packets}
use libp.Conn.Inv.{Good}
use libp.Conn.Run.{
  Event, announced, fires, sets_sink, beacon_heard, sets_beacon_period, any_divides, step, run,
  IsBooted, run-open_conn-Good,
}
use libp.Conn.Sequence.{retransmit_callback_lem, send_lem}
use libp.Conn.Delivery.{
  receive_data-duplicate, receive_data-unrouted, acks-received, one_hop_on_lem,
}
use libp.Conn.Roles.{set_sink_off-beacons}

abbrev pub no_stats : Stats
no_stats = record {
  foundroute = 0;
  newparent = 0;
  routelost = 0;
  acksent = 0;
  datasent = 0;
  datarecv = 0;
  ackrecv = 0;
  badack = 0;
  duprecv = 0;
  qdrop = 0;
  rtdrop = 0;
  ttldrop = 0;
  ackdrop = 0;
  timedout = 0;
}

-- A packet with data from the neighbour at `from`, which originated it as number 3.
abbrev pub packet_from : ℕ → Packet
packet_from from = record no_packet {
  size = 10;
  addrs = λ k. from;
  attrs = λ k. elim k [ ttl ↦ 7 | hops ↦ 2 | epacket_id ↦ 3 | packet_id ↦ 10 | _ ↦ 0 ];
}

-- A node whose parent is the worse neighbour, with a packet of its own in the queue.
abbrev pub routed : Node
routed = record {
  neighbour_list = young;
  send_queue = packet_from 9 ∷ [];
  parent = 5;
  current_parent = 5;
  rtmetric = 56;
  seqno = 10;
  eseqno = 255;
  sending = 1;
  transmissions = 4;
  max_rexmits = 31;
  is_router = 1;
  is_sink = 0;
  beacon_period = 0;
  send_time = 0;
  has_recv = true;
  recent_packets = replicate 16 none;
  recent_packet_ptr = 0;
  stats = no_stats;
  packetbuf = packet_from 6;
  clock_time = 100;
  calls = 0;
  effects = [];
}

get_test : (get_metric routed ≡ 3) × (parent routed ≡ 5) × (depth routed ≡ 56)
unfolding get_metric parent depth Neighbour.find Neighbour.find_in
get_test = (refl, refl, refl)

young-IsSane : IsSane young
unfolding Neighbour.find Neighbour.find_in
young-IsSane = record {
  valid = two_of_age-IsValid 3;
  small =
      λ q. elim (Bool-cases (q == 0)) [ inl e ↦ rw e (omega arith) | inr e ↦ rw e (omega arith) ];
  none_null = refl;
}

update_rtmetric-Route_example : Route young (update_rtmetric routed)
update_rtmetric-Route_example = update_rtmetric-Route routed young-IsSane (omega arith)

parent_found : Neighbour.find young 5 ≡ some 0
unfolding Neighbour.find Neighbour.find_in
parent_found = refl

parent_moves : (update_parent routed).parent ≢ 5
unfolding update_parent Neighbour.best Neighbour.best_in Neighbour.find Neighbour.find_in
    Neighbour.cost Metric.metric
parent_moves = omega arith

update_parent_hysteresis_example :
    (((update_parent routed).parent ≡ 0) × NoRoute young)
    ⊎ ((b : ℕ) × (Neighbour.find young (update_parent routed).parent ≡ some b)
        × (Neighbour.cost (young.mem b) + 12 < Neighbour.cost (young.mem 0)))
update_parent_hysteresis_example =
    update_parent_hysteresis routed 0 (two_of_age-IsValid 3) parent_found parent_moves

abbrev ap_period : Option Node → Option ℕ
ap_period none = none
ap_period (some c) = some c.beacon_period

-- The node before `libp_open`.
abbrev pub loaded : Node
loaded = record routed { transmissions = 0; max_rexmits = 0 }

pub loaded-IsBooted : IsBooted loaded
loaded-IsBooted = record {
  metrics = (two_of_age-IsValid 3).metrics;
  places = refl;
  index = refl;
  transmissions = refl;
  max_rexmits = refl;
}

-- It hears a neighbour, retransmits, and becomes a sink.
abbrev busy : List Event
busy = announced 7 16 ∷ fires retransmit ∷ sets_sink 1 ∷ []

busy_lem : any_divides busy ≡ false
unfolding any_divides
busy_lem = refl

-- `libp_set_beacon_period` with 1 divides by zero; with 0 it stops the timer, and 2 can be halved.
period_test :
    (set_beacon_period routed 1 ≡ none)
    × (ap_period (set_beacon_period routed 0) ≡ some 0)
    × (ap_period (set_beacon_period routed 2) ≡ some 2)
unfolding set_beacon_period set_beacon_timer
period_test = (refl, refl, refl)

fault_test : run (open_conn loaded 130 1 true) (beacon_heard ∷ sets_beacon_period 1 ∷ []) ≡ none
unfolding run step open_conn broadcast_recv set_beacon_period set_beacon_timer
fault_test = refl

run-open_conn-Good_example :
    Unless (any_divides busy) (run (open_conn loaded 130 1 true) busy) (λ c'. Good c')
run-open_conn-Good_example =
    run-open_conn-Good plain-ListLaws plain-MembLaws loaded 130 1 true busy loaded-IsBooted

is_recent-add_packets_example :
    is_recent
      (add_packets
        (add_packet_to_recent_packets routed)
        (packet_from 7 ∷ packet_from 8 ∷ [])).recent_packets
      6
      3
    ≡ true
is_recent-add_packets_example =
    is_recent-add_packets routed (packet_from 7 ∷ packet_from 8 ∷ [])
      (record { places = refl; index = omega arith }) (omega arith) (omega arith)

retransmit_callback_lem_example :
    ((31 ≤ 4)
      × (length (retransmit_callback routed).send_queue ≡ 0)
      × ((retransmit_callback routed).seqno ≡ 11))
    ⊎ ((4 < 31)
        × ((retransmit_callback routed).send_queue ≡ routed.send_queue)
        × ((retransmit_callback routed).seqno ≡ 10))
retransmit_callback_lem_example = retransmit_callback_lem plain-QueueLaws routed

send_lem_example :
    ((send routed 15).1.eseqno ≡ 128)
    × (((routed.rtmetric ≡ 0)
          × ((send routed 15).0 ≡ 1)
          × ((send routed 15).1.send_queue ≡ routed.send_queue))
        ⊎ ((routed.rtmetric ≢ 0)
            × ((((send routed 15).0 ≡ 1) × (length (send routed 15).1.send_queue ≡ 2))
                ⊎ (((send routed 15).0 ≡ 0) × (length (send routed 15).1.send_queue ≡ 1)))))
send_lem_example = send_lem plain-QueueLaws routed 15

abbrev sink : Node
sink = record routed { is_sink = 1; rtmetric = 0 }

set_sink_off-beacons_example :
    (broadcast_recv (set_sink sink 0) ≡ some (set_sink sink 0))
    × ((d : Node) × (send_beacon (set_sink sink 0) ≡ some d) × (d.beacon_period ≡ 30 * 128))
set_sink_off-beacons_example = set_sink_off-beacons plain-QueueLaws sink refl
