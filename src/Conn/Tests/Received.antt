-- ===== src/Conn/Tests/Received.antt =====
-- libp.c: runs of the handlers of received packets on concrete nodes.
use libp.Base.{◌+◌, ◌≡◌, ◌≢◌, refl, false, some, arith, u32}
use libp.Contiki.Plain.{plain}
use libp.Rime.{packet_id, packet_type}
use libp.Rime.Plain.{plain_rime, plain-QueueLaws}
use libp.Metric
use libp.Neighbour
use libp.Neighbour.Tests.{young}
use libp.Conn.{Node, count}
use libp.Conn.Send.{send_queued_packet, send_packet}
use libp.Conn.Tests.{packet_from, routed}
use libp.Conn.Acked.{Disposes, handle_ack-Disposes}
use libp.Conn.Ack.{handle_ack}
use libp.Conn.Overwrite.{IsQueued, learn-IsQueued}
use libp.Conn.Route.{update_parent, update_rtmetric, rtmetric_compute}
use libp.Conn.Receive.{is_recent, is_duplicate, learn, receive_data, node_packet_received}
use libp.Conn.Delivery.{receive_data-unrouted, acks-received}

abbrev lost : Node
lost = record routed { rtmetric = 511; parent = 0 }

lost-is_duplicate : is_duplicate lost ≡ false
unfolding is_recent
lost-is_duplicate = refl

receive_data-unrouted_example :
    receive_data lost lost.packetbuf.hdr
    ≡ count (λ s. record s { datarecv = u32 (s.datarecv + 1) }) lost
receive_data-unrouted_example =
    receive_data-unrouted lost lost.packetbuf.hdr lost-is_duplicate refl (omega arith)

-- The acknowledgement that the node waits for, from a neighbour that is not in the table.
abbrev acknowledged : Node
acknowledged = record routed {
  current_parent = 4;
  packetbuf = record (packet_from 4) {
    attrs = λ k. elim k [ packet_type ↦ 1 | packet_id ↦ 10 | _ ↦ 0 ];
  };
}

acknowledged-learn : learn acknowledged acknowledged.packetbuf.hdr ≡ acknowledged
unfolding Neighbour.find Neighbour.find_in
acknowledged-learn = refl

acks-received_example :
    (node_packet_received acknowledged).stats.ackrecv
    ≡ u32 (u32 ((learn acknowledged acknowledged.packetbuf.hdr).stats.ackrecv + 1) + 1)
acks-received_example =
    acks-received acknowledged (omega arith) (rw acknowledged-learn refl)
      (rw acknowledged-learn refl)

-- The node has no route and a queued packet of its own, and hears a sink.
abbrev waiting : Node
waiting = record routed { rtmetric = 511; parent = 0; sending = 0 }

waiting_finds : (learn waiting waiting.packetbuf.hdr).rtmetric ≢ 511
unfolding update_rtmetric update_parent rtmetric_compute send_queued_packet send_packet
    Neighbour.update_rtmetric Neighbour.find Neighbour.find_in Neighbour.best Neighbour.best_in
    Neighbour.cost Metric.metric
waiting_finds = omega arith

waiting_knows : Neighbour.find young 6 ≡ some 1
unfolding Neighbour.find Neighbour.find_in
waiting_knows = refl

learn-IsQueued_example :
    IsQueued
      (learn waiting waiting.packetbuf.hdr).packetbuf
      10
      (learn waiting waiting.packetbuf.hdr).rtmetric
      (packet_from 9)
learn-IsQueued_example =
    learn-IsQueued waiting 1 (packet_from 9) (packet_from 9) waiting_knows refl waiting_finds refl
      refl refl

handle_ack-Disposes_example : Disposes 0 acknowledged (handle_ack acknowledged)
handle_ack-Disposes_example = handle_ack-Disposes plain-QueueLaws acknowledged refl
