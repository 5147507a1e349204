-- ===== src/Conn/Tests/Steady.antt =====
-- libp.c: runs on a node that keeps to its route.
use libp.Base.{[], some, ℕ, u8, ◌+◌, ◌%◌, ◌-◌, ◌^◌, ◌≤◌, ◌≡◌, refl, arith}
use libp.Contiki.Plain.{plain, plain-ListLaws, plain-MembLaws}
use libp.Rime.Plain.{plain_rime, plain-QueueLaws}
use libp.Metric
use libp.Neighbour
use libp.Neighbour.Tests.{link, young, two_of_age-IsValid}
use libp.Conn.{Node}
use libp.Conn.Tests.{routed}
use libp.Conn.Route.{update_parent, update_rtmetric, rtmetric_compute}
use libp.Conn.Receive.{receive_data}
use libp.Conn.Api.{purge}
use libp.Conn.Purge.{IsPurged, purge-IsPurged}
use libp.Conn.Probe.{proactive_probing_callback}
use libp.Conn.Probing.{Probed, proactive_probing_callback-Probed}
use libp.Conn.Stable.{IsSettled, update_rtmetric_twice}
use libp.Conn.Progress.{IsSteady, fired, retransmission_ends}
use libp.Conn.Outcome.{Outcome}
use libp.Conn.Received.{receive_data-Outcome}
open plain_rime use {len, packet_id_bits}

update_rtmetric_twice_example :
    ((update_rtmetric (update_rtmetric routed)).parent ≡ (update_rtmetric routed).parent)
    × ((update_rtmetric (update_rtmetric routed)).rtmetric ≡ (update_rtmetric routed).rtmetric)
update_rtmetric_twice_example = update_rtmetric_twice routed (two_of_age-IsValid 3)

receive_data-Outcome_example :
    Outcome routed routed.packetbuf.hdr (receive_data routed routed.packetbuf.hdr)
receive_data-Outcome_example =
    receive_data-Outcome plain-QueueLaws routed routed.packetbuf.hdr (omega arith)

abbrev steady : Node
steady = record routed { parent = 6; current_parent = 6; rtmetric = 24 }

steady-IsSettled : IsSettled steady
unfolding update_parent rtmetric_compute Neighbour.find Neighbour.find_in Neighbour.best
    Neighbour.best_in Neighbour.cost Metric.metric
steady-IsSettled = record { parent = refl; rtmetric = refl }

steady-IsSteady : IsSteady steady
steady-IsSteady = record { settled = steady-IsSettled; current = refl; no_sink = omega arith }

retransmission_ends_example :
    (j : ℕ) × (j ≤ 9)
    × (len (fired j steady).send_queue ≡ len steady.send_queue - 1)
    × ((fired j steady).seqno ≡ u8 ((steady.seqno + 1) % 2 ^ packet_id_bits))
retransmission_ends_example =
    retransmission_ends plain-QueueLaws 8 steady steady-IsSteady (omega arith) (omega arith)
      (omega arith)

purge-IsPurged_example : (c : Node) × (purge routed ≡ some c) × IsPurged routed c
purge-IsPurged_example = purge-IsPurged plain-ListLaws plain-MembLaws routed

-- A node with nothing to send, and a neighbour near the sink with no estimate of its link.
abbrev idle : Node
idle = record routed {
  send_queue = [];
  neighbour_list = record young {
    mem = λ p. record (young.mem p) { lm = record (link) { num_estimates = 0 } };
  };
}

proactive_probing_callback-Probed_example : Probed idle (proactive_probing_callback idle)
proactive_probing_callback-Probed_example = proactive_probing_callback-Probed plain-QueueLaws idle
