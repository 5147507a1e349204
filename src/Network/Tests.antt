-- ===== src/Network/Tests.antt =====
-- libp.c at two nodes: a sink, at the address 6, and all other addresses with it as their parent.
mod Journey
use libp.Base.{ℕ, ◌≡◌, ◌==◌, refl, some, [], ◌∷◌, if◌then◌else◌, Bool-cases, inl, inr, arith}
use libp.Contiki.Plain.{plain}
use libp.Rime.Plain.{plain_rime, plain-BufLaws, plain-QueueLaws}
use libp.Metric
use libp.Metric.{LinkMetric}
use libp.Neighbour
use libp.Neighbour.{Table}
use libp.Neighbour.Tests.{neighbour, link-IsValid}
use libp.Conn.{Node}
use libp.Conn.Choose.{IsSane}
use libp.Conn.Route.{update_parent, update_rtmetric, rtmetric_compute}
use libp.Conn.Tests.{routed, packet_from}
use libp.Conn.Send.{outgoing}
use libp.Conn.Receive.{receive_data}
use libp.Network.Handover.{Settles, receive_data-Settles}
use libp.Network.{Net, IsCurrent, follow, follow_reaches}

abbrev pub near_sink : Table
near_sink = record { mem = λ p. neighbour 6 0 3; pool = 0 ∷ []; chain = 0 ∷ []; initialized = 1 }

near_sink-IsSane : IsSane near_sink
unfolding Neighbour.find Neighbour.find_in
near_sink-IsSane = record {
  valid = record {
    held = λ p h. h;
    within = λ p h. ground arith;
    apart = (refl, tt);
    metrics = λ p. link-IsValid;
  };
  small = λ q. omega arith;
  none_null = refl;
}

abbrev child : Node
child = record routed { neighbour_list = near_sink; parent = 6; rtmetric = 16 }

abbrev sink : Node
sink = record routed { neighbour_list = near_sink; parent = 0; rtmetric = 0; is_sink = 1 }

abbrev star : Net
star a = if a == 6 then sink else update_rtmetric child

child_route :
    ((update_rtmetric child).parent ≡ 6)
    × ((update_rtmetric child).rtmetric ≡ 16)
    × ((update_rtmetric child).neighbour_list ≡ near_sink)
unfolding update_rtmetric update_parent rtmetric_compute Neighbour.find Neighbour.find_in
    Neighbour.best Neighbour.best_in Neighbour.cost Metric.metric
child_route = (refl, refl, refl)

star-IsCurrent : IsCurrent star
star-IsCurrent = record {
  chosen = λ a h. elim (Bool-cases (a == 6)) [
    | inl e ↦ absurd (ground arith)
    | inr e ↦ (child, near_sink-IsSane, omega arith, rw e refl)
  ];
  heard = λ a p f. elim (Bool-cases (a == 6)) [
    | inl e ↦ absurd (ground (arith, near_sink-IsSane.none_null))
    | inr e ↦ ground (arith, child_route)
  ];
}

follow_reaches_example : (s : ℕ) × (follow 3 star 1 ≡ some s) × ((star s).rtmetric ≡ 0)
follow_reaches_example =
    follow_reaches 3 star 1 star-IsCurrent (omega (arith, child_route)) (omega (arith, child_route))

-- A child with a packet under way to its parent at 4, and the parent, which hears it from 6.
abbrev lower : Node
lower = record routed { current_parent = 4 }

abbrev upper : Node
upper = record routed { packetbuf = record (outgoing (packet_from 9) 31 10 56) { addrs = λ k. 6 } }

receive_data-Settles_example : Settles lower upper (receive_data upper upper.packetbuf.hdr) 4
receive_data-Settles_example =
    receive_data-Settles plain-BufLaws plain-QueueLaws lower upper (packet_from 9) 31 6 4
      (record { same_header = refl; same_id = refl; by = refl }) (omega arith) (omega arith)
      (omega arith) refl
