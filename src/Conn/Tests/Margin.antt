-- ===== src/Conn/Tests/Margin.antt =====
-- libp.c: a parent that announced that it has no route, and a neighbour that costs almost as much; the
-- margin of the hysteresis.
use libp.Base.{
  ℕ, ◌-◌, ◌≡◌, ◌<◌, ◌==◌, refl, some, [], ◌∷◌, if◌then◌else◌, Bool-cases, inl, inr, arith,
}
use libp.Contiki.Plain.{plain}
use libp.Rime.Plain.{plain_rime}
use libp.Metric
use libp.Metric.{LinkMetric}
use libp.Neighbour
use libp.Neighbour.{Neighbour, Table}
use libp.Neighbour.Tests.{neighbour}
use libp.Conn.{Node}
use libp.Conn.Choose.{IsSane}
use libp.Conn.Route.{update_parent, update_rtmetric}
use libp.Conn.Tests.{routed}
use libp.Conn.Margin.{lost_parent_stays}

-- A link that takes one transmission.
abbrev good_link : LinkMetric
good_link = record {
  children_accumulator = 0;
  num_children = 0;
  etx_accumulator = 8;
  num_estimates = 3;
}

abbrev far_off : Table
far_off = record {
  mem = λ p. record (if p == 0 then neighbour 5 511 3 else neighbour 6 501 3) { lm = good_link };
  pool = 0 ∷ 1 ∷ [];
  chain = 0 ∷ 1 ∷ [];
  initialized = 1;
}

-- A parent at 5 that costs 48, and a neighbour at 6 whose cost is lower by 12, and by 13.
abbrev nearer_by : ℕ → Node
nearer_by k = record routed {
  neighbour_list = record far_off {
    mem = λ p. record (if p == 0 then neighbour 5 40 3 else neighbour 6 (40 - k) 3) {
      lm = good_link;
    };
  };
}

margin_test :
    ((update_parent (nearer_by 12)).parent ≡ 5) × ((update_parent (nearer_by 13)).parent ≡ 6)
unfolding update_parent Neighbour.best Neighbour.best_in Neighbour.find Neighbour.find_in
    Neighbour.cost Metric.metric
margin_test = (refl, refl)

far_off-IsSane : IsSane far_off
unfolding Neighbour.find Neighbour.find_in
far_off-IsSane = record {
  valid = record {
    held = λ p h. h;
    within = λ p h. ground arith;
    apart = (refl, (refl, tt));
    metrics =
        λ p. record { counted = omega arith; bounded = omega arith; positive = λ h. omega arith };
  };
  small =
      λ q. elim (Bool-cases (q == 0)) [ inl e ↦ rw e (omega arith) | inr e ↦ rw e (omega arith) ];
  none_null = refl;
}

abbrev child : Node
child = record routed { neighbour_list = far_off }

parent_listed : Neighbour.find far_off 5 ≡ some 0
unfolding Neighbour.find Neighbour.find_in
parent_listed = refl

other_is_best : Neighbour.best far_off ≡ some 1
unfolding Neighbour.best Neighbour.best_in Neighbour.cost Metric.metric
other_is_best = refl

lost_parent_stays_example :
    ((update_rtmetric child).parent ≡ 5) × (511 < (update_rtmetric child).rtmetric)
unfolding Neighbour.cost Metric.metric
lost_parent_stays_example =
    lost_parent_stays child 0 1 far_off-IsSane (omega arith) parent_listed (omega arith)
      other_is_best (omega arith)
