-- ===== src/Conn/Run.antt =====
-- libp.c: a node's life as a sequence of events. Contiki calls one handler at a time and runs it
-- to its end; the packet buffer holds what the radio or the application put there before.
use libp.Base.{
  ℕ, ◌==◌, ◌||◌, false, true, ==_iff, inl, inr, Bool-cases, ◌≡◌, sym, subst, refl, Bool, arith,
  Option, none, some, List, [], ◌∷◌, length,
}
use libp.Contiki.{Contiki, ListLaws, MembLaws}
use libp.Metric
use libp.Neighbour
use libp.Neighbour.Inv.{IsValid, opened-IsValid}
use libp.Rime.{Rime}
use libp.Conn.{Node, retransmit, retransmit_not_sent, probe, age_neighbours, Callback}
use libp.Conn as Conn
use libp.Conn.Timers.{node_packet_sent, retransmit_callback, retransmit_not_sent_callback}
use libp.Conn.Receive.{node_packet_received, received_announcement}
use libp.Conn.Beacon.{send_beacon, set_beacon_period, broadcast_recv}
use libp.Conn.Beacon.Timed.{
  set_beacon_period-one, set_beacon_period-timed, send_beacon-beaconed, broadcast_recv-rebroadcast,
}
use libp.Conn.Fault.{Unless, faults, ends, Unless-then}
use libp.Conn.Probe.{proactive_probing_callback}
use libp.Conn.Api.{open_conn, send, set_sink, purge, neighbour_periodic_callback, close}
use libp.Conn.Inv.{
  Good, node_packet_sent-Good, retransmit_callback-Good, retransmit_not_sent_callback-Good,
}
use libp.Conn.Handlers.{buf-Good, node_packet_received-Good, received_announcement-Good}
use libp.Conn.Calls.{
  timed-Good, beaconed-Good, rebroadcast-Good, proactive_probing_callback-Good, send-Good,
  set_sink-Good, close-Good, purge-Good, neighbour_periodic_callback-Good,
}

module _ ⦃os : Contiki⦄ ⦃rime : Rime⦄ where
  pub data Event : Type 0 where
    packet_received : rime.Buf → Event
    packet_sent : rime.Buf → (transmissions : ℕ) → Event
    announced : (from value : ℕ) → Event
    beacon_heard : Event
    fires : Callback → Event
    sends : rime.Buf → (rexmits : ℕ) → Event
    sets_sink : (should_be_sink : ℕ) → Event
    sets_beacon_period : (period : ℕ) → Event
    purges : Event
    closes : Event
    -- time passes, and packets whose lifetime is over leave the queue
    passes : (time : ℕ) → rime.Queue → Event

  -- The function that a callback timer calls.
  abbrev pub fire : Node → Callback → Option Node
  fire c retransmit = some (retransmit_callback c)
  fire c retransmit_not_sent = some (retransmit_not_sent_callback c)
  fire c Conn.send_beacon = send_beacon c
  fire c probe = some (proactive_probing_callback c)
  fire c age_neighbours = neighbour_periodic_callback c

  unfoldable pub step : Node → Event → Option Node
  step c (packet_received b) = some (node_packet_received (record c { packetbuf = b }))
  step c (packet_sent b k) = some (node_packet_sent (record c { packetbuf = b }) k)
  step c (announced from value) = some (received_announcement c from value)
  step c beacon_heard = broadcast_recv c
  step c (fires f) = fire c f
  step c (sends b rexmits) = some (send (record c { packetbuf = b }) rexmits).1
  step c (sets_sink k) = some (set_sink c k)
  step c (sets_beacon_period k) = set_beacon_period c k
  step c purges = purge c
  step c closes = some (close c)
  step c (passes time q) = some (record c { clock_time = time; send_queue = q })

  unfoldable pub run : Node → List Event → Option Node
  run c [] = some c
  run c (e ∷ es) = elim (step c e) [ none ↦ none | some c' ↦ run c' es ]

  -- The events that make `set_beacon_timer` divide by zero: the beacon period is set to 1, whose half
  -- is 0.
  abbrev pub divides : Event → Bool
  divides (sets_beacon_period k) = k == 1
  divides _ = false

  unfoldable pub any_divides : List Event → Bool
  any_divides [] = false
  any_divides (e ∷ es) = divides e || any_divides es

  -- What the loader leaves in the memory: no recent packet, and counters at zero.
  pub record IsBooted (c : Node) : Type 0 where
    pub metrics : (p : ℕ) → Metric.Bounds.IsValid (c.neighbour_list.mem p).lm
    pub places : length c.recent_packets ≡ 16
    pub index : c.recent_packet_ptr ≡ 0
    pub transmissions : c.transmissions ≡ 0
    pub max_rexmits : c.max_rexmits ≡ 0

module _ ⦃os : Contiki⦄ ⦃rime : Rime⦄ (lists : ListLaws) (memb : MembLaws 8) where
  opened_table :
      (c : Node) (channels is_router : ℕ) (has_recv : Bool)
      → (open_conn c channels is_router has_recv).neighbour_list
        ≡ Neighbour.init (Neighbour.list_new c.neighbour_list)
  unfolding open_conn
  opened_table c channels is_router has_recv = ground arith

  -- `libp_open` makes a good state of what the loader leaves.
  pub open_conn-Good :
      (c : Node) (channels is_router : ℕ) (has_recv : Bool)
      → IsBooted c
      → Good (open_conn c channels is_router has_recv)
  unfolding open_conn
  open_conn-Good c channels is_router has_recv b = record {
    table =
        subst IsValid (sym (opened_table c channels is_router has_recv))
          (opened-IsValid lists c.neighbour_list b.metrics);
    ring = record { places = ground (arith, b.places); index = ground arith };
    seqno = ground arith;
    eseqno = ground arith;
    transmissions = ground arith;
    max_rexmits = ground arith;
    sink = ground arith;
  }

  fire-Good : (c : Node) (f : Callback) → Good c → (c' : Node) × (fire c f ≡ some c') × Good c'
  fire-Good c retransmit g = (_, refl, retransmit_callback-Good c g)
  fire-Good c retransmit_not_sent g = (_, refl, retransmit_not_sent_callback-Good c g)
  fire-Good c Conn.send_beacon g = (_, send_beacon-beaconed c, beaconed-Good c g)
  fire-Good c probe g = (_, refl, proactive_probing_callback-Good c g)
  fire-Good c age_neighbours g = neighbour_periodic_callback-Good lists memb c g

  passes-Good :
      (c : Node) (time : ℕ) (q : rime.Queue)
      → Good c
      → Good (record c { clock_time = time; send_queue = q })
  passes-Good c time q g = ground arith

  -- What an event that does not make `set_beacon_timer` divide by zero leaves.
  pub step_ends :
      (c : Node) (e : Event)
      → divides e ≡ false
      → Good c
      → (c' : Node) × (step c e ≡ some c') × Good c'
  unfolding step
  step_ends c (packet_received b) n g = (_, refl, node_packet_received-Good _ (buf-Good c b g))
  step_ends c (packet_sent b k) n g = (_, refl, node_packet_sent-Good _ k (buf-Good c b g))
  step_ends c (announced from value) n g =
      (_, refl, received_announcement-Good lists memb c from value g)
  step_ends c beacon_heard n g = (_, broadcast_recv-rebroadcast c, rebroadcast-Good c g)
  step_ends c (fires f) n g = fire-Good c f g
  step_ends c (sends b rexmits) n g = (_, refl, send-Good _ rexmits (buf-Good c b g))
  step_ends c (sets_sink k) n g = (_, refl, set_sink-Good c k g)
  step_ends c (sets_beacon_period k) n g =
      (_, set_beacon_period-timed c k (ground (arith, ==_iff k 1)), timed-Good c k g)
  step_ends c purges n g = purge-Good lists memb c g
  step_ends c closes n g = (_, refl, close-Good c g)
  step_ends c (passes time q) n g = (_, refl, passes-Good c time q g)

  step_faults : (c : Node) (e : Event) → divides e ≡ true → step c e ≡ none
  unfolding step
  step_faults c (sets_beacon_period k) h =
      subst (λ k. set_beacon_period c k ≡ none) (sym ((==_iff k 1).0 h)) (set_beacon_period-one c)
  step_faults c (packet_received b) h = cc
  step_faults c (packet_sent b k) h = cc
  step_faults c (announced from value) h = cc
  step_faults c beacon_heard h = cc
  step_faults c (fires f) h = cc
  step_faults c (sends b rexmits) h = cc
  step_faults c (sets_sink k) h = cc
  step_faults c purges h = cc
  step_faults c closes h = cc
  step_faults c (passes time q) h = cc

  pub step-Good : (c : Node) (e : Event) → Good c → Unless (divides e) (step c e) (λ c'. Good c')
  step-Good c e g = elim (Bool-cases (divides e)) [
    | inl h ↦ faults h (step_faults c e h)
    | inr h ↦ let (c', is, g') = step_ends c e h g in ends h c' is g'
  ]

  pub run-step :
      (c c1 : Node) (e : Event) (es : List Event) → step c e ≡ some c1 → run c (e ∷ es) ≡ run c1 es
  unfolding run
  run-step c c1 e es h = rw (h, run)

  pub run-none : (c : Node) (e : Event) (es : List Event) → step c e ≡ none → run c (e ∷ es) ≡ none
  unfolding run
  run-none c e es h = rw (h, run)

  run-Good :
      (c : Node) (es : List Event) → Good c → Unless (any_divides es) (run c es) (λ c'. Good c')
  unfolding run any_divides
  run-Good c [] g = ends refl c refl g
  run-Good c (e ∷ es) g = Unless-then (step-Good c e g) (run-none c e es) (λ c1 is g1.
      subst (λ r. Unless (any_divides es) r (λ c'. Good c')) (sym (run-step c c1 e es is))
        (run-Good c1 es g1))

  -- From what the loader leaves, `libp_open` and any sequence of events after it fault, by a
  -- division by zero, if the beacon period is set to 1 among them; and if it is not, they reach
  -- their end, and the state is good: the neighbour table is valid, the ring of recent packets is
  -- whole, the counters are bytes, and the rtmetric is 0 only where `is_sink` is set.
  pub run-open_conn-Good :
      (c : Node) (channels is_router : ℕ) (has_recv : Bool) (es : List Event)
      → IsBooted c
      → Unless (any_divides es) (run (open_conn c channels is_router has_recv) es) (λ c'. Good c')
  run-open_conn-Good c channels is_router has_recv es b =
      run-Good _ es (open_conn-Good c channels is_router has_recv b)
