-- ===== src/Conn/Beacon/Timed.antt =====
-- libp.c: which beacon periods `set_beacon_timer` can divide by, and what the beacons leave.
use libp.Base.{
  ℕ, ◌+◌, ◌*◌, ◌/◌, ◌%◌, ◌≡◌, ◌≢◌, refl, ◌==◌, if◌then◌else◌, none, some, arith, sym, subst, ◌∙◌,
}
use libp.Contiki.{Contiki}
use libp.Rime.{Rime}
use libp.Conn.{
  Node, emit, on_buf, draw, drawn, ctimer_set, ctimer_stop, beacon, broadcast_send,
  rebroadcast_time, beaconing_period,
}
use libp.Conn as Conn
use libp.Conn.Fault.{none-some}
use mathlib.Core.Option.{some-injective}
use native.Mathlib.Decide.{ℕ_discrete}
use libp.Conn.Beacon.{set_beacon_timer, set_beacon_period, send_beacon, broadcast_recv}

module _ ⦃os : Contiki⦄ ⦃rime : Rime⦄ where
  open os use {clock_second}
  open rime use {copy_beacon}

  -- The node with its beacon period and its timer set, where that is no fault.
  abbrev pub timed : Node → (period : ℕ) → Node
  timed c period =
      let c1 = record c { beacon_period = period } in
      if period == 0
      then emit (ctimer_stop beacon) c1
      else emit (ctimer_set beacon (period / 2 + draw c1 % (period / 2)) Conn.send_beacon)
          (drawn c1)

  abbrev sent : Node → Node
  sent c =
      let c1 = on_buf (λ b. copy_beacon b c.rtmetric) c in emit (broadcast_send c1.packetbuf) c1

  abbrev pub beaconed : Node → Node
  beaconed c =
      if (sent c).is_sink == 0 then sent c else timed (sent c) (beaconing_period * clock_second)

  abbrev pub rebroadcast : Node → Node
  rebroadcast c = if c.is_sink == 0 then timed c (rebroadcast_time * clock_second) else c

  -- The period 1 is the one that faults.
  pub set_beacon_period-one : (c : Node) → set_beacon_period c 1 ≡ none
  unfolding set_beacon_period set_beacon_timer
  set_beacon_period-one c = refl

  pub set_beacon_period-timed :
      (c : Node) (period : ℕ) → period ≢ 1 → set_beacon_period c period ≡ some (timed c period)
  unfolding set_beacon_period set_beacon_timer
  set_beacon_period-timed c period h = ground arith

  -- The periods that the beacons set are even.
  pub send_beacon-beaconed : (c : Node) → send_beacon c ≡ some (beaconed c)
  unfolding send_beacon
  send_beacon-beaconed c =
      ground
        (arith, set_beacon_period-timed (sent c) (beaconing_period * clock_second) (omega arith))

  pub broadcast_recv-rebroadcast : (c : Node) → broadcast_recv c ≡ some (rebroadcast c)
  unfolding broadcast_recv
  broadcast_recv-rebroadcast c =
      ground (arith, set_beacon_period-timed c (rebroadcast_time * clock_second) (omega arith))

  pub set_beacon_period-some :
      (c d : Node) (period : ℕ) → set_beacon_period c period ≡ some d → timed c period ≡ d
  set_beacon_period-some c d period e = elim (ℕ_discrete period 1) [
    | yes one ↦
        absurd
          (none-some (set_beacon_period-one c) (subst (λ k. set_beacon_period c k ≡ some d) one e))
    | no h ↦ some-injective _ d (sym (set_beacon_period-timed c period h) ∙ e)
  ]
