-- ===== src/Conn/Beacon.antt =====
-- libp.c: the beacons. `set_beacon_timer`, `libp_set_beacon_period`, `send_beacon` and
-- `broadcast_recv`.
pub mod Timed
use libp.Base.{ℕ, ◌+◌, ◌*◌, ◌/◌, ◌%◌, ◌==◌, if◌then◌else◌, Option, none, some}
use libp.Contiki.{Contiki}
use libp.Rime.{Rime}
use libp.Conn.{
  Node, emit, on_buf, draw, drawn, ctimer_set, ctimer_stop, beacon, broadcast_send,
  rebroadcast_time, beaconing_period,
}
use libp.Conn as Conn

module _ ⦃os : Contiki⦄ ⦃rime : Rime⦄ where
  open os use {clock_second}
  open rime use {copy_beacon}

  -- `set_beacon_timer`; `none` is the division by zero of `random_rand() % (c->beacon_period / 2)`.
  unfoldable pub set_beacon_timer : Node → Option Node
  set_beacon_timer c =
      if c.beacon_period == 0
      then some (emit (ctimer_stop beacon) c)
      else if c.beacon_period / 2 == 0
      then none
      else some (
          emit
            (ctimer_set beacon (c.beacon_period / 2 + draw c % (c.beacon_period / 2))
              Conn.send_beacon)
            (drawn c))

  -- `libp_set_beacon_period`.
  unfoldable pub set_beacon_period : Node → (period : ℕ) → Option Node
  set_beacon_period c period = set_beacon_timer (record c { beacon_period = period })

  -- `send_beacon`.
  unfoldable pub send_beacon : Node → Option Node
  send_beacon c =
      let c1 = on_buf (λ b. copy_beacon b c.rtmetric) c in
      let c2 = emit (broadcast_send c1.packetbuf) c1 in
      if c2.is_sink == 0 then some c2 else set_beacon_period c2 (beaconing_period * clock_second)

  -- `broadcast_recv`: a beacon was heard.
  unfoldable pub broadcast_recv : Node → Option Node
  broadcast_recv c =
      if c.is_sink == 0 then set_beacon_period c (rebroadcast_time * clock_second) else some c
