-- ===== src/Conn/Tests/Sink.antt =====
-- libp.c: receptions at a concrete sink.
use libp.Base.{List, [], ◌∷◌, ◌≡◌, refl, false, arith}
use libp.Contiki.Plain.{plain}
use libp.Rime.Plain.{Packet, plain_rime, plain-DataLaws}
use libp.Conn.{Node}
use libp.Conn.Tests.{packet_from, routed}
use libp.Conn.Receive.{is_recent, is_duplicate}
use libp.Conn.Recent.{IsRing}
use libp.Conn.Sink.{Delivers, deliveries}
use libp.Conn.Once.{receives, receives_once}

abbrev gateway : Node
gateway = record routed { rtmetric = 0; parent = 0; is_sink = 1 }

gateway-IsRing : IsRing gateway
gateway-IsRing = record { places = refl; index = omega arith }

gateway-new : is_duplicate (record gateway { packetbuf = packet_from 6 }) ≡ false
unfolding is_recent
gateway-new = refl

abbrev others : List Packet
others = packet_from 5 ∷ packet_from 7 ∷ []

receives_once_example :
    let d = receives (packet_from 6 ∷ []) gateway in
    let e = receives others d in
    Delivers gateway (packet_from 6) d
    × (deliveries (receives (packet_from 6 ∷ []) e).effects ≡ deliveries e.effects)
receives_once_example =
    receives_once plain-DataLaws gateway (packet_from 6) (packet_from 6) others refl gateway-IsRing
      refl (omega arith) (omega arith) gateway-new (omega arith) refl refl
