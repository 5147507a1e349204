-- ===== src/Network/Arrival.antt =====
-- libp.c: a packet in the air arrives at a sink.
use libp.Base.{
  ℕ, ◌<◌, ◌≡◌, ◌∙◌, refl, sym, ap, subst, true, false, Option-cases, some, List, ◌∷◌, arith, inl,
  inr, u8,
}
use native.Mathlib.Nat.{mod-eq_of_lt}
use libp.Contiki.{Contiki}
use libp.Neighbour
use libp.Rime.{Rime, Header, DataLaws, packet_type, sender}
use libp.Conn.{Node, Effect, deliver}
use libp.Conn.Frame.{update_rtmetric-sink}
use libp.Conn.Receive.{is_recent, learn}
use libp.Conn.Sink.{Delivers, deliveries, delivered, receive-Delivers}
use libp.Network.Message.{Message, message, Fits, AirLaws, message-air}
use libp.Network.Relay.{to_data}
use libp.Network.Flight.{Stop, Flight, lands}

module _ ⦃os : Contiki⦄ ⦃rime : Rime⦄ where
  open rime use {Buf, attr, addr, header, hdralloc, enqueue, node_addr, totlen}

  -- The receive callback was called, as the last call and once.
  abbrev pub Brings : Node → (originator number hops : ℕ) → Node → Type 0
  Brings c o n h d =
      (es : List Effect) × (d.effects ≡ deliver o n h ∷ es) × (deliveries es ≡ deliveries c.effects)

  -- The call of the receive callback for a message.
  abbrev narrowed : Message → Effect
  narrowed m = deliver m.originator (u8 m.number) (u8 m.hops)

  delivered-message :
      (b : Buf) (m : Message)
      → message b ≡ m
      → m.number < 256
      → m.hops < 256
      → delivered b ≡ deliver m.originator m.number m.hops
  delivered-message b m e low few = ap narrowed e ∙ rw (mod-eq_of_lt low, mod-eq_of_lt few)

  -- What a sink is once it has learned the sender's rtmetric.
  learn-sink :
      (c : Node) (hdr : Header)
      → c.rtmetric ≡ 0
      → ((learn c hdr).rtmetric ≡ 0)
        × ((learn c hdr).packetbuf ≡ c.packetbuf)
        × ((learn c hdr).has_recv ≡ c.has_recv)
        × ((learn c hdr).recent_packets ≡ c.recent_packets)
        × ((learn c hdr).effects ≡ c.effects)
  learn-sink c hdr z =
      elim (Option-cases (Neighbour.find c.neighbour_list (addr c.packetbuf sender))) [
        | inl e ↦ rw (e, learn) (z, refl, refl, refl, refl)
        | inr (n, e) ↦
            let t = Neighbour.update_rtmetric c.neighbour_list (some n) hdr.rtmetric in
            rw (e, learn, update_rtmetric-sink (record c { neighbour_list = t }) z)
              (z, refl, refl, refl, refl)
      ]

module _ ⦃os : Contiki⦄ ⦃rime : Rime⦄ (data_laws : DataLaws) (air : rime.Buf → ℕ → rime.Buf)
    (airs : AirLaws air) where
  open rime use {Buf, attr, addr, datalen, node_addr, type_data, totlen, header}

  -- What arrives at a sink is delivered.
  pub lands-Brings :
      (s : Stop) (f : Flight) (m : Message)
      → message f.packet ≡ m
      → s.node.rtmetric ≡ 0
      → s.node.has_recv ≡ true
      → Fits m
      → m.number < 256
      → m.kind ≡ type_data
      → 4 < m.size
      → is_recent s.node.recent_packets m.originator m.number ≡ false
      → Brings s.node m.originator m.number m.hops (lands air s f)
  unfolding Delivers
  lands-Brings s f m says z recv fits low kind big new =
      let b = air f.packet f.from in
      let same = message-air air f.packet f.from airs (subst Fits (sym says) fits) ∙ says in
      let c = record (s.node) { packetbuf = b } in
      let d = learn c (header b) in
      let (zd, buf, recv', recent, effects) = learn-sink c (header b) z in
      let (es, top, others) =
        receive-Delivers data_laws d (header b) zd
          (subst (λ x. 4 < datalen x) (sym buf)
            (omega (arith, airs.datalen-air f.packet f.from, ap (λ x. x.size) says, big)))
          (recv' ∙ recv)
          (rw (recent, buf, ap (λ x. x.originator) same, ap (λ x. x.number) same) new) in
      (
        es,
        ap (λ x. x.effects)
              (to_data c (ap (λ x. attr x packet_type) buf ∙ ap (λ x. x.kind) same ∙ kind))
            ∙ top
            ∙ ap (λ x. delivered x ∷ es) buf
            ∙ ap (λ x. x ∷ es) (delivered-message b m same low (omega (arith, fits.limit))),
        others ∙ ap deliveries effects,
      )
