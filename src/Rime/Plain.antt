-- ===== src/Rime/Plain.antt =====
-- A concrete Rime stack that meets the laws: a packet buffer as a record of its fields.
use libp.Base.{
  ℕ, ◌+◌, ◌-◌, ◌≡◌, refl, true, false, none, some, List, [], ◌∷◌, ◌++◌, length, length-append, tail,
  head?, if◌then◌else◌, u16, arith, ltb,
}
use libp.Rime.{
  Attr, AddrAttr, attr_eq, addr_eq, Header, Rime, BufLaws, QueueLaws, ConfigLaws, DataLaws,
  LengthLaws, FifoLaws,
}

pub record Packet : Type 0 where
  pub attrs : Attr → ℕ
  pub addrs : AddrAttr → ℕ
  pub size : ℕ
  pub chars : List ℕ
  pub hdr : Header

abbrev pub no_header : Header
no_header = record { flags = 0; dummy = 0; rtmetric = 0 }

abbrev pub no_packet : Packet
no_packet = record { attrs = λ k. 0; addrs = λ k. 0; size = 0; chars = []; hdr = no_header }

instance abbrev pub plain_rime : Rime
plain_rime = record {
  Buf = Packet;
  attr = λ b k. b.attrs k;
  set_attr = λ b k v. record b { attrs = λ j. if attr_eq k j then u16 v else b.attrs j };
  addr = λ b k. b.addrs k;
  set_addr = λ b k a. record b { addrs = λ j. if addr_eq k j then a else b.addrs j };
  clear = λ b. no_packet;
  datalen = λ b. b.size;
  totlen = λ b. b.size;
  text = λ b. b.chars;
  set_text = λ b t. record b { chars = t };
  set_datalen = λ b n. record b { size = n };
  hdralloc = λ b n. record b { size = b.size + n };
  hdrreduce = λ b n. record b { size = b.size - n };
  header = λ b. b.hdr;
  set_header = λ b h. record b { hdr = h };
  copy_beacon = λ b r. record no_packet { size = 6 };
  Queuebuf = Packet;
  to_packetbuf = λ q. q;
  queuebuf_new = λ call b. some b;
  Item = Packet;
  queuebuf = λ i. some i;
  Queue = List Packet;
  new_queue = [];
  first = λ q. head? q;
  len = λ q. length q;
  enqueue = λ call q b l. if ltb (length q) 8 then (true, q ++ b ∷ []) else (false, q);
  dequeue = λ q. tail q;
  random_rand = λ call. call;
  node_addr = 9;
  type_data = 0;
  type_ack = 1;
  packet_id_bits = 8;
  channel_check_rate = 8;
  queuebuf_num = 8;
}

pub plain-BufLaws : BufLaws
plain-BufLaws = record {
  attr-set_attr = λ b k j v. refl;
  attr-set_addr = λ b k a j. refl;
  attr-set_header = λ b h j. refl;
  attr-hdralloc = λ b k j. refl;
  addr-set_addr = λ b k j a. refl;
  addr-set_attr = λ b k v j. refl;
  header-set_header = λ b h. refl;
  header-set_attr = λ b k v. refl;
  header-set_addr = λ b k a. refl;
}

pub plain-DataLaws : DataLaws
plain-DataLaws = record {
  to_packetbuf-new = λ call b q e. ground arith;
  datalen-hdrreduce = λ b k h. refl;
  attr-hdrreduce = λ b k j. refl;
  addr-hdrreduce = λ b k j. refl;
}

pub plain-LengthLaws : LengthLaws
plain-LengthLaws = record {
  totlen-set_attr = λ b k v. refl;
  totlen-set_header = λ b h. refl;
  addr-hdralloc = λ b k j. refl;
  addr-set_header = λ b h j. refl;
}

length-tail : (q : List Packet) → length (tail q) ≡ length q - 1
length-tail [] = omega arith
length-tail (p ∷ q) = omega arith

empty_of_head : (q : List Packet) → head? q ≡ none → length q ≡ 0
empty_of_head [] e = refl
empty_of_head (p ∷ q) e = cc

head_of_empty : (q : List Packet) → length q ≡ 0 → head? q ≡ none
head_of_empty [] e = refl
head_of_empty (p ∷ q) e = absurd (omega arith)

length-accepted : (q : List Packet) (b : Packet) → length (q ++ b ∷ []) ≡ length q + 1
length-accepted q b = length-append q (b ∷ [])

pub plain-QueueLaws : QueueLaws
plain-QueueLaws = record {
  len-new_queue = refl;
  len-dequeue = length-tail;
  first-none = empty_of_head;
  len-none = head_of_empty;
  len-enqueue = λ call q b l. ground (arith, length-accepted q b);
}

pub plain-FifoLaws : FifoLaws
plain-FifoLaws = record {
  first-enqueue = λ call q b l e ok.
      (b, b, ground (arith, empty_of_head q e), refl, λ j. refl, λ j. refl, refl);
}

pub plain-ConfigLaws : ConfigLaws
plain-ConfigLaws = record {
  some_bits = omega arith;
  byte_bits = omega arith;
  types_differ = omega arith;
}
